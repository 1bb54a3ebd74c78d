-- ===== src/Lib.antt =====
-- Attendee runs bots that join meetings, record and transcribe them, and charge an organization for
-- the time. This development models the core that keeps the rows of a bot coherent: the state machine
-- of bots, the log of events, the recordings, the credits, the webhooks and the requests to a bot; the
-- way of the audio into utterances and of these into transcriptions and a summary; and the upkeep that
-- deletes old or unwanted data and ends bots that are stuck.
--
-- How the parts interact: BotEventManager.create_event (bots/models.py) reads a bot's row, finds the
-- transition, saves the row under a version, runs the hook of the new state, which starts or pauses a
-- recording through RecordingManager, and at the end of a meeting terminates the recordings and
-- charges the organization through CreditTransactionManager. It then appends to the log and calls
-- trigger_webhook (bots/webhook_utils.py), whose deliveries the task deliver_webhook
-- (bots/tasks/deliver_webhook_task.py) posts. Bot.delete_data and the command that ends stuck bots go
-- through create_event as well; the task process_async_transcription calls AsyncTranscriptionManager.
-- A summary is claimed, written, reaped and wiped by single updates of the bot's row.
--
-- The files:
--   Base         Boolean tests, lists and integers over the native numbers, and `Outcome`, what a call
--                gives: a value or an exception
--   Errors       the exceptions, and the save of a row that carries a version
--   States       BotStates of bots/models.py
--   Events       BotEventTypes, BotEventSubTypes and the check constraint of BotEvent; Constraint reads
--                a comparison with null as unknown, as the database does
--   Transitions  BotEventManager.VALID_TRANSITIONS and the part of create_event that decides
--   Recordings   Recording and RecordingManager; Terminate has terminate_recording
--   Credits      CreditTransaction and CreditTransactionManager, and the balance of Organization
--                (accounts/models.py); the four unique constraints are `conflicts`
--   Bots         Bot; Billing has bot_duration_seconds and centicredits_consumed, with the rounding of
--                double precision, Heartbeat set_heartbeat, Recovery the replacement of crashed bots
--                (bots/bot_recovery_utils.py), of which the lineage of a meeting is an argument
--   Webhooks     WebhookSubscription, trigger_webhook; Delivery has the task deliver_webhook
--   Lifecycle    create_event: Hooks has the six hooks of a new state, Ending the end of a meeting,
--                CreateEvent the attempt and the loop around it; ActionTaken has
--                set_requested_bot_action_taken_at
--   MediaRequests, ChatRequests, AsyncTranscriptions
--                the managers of those rows in bots/models.py
--   AsyncTranscriptions
--                its Task is bots/tasks/process_async_transcription_task.py, with the groups of
--                utterances in Grouping
--   Utterances   process_utterance of bots/tasks/process_utterance_task.py, and its runs one after
--                another; what a provider answers is an argument; Retry has
--                retry_failed_transcription of bots/bots_api_utils.py
--   AudioInput   bots/bot_controller/per_participant_non_streaming_audio_input_manager.py
--   AudioOutput  add_chunk of bots/bot_controller/realtime_audio_output_manager.py
--   LocalSessions
--                Groups has bots/local_utterance_group.py, and _drain and _settle_group
--                of bots/tasks/process_local_audio_segment_task.py as far as they go for the
--                group, Split has bots/audio_split.py
--   Lineage      resolve_meeting_lineage of bots/bots_api_utils.py
--   Summaries    bots/tasks/generate_meeting_summary_task.py; Azure has the retries of the model
--                (bots/summarization/generation.py), the request to generate again is of
--                bots/meetings_api_views.py
--   DataDeletion Bot.delete_data, and the rows that it does not touch
--   Cleanup      bots/cleanup_utils.py
--   StuckBots    bots/management/commands/
--                clean_up_bots_with_heartbeat_timeout_or_that_never_launched.py
--   AutomaticLeave
--                bots/automatic_leave_utils.py
--   MeetingStatus
--                bots/meeting_status.py
--   Tests        rows on which the theorems are tried
--
-- State is passed explicitly. An operation is a function of the rows that it reads, and gives the rows
-- that it writes; a transaction that raises keeps nothing, which is `raise`. What other processes do is
-- an argument: `Interference` for one attempt at a charge, `Round` for one attempt at an event, with
-- the commits that fall between the read and the write and whether the save finds the row changed. The
-- clock is an argument too. Times are numbers, amounts are hundredths of a credit, and where the source
-- computes in floating point the model computes the same mantissa. Python's exceptions are values
-- without their messages.
--
-- Bounds: create_transaction makes ten attempts and create_event `max_retries`, three unless it is
-- given; both loops recurse on the attempts that are left, so that no fuel beyond the source's own
-- limit is needed. The search for the exponent of a quotient has 128 steps, which is enough for all
-- durations below 2 ^ 31 seconds, the bound of the theorem on prices. The calls of the language
-- model have four rounds of fuel, for two transient errors, a truncation and the last reply; a
-- cleanup has one round more than its table has rows, since each round but the last deletes one.
-- The walks over a lineage add a bot in each round but the last two, and go no further once there are fifty. The loop
-- that cuts audio takes a byte or more in each round.
--
-- Parameters for code outside the repository: the answer of a webhook's receiver, whether a payload
-- can be signed, and the queue that runs a task again after an exception, which is given as the
-- list of its runs; the detectors of loudness and of voice, the time that audio takes, the text of
-- failure reasons as JSON, the replies of the language model and what is read from them, the
-- characters that delimit words, the lower case of a word, and the loudness of a window of samples.
-- The database is modelled by its documented behaviour: atomic transactions, unique constraints,
-- check constraints under three-valued logic.
--
-- Not modelled: the adapters of the meeting platforms, the bot controller beyond the audio of the
-- participants, the views and serializers, the store and the segments of local sessions, calendars,
-- the calls of transcription services, the launching of pods, and the messages to Slack and the
-- log, which no row depends on. Of the rows only the columns are modelled that the operations above
-- read or write.
pub mod Base
pub mod States
pub mod Events
pub mod Errors
pub mod Recordings
pub mod Credits
pub mod Transitions
pub mod Bots
pub mod Webhooks
pub mod MeetingStatus
pub mod MediaRequests
pub mod ChatRequests
pub mod AsyncTranscriptions
pub mod AudioInput
pub mod AudioOutput
pub mod Summaries
pub mod Utterances
pub mod Lineage
pub mod LocalSessions
pub mod AutomaticLeave
pub mod DataDeletion
pub mod StuckBots
pub mod Cleanup
pub mod Tests
pub mod Lifecycle
