-- ===== src/LocalSessions/Groups.antt =====
-- bots/local_utterance_group.py, and _drain and _settle_group of
-- bots/tasks/process_local_audio_segment_task.py: when a group of utterances of one source is sent, and the
-- silence that is written between them. Times are milliseconds. A timeline in which a time is before its
-- epoch, so that a difference is negative, counts as zero, as the code takes the maximum with zero or
-- compares with a bound.
pub mod Closing
use attendee.Base.{
  ℕ, ◌+◌, ◌-◌, ◌*◌, ◌/◌, Bool, true, false, ◌&&◌, ◌||◌, not, Option, none, some, List, [], ◌∷◌,
  ◌++◌, if◌then◌else◌, ltb, leb, get_last?,
}

-- An utterance of a group; `is_size_capped` says that its `flush_reason` is that the buffer was full.
pub record Member : Type 0 where
  pub utterance_id : ℕ
  pub timestamp_ms : ℕ
  pub duration_ms : ℕ
  pub voice_ms : ℕ
  pub is_size_capped : Bool

pub data CloseReason : Type 0 where
  enough_context stopped_talking ceiling session_ended : CloseReason

abbrev pub target_voice_ms : ℕ
target_voice_ms = 30000

abbrev pub min_boundary_pause_ms : ℕ
min_boundary_pause_ms = 700

abbrev pub stopped_talking_ms : ℕ
stopped_talking_ms = 5000

abbrev pub max_block_ms : ℕ
max_block_ms = 90000

abbrev pub min_block_voice_ms : ℕ
min_block_voice_ms = 300

abbrev pub trim_silence_over_ms : ℕ
trim_silence_over_ms = 3000

abbrev pub max_gap_ms : ℕ
max_gap_ms = 10000

abbrev min : ℕ → ℕ → ℕ
min a b = if leb a b then a else b

-- `int(silence_ms * 0.30)` is the floor of three tenths: the double nearest to 0.30 is off by less than
-- the rounding of the product makes up for.
unfoldable pub shortened_silence_ms : ℕ → ℕ
shortened_silence_ms silence_ms =
    if leb silence_ms trim_silence_over_ms then silence_ms else min max_gap_ms (silence_ms * 3 / 10)

abbrev pub end_ms : Member → ℕ
end_ms m = m.timestamp_ms + m.duration_ms

unfoldable pub gaps_ms : List Member → List ℕ
unfolding shortened_silence_ms
gaps_ms [] = []
gaps_ms (m ∷ []) = []
gaps_ms (previous ∷ current ∷ ms) =
    shortened_silence_ms (current.timestamp_ms - end_ms previous) ∷ gaps_ms (current ∷ ms)

-- `members[-1]` of a group that has a first member.
abbrev pub last_of : Member → List Member → Member
last_of m [] = m
last_of m (n ∷ ms) = last_of n ms

unfoldable pub span_ms : List Member → ℕ
span_ms [] = 0
span_ms (m ∷ ms) = end_ms (last_of m ms) - m.timestamp_ms

unfoldable pub total_voice_ms : List Member → ℕ
total_voice_ms [] = 0
total_voice_ms (m ∷ ms) = m.voice_ms + total_voice_ms ms

unfoldable pub close_reason : List Member → ℕ → Bool → Option CloseReason
unfolding span_ms total_voice_ms
close_reason [] silence_after_ms is_ended = none
close_reason (m ∷ ms) silence_after_ms is_ended =
    let voice_ms = total_voice_ms (m ∷ ms) in
    if is_ended
    then some session_ended
    else if leb max_block_ms (span_ms (m ∷ ms))
    then some ceiling
    else if ltb voice_ms min_block_voice_ms
    then none
    else if (last_of m ms).is_size_capped
    then none
    else if leb stopped_talking_ms silence_after_ms
    then some stopped_talking
    else if leb target_voice_ms voice_ms && leb min_boundary_pause_ms silence_after_ms
    then some enough_context
    else none

-- Measured against the audio that was processed so far.
unfoldable pub silence_since_last_member_ms : List Member → ℕ → ℕ → ℕ
silence_since_last_member_ms [] epoch_ms end_offset_ms = 0
silence_since_last_member_ms (m ∷ ms) epoch_ms end_offset_ms =
    epoch_ms + end_offset_ms - end_ms (last_of m ms)

abbrev pub utterance_ids : List Member → List ℕ
utterance_ids [] = []
utterance_ids (m ∷ ms) = m.utterance_id ∷ utterance_ids ms

-- A task `process_local_utterance_group`, with the gaps in milliseconds.
pub record Request : Type 0 where
  pub utterance_ids : List ℕ
  pub gaps_ms : List ℕ

-- The group that is held for a source, and the requests that were sent for it.
pub record Source : Type 0 where
  pub group : List Member
  pub requests : List Request

-- What a drain of the source finds: whether there are segments in the queue, and audio in the tail; and
-- what feeding them gives: the utterances that it emits, the epoch and the end of the audio.
pub record Drain : Type 0 where
  pub has_segments : Bool
  pub has_tail_audio : Bool
  pub group_members : List Member
  pub epoch_ms : ℕ
  pub end_offset_ms : ℕ

abbrev pub request_of : List Member → Request
request_of members = record { utterance_ids = utterance_ids members; gaps_ms = gaps_ms members }

-- The group is held, or sent and emptied if there is a reason.
abbrev pub hold_or_send : List Member → Source → Option CloseReason → Source
hold_or_send members s none = record s { group = members }
hold_or_send members s (some reason) = record {
  group = [];
  requests = s.requests ++ request_of members ∷ [];
}

unfoldable pub settle_group : Drain → Bool → Source → Source
unfolding close_reason silence_since_last_member_ms gaps_ms
settle_group d is_ended s =
    let members = s.group ++ d.group_members in
    let quiet_ms = silence_since_last_member_ms members d.epoch_ms d.end_offset_ms in
    hold_or_send members s (close_reason members quiet_ms is_ended)

-- Whether a drain has anything to feed; the last one also feeds the tail alone.
abbrev pub has_audio : Bool → Drain → Bool
has_audio is_final d = d.has_segments || is_final && d.has_tail_audio

-- `_drain` of a session that is not deleted, as far as the group goes: it returns early if there is nothing
-- to feed, also when it is the last one.
unfoldable pub drain : Bool → Drain → Source → Source
unfolding settle_group
drain is_final d s = if not (has_audio is_final d) then s else settle_group d is_final s

-- The drains of a source over a session, and the last one, of finalize_local_session.
unfoldable pub drain_session : List Drain → Drain → Source → Source
unfolding drain
drain_session [] final s = drain true final s
drain_session (d ∷ ds) final s = drain_session ds final (drain false d s)
