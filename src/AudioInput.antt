-- ===== src/AudioInput.antt =====
-- bots/bot_controller/per_participant_non_streaming_audio_input_manager.py: the audio of each speaker is
-- gathered into utterances, which end at a silence or at a limit of their size. Audio is a list of
-- bytes, and times are microseconds.
pub mod Conservation
pub mod Flushing
use attendee.Base.{
  ℕ, ◌+◌, ◌*◌, ◌/◌, Bool, true, false, ◌&&◌, not, Option, none, some, List, [], ◌∷◌, ◌++◌,
  if◌then◌else◌, ltb, leb, length, take, drop, keys, lookup, insert, remove,
}

abbrev pub Bytes : Type 0
Bytes = List ℕ

abbrev pub is_empty : Bytes → Bool
is_empty [] = true
is_empty (b ∷ bs) = false

-- The normalized root mean square, as far as the tests of it tell: zero, below 0.01, or neither.
pub data Loudness : Type 0 where
  zero_rms small_rms loud : Loudness

-- What the libraries for numbers and for voice detection give: the loudness of a chunk, whether it
-- holds speech, or none where the detector raises, and the time that so many bytes take, which is
-- computed in floating point.
pub record Detector : Type 0 where
  pub loudness : Bytes → Loudness
  pub vad : Bytes → Option Bool
  pub playing_time : ℕ → ℕ

-- The callback that looks for a participant is taken to answer the same for a speaker at all times; only
-- whether it finds one matters here.
pub record Config : Type 0 where
  pub sample_rate : ℕ
  pub utterance_size_limit : ℕ
  pub silence_duration_limit : ℕ
  pub split_at_size_limit : Option (Bytes → ℕ)
  pub get_participant_callback : ℕ → Bool

pub data FlushReason : Type 0 where
  buffer_full silence_limit : FlushReason

-- The buffer of a speaker who has spoken. A speaker without one has an empty buffer and no times.
pub record Open : Type 0 where
  pub audio : Bytes
  pub first_nonsilent_audio_time : ℕ
  pub last_nonsilent_audio_time : ℕ

-- What is handed to the callback that saves it.
pub record Flush : Type 0 where
  pub speaker : ℕ
  pub audio : Bytes
  pub started_at : ℕ
  pub flush_reason : FlushReason

-- `is_speech`: the detector takes 30 milliseconds at most.
unfoldable pub is_speech : Detector → Config → Bytes → Bool
is_speech d c chunk =
    if ltb (30 * c.sample_rate / 1000) (length chunk)
    then true
    else elim (d.vad chunk) [ none ↦ true | some answer ↦ answer ]

unfoldable pub silence_detected : Detector → Config → Bytes → Bool
unfolding is_speech
silence_detected d c chunk = elim (d.loudness chunk) [
  | zero_rms ↦ true
  | small_rms ↦ true
  | loud ↦ not (is_speech d c chunk)
]

-- `silence_detected(chunk_bytes) if chunk_bytes else True`
abbrev pub audio_is_silent : Detector → Config → Bytes → Bool
audio_is_silent d c chunk = if is_empty chunk then true else silence_detected d c chunk

-- A silence since the last sound is found before a full buffer.
unfoldable pub flush_reason_of : Config → Bool → ℕ → Open → Option FlushReason
flush_reason_of c silent time o =
    if silent && leb (o.last_nonsilent_audio_time + c.silence_duration_limit) time
    then some silence_limit
    else if leb c.utterance_size_limit (length o.audio)
    then some buffer_full
    else none

-- How many bytes are emitted.
abbrev pub keep_of : Config → FlushReason → Bytes → ℕ
keep_of c silence_limit audio = length audio
keep_of c buffer_full audio = elim c.split_at_size_limit [
  | none ↦ length audio
  | some split ↦ split audio
]

-- The buffer that is left: what came after the split, or none.
abbrev pub carried : Detector → ℕ → Open → Option Open
carried d keep o = elim (is_empty (drop keep o.audio)) [
  | true ↦ none
  | false ↦ some (record o {
    audio = drop keep o.audio;
    first_nonsilent_audio_time = o.first_nonsilent_audio_time + d.playing_time keep;
  })
]

abbrev pub emitted : ℕ → ℕ → FlushReason → Open → Flush
emitted speaker keep reason o = record {
  speaker = speaker;
  audio = take keep o.audio;
  started_at = o.first_nonsilent_audio_time;
  flush_reason = reason;
}

-- The flush, if there is a reason for it and audio to emit. What is emitted of a speaker who is no
-- participant is dropped with a warning.
unfoldable pub flush_if_needed :
    Detector → Config → ℕ → Option FlushReason → Open → Option Open × Option Flush
flush_if_needed d c speaker none o = (some o, none)
flush_if_needed d c speaker (some reason) o =
    if is_empty o.audio
    then (some o, none)
    else (let keep = keep_of c reason o.audio in
        (
          carried d keep o,
          if c.get_participant_callback speaker then some (emitted speaker keep reason o) else none,
        ))

-- The buffer with the chunk added, and the time of the last sound.
abbrev pub extended : Bool → ℕ → Bytes → Open → Open
extended silent time chunk o = record o {
  audio = o.audio ++ chunk;
  last_nonsilent_audio_time = if silent then o.last_nonsilent_audio_time else time;
}

-- A buffer that begins with a sound.
abbrev pub fresh : ℕ → Open
fresh time = record {
  audio = [];
  first_nonsilent_audio_time = time;
  last_nonsilent_audio_time = time;
}

-- `process_chunk`, as far as the buffer of its speaker goes. A chunk of None is empty.
unfoldable pub process_buffer :
    Detector → Config → ℕ → ℕ → Bytes → Option Open → Option Open × Option Flush
unfolding silence_detected flush_reason_of flush_if_needed
process_buffer d c speaker time chunk buffer =
    let silent = audio_is_silent d c chunk in
    let go = λ (o : Open).
      let o' = extended silent time chunk o in
      flush_if_needed d c speaker (flush_reason_of c silent time o') o' in
    elim buffer [ none ↦ if silent then (none, none) else go (fresh time) | some o ↦ go o ]

-- The buffers of the speakers, and what was flushed, in order.
pub record Manager : Type 0 where
  pub buffers : List (ℕ × Open)
  pub flushed : List Flush

abbrev pub store : ℕ → Option Open → List (ℕ × Open) → List (ℕ × Open)
store speaker none buffers = remove speaker buffers
store speaker (some o) buffers = insert speaker o buffers

abbrev pub to_list : Option Flush → List Flush
to_list none = []
to_list (some f) = f ∷ []

unfoldable pub process_chunk : Detector → Config → ℕ → ℕ → Bytes → Manager → Manager
unfolding process_buffer
process_chunk d c speaker time chunk m =
    let (buffer, flush) = process_buffer d c speaker time chunk (lookup speaker m.buffers) in
    record { buffers = store speaker buffer m.buffers; flushed = m.flushed ++ to_list flush }

-- A call of `process_chunk` without a chunk for each of some speakers.
unfoldable pub process_silence : Detector → Config → ℕ → List ℕ → Manager → Manager
unfolding process_chunk
process_silence d c time [] m = m
process_silence d c time (speaker ∷ speakers) m =
    process_silence d c time speakers (process_chunk d c speaker time [] m)

-- A chunk of the queue: its speaker, its time and its bytes.
abbrev pub Queued : Type 0
Queued = ℕ × ℕ × Bytes

unfoldable pub process_queue : Detector → Config → List Queued → Manager → Manager
unfolding process_chunk
process_queue d c [] m = m
process_queue d c ((speaker, time, chunk) ∷ queue) m =
    process_queue d c queue (process_chunk d c speaker time chunk m)

-- `process_chunks`: the queue, and then a silence for each speaker whose buffer is open.
unfoldable pub process_chunks : Detector → Config → ℕ → List Queued → Manager → Manager
unfolding process_queue process_silence
process_chunks d c now queue m =
    let m' = process_queue d c queue m in process_silence d c now (keys m'.buffers) m'

-- `flush_utterances`: a silence that is longer than the limit.
unfoldable pub flush_utterances : Detector → Config → ℕ → Manager → Manager
unfolding process_silence
flush_utterances d c now m =
    process_silence d c (now + c.silence_duration_limit + 1000000) (keys m.buffers) m

-- `add_chunk`
abbrev pub add_chunk : ℕ → ℕ → Bytes → List Queued → List Queued
add_chunk speaker time chunk queue = queue ++ (speaker, time, chunk) ∷ []
