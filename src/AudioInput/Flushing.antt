-- ===== src/AudioInput/Flushing.antt =====
-- bots/bot_controller/per_participant_non_streaming_audio_input_manager.py: how large a buffer gets, and
-- what is left in the buffers when the meeting ends.
use mathlib.Core.Path.{subst}
use mathlib.Core.List.{append-nil}
use attendee.Base.{
  ℕ, ◌+◌, ◌≤◌, ◌<◌, true, false, ◌≡◌, refl, sym, ◌∙◌, Option, none, some, List, [], ◌∷◌, ◌++◌, ◌==◌,
  if◌then◌else◌, arith, any, length, keys, lookup, lookup_absent, drop-length,
}
use attendee.AudioInput.{
  Bytes, Detector, Config, Open, Manager, Queued, is_empty, flush_if_needed, flush_reason_of,
  process_buffer, process_chunk, process_silence, process_queue, process_chunks, flush_utterances,
}
use attendee.AudioInput.Conservation.{
  IsKept, lookup-store, spoken, audio_of, process_chunks-Keeps, process_silence-audio_of,
}

-- A buffer that is open holds audio, of which the last sound is in the past.
abbrev pub IsHeard : ℕ → Option Open → Type 0
IsHeard now none = Unit
IsHeard now (some o) = (is_empty o.audio ≡ false) × (o.last_nonsilent_audio_time ≤ now)

-- A buffer that is open is shorter than the limit.
abbrev pub IsShort : Config → Option Open → Type 0
IsShort c none = Unit
IsShort c (some o) = length o.audio < c.utterance_size_limit

-- Each speaker's buffer has a property.
abbrev pub Each : (Option Open → Type 0) → Manager → Type 0
Each P m = (k : ℕ) → P (lookup k m.buffers)

-- The time of each chunk of a queue has a property.
abbrev pub EachTime : (ℕ → Type 0) → List Queued → Type 0
EachTime T [] = Unit
EachTime T ((speaker, time, chunk) ∷ queue) = T time × EachTime T queue

any_time : (queue : List Queued) → EachTime (λ time. Unit) queue
any_time [] = tt
any_time (chunk ∷ queue) = (tt, any_time queue)

-- The chunks of a queue lie in the past.
abbrev pub ArePast : ℕ → List Queued → Type 0
ArePast now = EachTime (λ time. time ≤ now)

process_buffer-IsHeard :
    (d : Detector) (c : Config) (speaker time now : ℕ) (chunk : Bytes) (buffer : Option Open)
    → time ≤ now
    → IsHeard now buffer
    → IsHeard now (process_buffer d c speaker time chunk buffer).0
unfolding process_buffer flush_if_needed
process_buffer-IsHeard d c speaker time now chunk none past heard = ground arith
process_buffer-IsHeard d c speaker time now chunk (some o) past heard = ground arith

process_buffer-IsShort :
    (d : Detector) (c : Config) (speaker time : ℕ) (chunk : Bytes) (buffer : Option Open)
    → c.split_at_size_limit ≡ none
    → IsShort c buffer
    → IsShort c (process_buffer d c speaker time chunk buffer).0
unfolding process_buffer flush_if_needed flush_reason_of
process_buffer-IsShort d c speaker time chunk none whole short = ground (arith, drop-length chunk)
process_buffer-IsShort d c speaker time chunk (some o) whole short =
    ground (arith, drop-length (o.audio ++ chunk))

-- A silence that is long enough closes the buffer.
silence_closes :
    (d : Detector) (c : Config) (speaker time now : ℕ) (buffer : Option Open)
    → IsHeard now buffer
    → now + c.silence_duration_limit ≤ time
    → (process_buffer d c speaker time [] buffer).0 ≡ none
unfolding process_buffer flush_if_needed flush_reason_of
silence_closes d c speaker time now none heard late = refl
silence_closes d c speaker time now (some o) heard late =
    ground (arith, append-nil o.audio, drop-length o.audio)

-- A step keeps what holds of each buffer, if it does so for its speaker's.
process_chunk-Each :
    (P : Option Open → Type 0) (d : Detector) (c : Config) (j time : ℕ) (chunk : Bytes)
    (m : Manager)
    → Each P m
    → P (process_buffer d c j time chunk (lookup j m.buffers)).0
    → Each P (process_chunk d c j time chunk m)
unfolding process_chunk
process_chunk-Each P d c j time chunk m each own k =
    let r = process_buffer d c j time chunk (lookup j m.buffers) in
    subst P (sym (lookup-store j k r.0 m.buffers))
      (elim (j == k) as (λ same. P (if same then r.0 else lookup k m.buffers)) [
        | true ↦ own
        | false ↦ each k
      ])

-- What every chunk of nothing keeps, a run of them does.
process_silence-Each :
    (P : Option Open → Type 0) (d : Detector) (c : Config) (now : ℕ)
    → ((j : ℕ) (b : Option Open) → P b → P (process_buffer d c j now [] b).0)
    → (speakers : List ℕ) (m : Manager) → Each P m
    → Each P (process_silence d c now speakers m)
unfolding process_silence
process_silence-Each P d c now step [] m each = each
process_silence-Each P d c now step (j ∷ speakers) m each =
    process_silence-Each P d c now step speakers (process_chunk d c j now [] m)
      (process_chunk-Each P d c j now [] m each (step j (lookup j m.buffers) (each j)))

process_queue-Each :
    (P : Option Open → Type 0) (T : ℕ → Type 0) (d : Detector) (c : Config)
    → ((j time : ℕ) (chunk : Bytes) (b : Option Open)
        → T time
        → P b
        → P (process_buffer d c j time chunk b).0)
    → (queue : List Queued) (m : Manager) → EachTime T queue
    → Each P m
    → Each P (process_queue d c queue m)
unfolding process_queue
process_queue-Each P T d c step [] m past each = each
process_queue-Each P T d c step ((j, time, chunk) ∷ queue) m (before, past) each =
    process_queue-Each P T d c step queue (process_chunk d c j time chunk m) past (
      process_chunk-Each P d c j time chunk m each
        (step j time chunk (lookup j m.buffers) before (each j)))

pub process_chunks-IsHeard :
    (d : Detector) (c : Config) (now : ℕ) (queue : List Queued) (m : Manager)
    → ArePast now queue
    → Each (IsHeard now) m
    → Each (IsHeard now) (process_chunks d c now queue m)
unfolding process_chunks
process_chunks-IsHeard d c now queue m past heard =
    let m' = process_queue d c queue m in
    process_silence-Each (IsHeard now) d c now
      (λ j b. process_buffer-IsHeard d c j now now [] b (omega arith)) (keys m'.buffers) m'
      (process_queue-Each (IsHeard now) (λ time. time ≤ now) d c
        (λ j time chunk b. process_buffer-IsHeard d c j time now chunk b) queue m past heard)

-- Unless a caller gives a function that splits full buffers, no buffer that process_chunks leaves
-- reaches the size limit, if none did before.
pub process_chunks-IsShort :
    (d : Detector) (c : Config) (now : ℕ) (queue : List Queued) (m : Manager)
    → c.split_at_size_limit ≡ none
    → Each (IsShort c) m
    → Each (IsShort c) (process_chunks d c now queue m)
unfolding process_chunks
process_chunks-IsShort d c now queue m whole short =
    let m' = process_queue d c queue m in
    process_silence-Each (IsShort c) d c now (λ j b. process_buffer-IsShort d c j now [] b whole)
      (keys m'.buffers) m'
      (process_queue-Each (IsShort c) (λ time. Unit) d c
        (λ j time chunk b any. process_buffer-IsShort d c j time chunk b whole) queue m
        (any_time queue) short)

silence_step :
    (d : Detector) (c : Config) (now time j k : ℕ) (m : Manager)
    → Each (IsHeard now) m
    → now + c.silence_duration_limit ≤ time
    → lookup k (process_chunk d c j time [] m).buffers
      ≡ (if j == k then none else lookup k m.buffers)
unfolding process_chunk
silence_step d c now time j k m heard late = ground (
  arith,
  silence_closes d c j time now (lookup j m.buffers) (heard j) late,
  lookup-store j k (process_buffer d c j time [] (lookup j m.buffers)).0 m.buffers,
)

silence_run_closes :
    (d : Detector) (c : Config) (now time k : ℕ) (speakers : List ℕ) (m : Manager)
    → Each (IsHeard now) m
    → now + c.silence_duration_limit ≤ time
    → (any (λ j. j == k) speakers ≡ false → lookup k m.buffers ≡ none)
    → lookup k (process_silence d c time speakers m).buffers ≡ none
unfolding process_silence
silence_run_closes d c now time k [] m heard late absent = absent refl
silence_run_closes d c now time k (j ∷ speakers) m heard late absent =
    silence_run_closes d c now time k speakers (process_chunk d c j time [] m)
      (process_chunk-Each (IsHeard now) d c j time [] m heard (
        subst (IsHeard now)
          (sym (silence_closes d c j time now (lookup j m.buffers) (heard j) late)) tt))
      late
      (λ none_left. ground (arith, silence_step d c now time j k m heard late, absent, none_left))

-- A silence at the end of the meeting empties every buffer, if its chunks lie in the past.
flush_utterances_closes :
    (d : Detector) (c : Config) (now k : ℕ) (m : Manager)
    → Each (IsHeard now) m
    → lookup k (flush_utterances d c now m).buffers ≡ none
unfolding flush_utterances
flush_utterances_closes d c now k m heard =
    silence_run_closes d c now (now + c.silence_duration_limit + 1000000) k (keys m.buffers) m heard
      (omega arith) (lookup_absent k m.buffers)

-- A speaker whose buffer is closed has all audio in the flushes.
audio_of_closed :
    (k : ℕ) (m : Manager) → lookup k m.buffers ≡ none → spoken k m.flushed ≡ audio_of k m
unfolding audio_of
audio_of_closed k m closed = ground (arith, append-nil (spoken k m.flushed), closed)

-- If the chunks of a queue lie in the past, and the buffers hold audio whose last sound does, then
-- process_chunks followed by flush_utterances hands on what was kept of each speaker who is found as a
-- participant and all chunks of the queue but silent ones, once each and in order, and leaves no buffer
-- of the speaker open.
pub meeting_end_flushes_all :
    (d : Detector) (c : Config) (now k : ℕ) (queue : List Queued) (m : Manager)
    → c.get_participant_callback k ≡ true
    → ArePast now queue
    → Each (IsHeard now) m
    → let m' = flush_utterances d c now (process_chunks d c now queue m) in
      (lookup k m'.buffers ≡ none)
      × ((audio : Bytes) × IsKept d c k queue audio × (spoken k m'.flushed ≡ audio_of k m ++ audio))
unfolding flush_utterances
meeting_end_flushes_all d c now k queue m known past heard =
    let m' = process_chunks d c now queue m in
    let (audio, kept, same) = process_chunks-Keeps d c k now queue m known in
    let heard' = process_chunks-IsHeard d c now queue m past heard in
    let closed = flush_utterances_closes d c now k m' heard' in
    let unchanged = process_silence-audio_of d c k _ (keys m'.buffers) m' known in
    (
      closed,
      (audio, kept, audio_of_closed k (flush_utterances d c now m') closed ∙ unchanged ∙ same),
    )
