-- ===== src/AudioInput/Conservation.antt =====
-- bots/bot_controller/per_participant_non_streaming_audio_input_manager.py: what becomes of the audio of
-- one speaker over a run of chunks.
use mathlib.Core.Path.{subst}
use mathlib.Core.List.{append_assoc, append-nil}
use attendee.Base.{
  ℕ, ◌⊎◌, inl, inr, true, false, ◌≡◌, ◌≢◌, refl, sym, ap, ◌∙◌, Option, none, some, List, [], ◌∷◌,
  ◌++◌, ◌==◌, ==_iff, if◌then◌else◌, arith, take-drop, drop, keys, lookup, lookup-insert,
  lookup-remove,
}
use attendee.AudioInput.{
  Bytes, Detector, Config, Open, Flush, FlushReason, Manager, Queued, audio_is_silent,
  flush_if_needed, flush_reason_of, keep_of, process_buffer, process_chunk, process_silence,
  process_queue, process_chunks, carried, extended, fresh, store, to_list,
}

-- The audio that is waiting in a buffer.
abbrev pub waiting : Option Open → Bytes
waiting none = []
waiting (some o) = o.audio

-- The audio of a speaker in the flushes, in order.
abbrev pub spoken : ℕ → List Flush → Bytes
spoken speaker [] = []
spoken speaker (f ∷ fs) =
    let rest = spoken speaker fs in if f.speaker == speaker then f.audio ++ rest else rest

-- All the audio that the manager has kept of a speaker: flushed first, then waiting.
unfoldable pub audio_of : ℕ → Manager → Bytes
audio_of speaker m = spoken speaker m.flushed ++ waiting (lookup speaker m.buffers)

-- The audio of a speaker in a queue, of which silent chunks may be missing but nothing else.
pub data IsKept (d : Detector) (c : Config) (speaker : ℕ) : List Queued → Bytes → Type 0 where
  at_end : IsKept d c speaker [] []
  of_another :
      {j : ℕ} {time : ℕ} {chunk : Bytes} {queue : List Queued} {audio : Bytes}
      → j ≢ speaker
      → IsKept d c speaker queue audio
      → IsKept d c speaker ((j, time, chunk) ∷ queue) audio
  added :
      {time : ℕ} {chunk : Bytes} {queue : List Queued} {audio : Bytes}
      → IsKept d c speaker queue audio
      → IsKept d c speaker ((speaker, time, chunk) ∷ queue) (chunk ++ audio)
  left_out :
      {time : ℕ} {chunk : Bytes} {queue : List Queued} {audio : Bytes}
      → audio_is_silent d c chunk ≡ true
      → IsKept d c speaker queue audio
      → IsKept d c speaker ((speaker, time, chunk) ∷ queue) audio

flushed_audio : Option Flush → Bytes
flushed_audio none = []
flushed_audio (some f) = f.audio

carried_waits :
    (d : Detector) (keep : ℕ) (o : Open) → waiting (carried d keep o) ≡ drop keep o.audio
carried_waits d keep o = ground arith

flush_keeps :
    (d : Detector) (c : Config) (speaker : ℕ) (reason : Option FlushReason) (o : Open)
    → c.get_participant_callback speaker ≡ true
    → let r = flush_if_needed d c speaker reason o in flushed_audio r.1 ++ waiting r.0 ≡ o.audio
unfolding flush_if_needed flushed_audio
flush_keeps d c speaker none o known = refl
flush_keeps d c speaker (some reason) o known = ground (
  arith,
  take-drop (keep_of c reason o.audio) o.audio,
  carried_waits d (keep_of c reason o.audio) o,
)

-- Whether the chunk is one that may be left out.
process_buffer_keeps :
    (d : Detector) (c : Config) (speaker time : ℕ) (chunk : Bytes) (buffer : Option Open)
    → c.get_participant_callback speaker ≡ true
    → let r = process_buffer d c speaker time chunk buffer in
      let kept = flushed_audio r.1 ++ waiting r.0 in
      (kept ≡ waiting buffer ++ chunk)
      ⊎ ((audio_is_silent d c chunk ≡ true) × (kept ≡ waiting buffer))
unfolding process_buffer flushed_audio
process_buffer_keeps d c speaker time chunk none known =
    let fresh_open = extended false time chunk (fresh time) in
    ground
      (arith, flush_keeps d c speaker (flush_reason_of c false time fresh_open) fresh_open known)
process_buffer_keeps d c speaker time chunk (some o) known = inl (flush_keeps d c speaker _ _ known)

spoken-append :
    (speaker : ℕ) (fs gs : List Flush)
    → spoken speaker (fs ++ gs) ≡ spoken speaker fs ++ spoken speaker gs
spoken-append speaker [] gs = refl
spoken-append speaker (f ∷ fs) gs = ground (
  arith,
  spoken-append speaker fs gs,
  append_assoc f.audio (spoken speaker fs) (spoken speaker gs),
)

pub lookup-store :
    (j k : ℕ) (buffer : Option Open) (buffers : List (ℕ × Open))
    → lookup k (store j buffer buffers) ≡ (if j == k then buffer else lookup k buffers)
lookup-store j k none buffers = lookup-remove k j buffers
lookup-store j k (some o) buffers = lookup-insert k j o buffers

-- A flush of a buffer is its speaker's.
spoken_by :
    (d : Detector) (c : Config) (j k time : ℕ) (chunk : Bytes) (buffer : Option Open)
    → let flush = (process_buffer d c j time chunk buffer).1 in
      spoken k (to_list flush) ≡ (if j == k then flushed_audio flush else [])
unfolding process_buffer flushed_audio flush_if_needed
spoken_by d c j k time chunk none = grind (arith, append-nil)
spoken_by d c j k time chunk (some o) = grind (arith, append-nil)

process_chunk_audio :
    (d : Detector) (c : Config) (j k time : ℕ) (chunk : Bytes) (m : Manager)
    → let r = process_buffer d c j time chunk (lookup j m.buffers) in
      audio_of k (process_chunk d c j time chunk m)
      ≡ (if j == k then spoken k m.flushed ++ (flushed_audio r.1 ++ waiting r.0) else audio_of k m)
unfolding audio_of process_chunk
process_chunk_audio d c j k time chunk m =
    let r = process_buffer d c j time chunk (lookup j m.buffers) in
    ground (
      arith,
      spoken-append k m.flushed (to_list r.1),
      lookup-store j k r.0 m.buffers,
      spoken_by d c j k time chunk (lookup j m.buffers),
      append-nil (spoken k m.flushed),
      append_assoc (spoken k m.flushed) (flushed_audio r.1) (waiting r.0),
    )

same_known :
    (c : Config) (j k : ℕ)
    → c.get_participant_callback k ≡ true
    → (j == k) ≡ true
    → c.get_participant_callback j ≡ true
same_known c j k known same = ap c.get_participant_callback ((==_iff j k).0 same) ∙ known

-- A chunk is another speaker's, or is added, or is silent and left out.
process_chunk_cases :
    (d : Detector) (c : Config) (j k time : ℕ) (chunk : Bytes) (m : Manager)
    → c.get_participant_callback k ≡ true
    → let before = audio_of k m in
      let after = audio_of k (process_chunk d c j time chunk m) in
      ((j ≢ k) × (after ≡ before))
      ⊎ ((j ≡ k)
          × ((after ≡ before ++ chunk) ⊎ ((audio_is_silent d c chunk ≡ true) × (after ≡ before))))
unfolding audio_of
process_chunk_cases d c j k time chunk m known = ground (
  arith,
  process_chunk_audio d c j k time chunk m,
  ==_iff j k,
  same_known c j k known,
  process_buffer_keeps d c j time chunk (lookup j m.buffers),
  append_assoc (spoken k m.flushed) (waiting (lookup k m.buffers)) chunk,
)

-- What the manager keeps of a speaker after a queue: what it had, and what is kept of the queue.
abbrev pub Keeps : Detector → Config → ℕ → List Queued → Manager → Manager → Type 0
Keeps d c k queue m m' =
    (audio : Bytes) × IsKept d c k queue audio × (audio_of k m' ≡ audio_of k m ++ audio)

Keeps-cons :
    (d : Detector) (c : Config) (k j time : ℕ) (chunk : Bytes) (queue : List Queued)
    (m m' : Manager)
    → c.get_participant_callback k ≡ true
    → Keeps d c k queue (process_chunk d c j time chunk m) m'
    → Keeps d c k ((j, time, chunk) ∷ queue) m m'
Keeps-cons d c k j time chunk queue m m' known (audio, kept, same) =
    elim (process_chunk_cases d c j k time chunk m known) [
      | inl (other, before) ↦
          (audio, IsKept.of_another other kept, same ∙ ap (λ a. a ++ audio) before)
      | inr (own, inl grown) ↦ (
        chunk ++ audio,
        subst (λ i. IsKept d c k ((i, time, chunk) ∷ queue) (chunk ++ audio)) (sym own)
            (IsKept.added kept),
        same ∙ ap (λ a. a ++ audio) grown ∙ append_assoc (audio_of k m) chunk audio,
      )
      | inr (own, inr (silent, before)) ↦ (
        audio,
        subst (λ i. IsKept d c k ((i, time, chunk) ∷ queue) audio) (sym own)
            (IsKept.left_out silent kept),
        same ∙ ap (λ a. a ++ audio) before,
      )
    ]

pub process_queue-Keeps :
    (d : Detector) (c : Config) (k : ℕ) (queue : List Queued) (m : Manager)
    → c.get_participant_callback k ≡ true
    → Keeps d c k queue m (process_queue d c queue m)
unfolding process_queue
process_queue-Keeps d c k [] m known = ([], IsKept.at_end, sym (append-nil (audio_of k m)))
process_queue-Keeps d c k ((j, time, chunk) ∷ queue) m known =
    Keeps-cons d c k j time chunk queue m
      (process_queue d c queue (process_chunk d c j time chunk m)) known
      (process_queue-Keeps d c k queue (process_chunk d c j time chunk m) known)

-- A chunk of nothing changes no speaker's audio.
pub process_silence-audio_of :
    (d : Detector) (c : Config) (k now : ℕ) (speakers : List ℕ) (m : Manager)
    → c.get_participant_callback k ≡ true
    → audio_of k (process_silence d c now speakers m) ≡ audio_of k m
unfolding process_silence
process_silence-audio_of d c k now [] m known = refl
process_silence-audio_of d c k now (j ∷ speakers) m known =
    process_silence-audio_of d c k now speakers (process_chunk d c j now [] m) known ∙ unchanged
  where
    unchanged : audio_of k (process_chunk d c j now [] m) ≡ audio_of k m
    unchanged =
        ground (arith, process_chunk_cases d c j k now [] m known, append-nil (audio_of k m))

-- A call of process_chunks keeps of each speaker who is a participant the audio of all chunks in the queue but silent ones,
-- once each and in order, added to what was kept before, flushed or waiting in the buffer.
pub process_chunks-Keeps :
    (d : Detector) (c : Config) (k now : ℕ) (queue : List Queued) (m : Manager)
    → c.get_participant_callback k ≡ true
    → Keeps d c k queue m (process_chunks d c now queue m)
unfolding process_chunks
process_chunks-Keeps d c k now queue m known =
    let m' = process_queue d c queue m in
    let (audio, kept, same) = process_queue-Keeps d c k queue m known in
    (audio, kept, process_silence-audio_of d c k now (keys m'.buffers) m' known ∙ same)
