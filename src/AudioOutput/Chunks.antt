-- ===== src/AudioOutput/Chunks.antt =====
-- bots/bot_controller/realtime_audio_output_manager.py, add_chunk: what is queued and what is kept.
use mathlib.Core.List.{append_assoc}
use attendee.Base.{
  ℕ, zero, suc, ◌+◌, ◌≤◌, ◌<◌, ◌≡◌, refl, ap, ◌∙◌, Bool, true, false, Option, none, some, List, [],
  ◌∷◌, ◌++◌, if◌then◌else◌, leb, length, take, drop, take-drop, length-take, length-drop, arith,
}
use attendee.AudioOutput.{
  Bytes, Manager, chunk_size_bytes, residue, first_then, cut, with_rate, queued, add_chunk,
}

abbrev pub joined : List Bytes → Bytes
joined [] = []
joined (chunk ∷ chunks) = chunk ++ joined chunks

abbrev pub AllOf : ℕ → List Bytes → Type 0
AllOf size [] = Unit
AllOf size (chunk ∷ chunks) = (length chunk ≡ size) × AllOf size chunks

-- The chunks have the size and are with the rest the whole buffer, and the rest is shorter.
abbrev pub IsCut : ℕ → Bytes → Option (List Bytes × Bytes) → Type 0
IsCut size buffer none = ⊥
IsCut size buffer (some (chunks, rest)) =
    AllOf size chunks × (joined chunks ++ rest ≡ buffer) × (length rest < size)

first_then-IsCut :
    (size : ℕ) (buffer : Bytes) (r : Option (List Bytes × Bytes))
    → size ≤ length buffer
    → IsCut size (drop size buffer) r
    → IsCut size buffer (first_then (take size buffer) r)
first_then-IsCut size buffer none long rest = absurd rest
first_then-IsCut size buffer (some (chunks, rest)) long (sized, same, short) = (
  (length-take size buffer long, sized),
  append_assoc (take size buffer) (joined chunks) rest
      ∙ ap (λ bytes. take size buffer ++ bytes) same
      ∙ take-drop size buffer,
  short,
)

cut-IsCut :
    (fuel size : ℕ) (buffer : Bytes)
    → 1 ≤ size
    → length buffer < fuel
    → IsCut size buffer (cut fuel size buffer)
unfolding cut
cut-IsCut zero size buffer some_size enough = absurd (omega arith)
cut-IsCut (suc fuel) size buffer some_size enough = go (leb size (length buffer)) refl λ long.
    cut-IsCut fuel size (drop size buffer) some_size
      (omega (arith, length-drop size buffer, enough, some_size, long))
  where
    go :
        (b : Bool)
        → leb size (length buffer) ≡ b
        → (size ≤ length buffer → IsCut size (drop size buffer) (cut fuel size (drop size buffer)))
        → IsCut size buffer (
            if b
            then first_then (take size buffer) (cut fuel size (drop size buffer))
            else some ([], buffer))
    go true e rest =
        let long : size ≤ length buffer = ground (arith, e) in
        first_then-IsCut size buffer (cut fuel size (drop size buffer)) long (rest long)
    go false e rest = (tt, refl, ground (arith, e))

-- What a call leaves: it has queued chunks of the size behind the others, which with the new residue are
-- the old residue and the piece, and the residue is shorter than a chunk.
abbrev pub IsQueued : ℕ → Bytes → ℕ → Manager → Option Manager → Type 0
IsQueued now chunk sample_rate m none = ⊥
IsQueued now chunk sample_rate m (some m') =
    (chunks : List Bytes) × (m'.audio_queue ≡ m.audio_queue ++ with_rate sample_rate chunks)
    × AllOf (chunk_size_bytes sample_rate) chunks
    × (joined chunks ++ m'.inner_chunk_buffer ≡ residue now m ++ chunk)
    × (length m'.inner_chunk_buffer < chunk_size_bytes sample_rate)

queued-IsQueued :
    (now : ℕ) (chunk : Bytes) (sample_rate : ℕ) (m : Manager) (r : Option (List Bytes × Bytes))
    → IsCut (chunk_size_bytes sample_rate) (residue now m ++ chunk) r
    → IsQueued now chunk sample_rate m (queued now sample_rate m r)
queued-IsQueued now chunk sample_rate m none h = absurd h
queued-IsQueued now chunk sample_rate m (some (chunks, rest)) (sized, same, short) =
    (chunks, refl, sized, same, short)

-- At a sample rate of five or more, add_chunk ends, queues chunks of a tenth of a second in order, and
-- loses no byte but the residue of a pause: the new chunks and the residue that it keeps, which is shorter
-- than a chunk, are the old residue and the piece.
pub add_chunk-IsQueued :
    (now : ℕ) (chunk : Bytes) (sample_rate : ℕ) (m : Manager)
    → 5 ≤ sample_rate
    → IsQueued now chunk sample_rate m (add_chunk now chunk sample_rate m)
unfolding add_chunk
add_chunk-IsQueued now chunk sample_rate m fast =
    let buffer = residue now m ++ chunk in
    queued-IsQueued now chunk sample_rate m
      (cut (length buffer + 1) (chunk_size_bytes sample_rate) buffer)
      (cut-IsCut (length buffer + 1) (chunk_size_bytes sample_rate) buffer (omega (arith, fast))
        (omega arith))
