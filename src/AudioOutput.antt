-- ===== src/AudioOutput.antt =====
-- bots/bot_controller/realtime_audio_output_manager.py, add_chunk: audio that arrives in pieces of any size is
-- cut into chunks of a tenth of a second, which are queued for the thread that plays them. Times are
-- milliseconds.
pub mod Chunks
use attendee.Base.{
  ℕ, zero, suc, ◌+◌, ◌/◌, Bool, true, false, Option, none, some, List, [], ◌∷◌, ◌++◌, if◌then◌else◌,
  ltb, leb, length, take, drop,
}

abbrev pub Bytes : Type 0
Bytes = List ℕ

-- The manager without its thread. A chunk is queued with its sample rate.
pub record Manager : Type 0 where
  pub audio_queue : List (Bytes × ℕ)
  pub inner_chunk_buffer : Bytes
  pub last_chunk_time : ℕ

-- `int(2 * 0.1 * sample_rate)`: two bytes per sample, for a tenth of a second.
abbrev pub chunk_size_bytes : ℕ → ℕ
chunk_size_bytes sample_rate = sample_rate / 5

-- The residue of a pause is dropped.
abbrev pub residue : ℕ → Manager → Bytes
residue now m = if ltb (m.last_chunk_time + 150) now then [] else m.inner_chunk_buffer

abbrev pub first_then : Bytes → Option (List Bytes × Bytes) → Option (List Bytes × Bytes)
first_then chunk none = none
first_then chunk (some (chunks, rest)) = some (chunk ∷ chunks, rest)

-- The loop: the chunks that are cut off and what is left, or none without fuel.
unfoldable pub cut : ℕ → ℕ → Bytes → Option (List Bytes × Bytes)
cut zero size buffer = none
cut (suc fuel) size buffer =
    let rest = cut fuel size (drop size buffer) in
    if leb size (length buffer) then first_then (take size buffer) rest else some ([], buffer)

abbrev pub with_rate : ℕ → List Bytes → List (Bytes × ℕ)
with_rate sample_rate [] = []
with_rate sample_rate (chunk ∷ chunks) = (chunk, sample_rate) ∷ with_rate sample_rate chunks

abbrev pub queued : ℕ → ℕ → Manager → Option (List Bytes × Bytes) → Option Manager
queued now sample_rate m none = none
queued now sample_rate m (some (chunks, rest)) = some (record {
  audio_queue = m.audio_queue ++ with_rate sample_rate chunks;
  inner_chunk_buffer = rest;
  last_chunk_time = now;
})

-- Each round of the loop takes a byte or more, unless a chunk has no bytes.
unfoldable pub add_chunk : ℕ → Bytes → ℕ → Manager → Option Manager
unfolding cut
add_chunk now chunk sample_rate m =
    let buffer = residue now m ++ chunk in
    queued now sample_rate m (cut (length buffer + 1) (chunk_size_bytes sample_rate) buffer)
