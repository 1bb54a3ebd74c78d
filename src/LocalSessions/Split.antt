-- ===== src/LocalSessions/Split.antt =====
-- bots/audio_split.py: where a buffer that is full is split. The root mean square of a window is a parameter:
-- the bits of a double that is not negative, which are ordered as the doubles are.
pub mod Quietest
use attendee.Base.{
  ℕ, zero, suc, ◌+◌, ◌-◌, ◌*◌, ◌/◌, ◌%◌, Bool, true, false, ◌||◌, Option, none, some, List, [], ◌∷◌,
  if◌then◌else◌, ltb, leb, ◌==◌,
}
use attendee.Base.Outcome.{ok, raise}
use attendee.Errors.{Result, value_error}

abbrev pub bytes_per_sample : ℕ
bytes_per_sample = 2

abbrev pub steps_per_window : ℕ
steps_per_window = 10

-- The loudness of the window that starts at a sample, and the threshold of silence.
pub record Loudness : Type 0 where
  pub rms : ℕ → ℕ → ℕ
  pub silence_rms_threshold : ℕ

-- `range(start, stop, step)` of a positive step; there are fewer numbers than `stop`.
unfoldable pub range_from : ℕ → ℕ → ℕ → ℕ → List ℕ
range_from zero start stop step = []
range_from (suc fuel) start stop step =
    let rest = range_from fuel (start + step) stop step in
    if ltb start stop then start ∷ rest else []

-- The loudness and the centre of the best window so far.
abbrev pub Best : Type 0
Best = Option (ℕ × ℕ)

abbrev pub better : ℕ → Best → Bool
better loudness none = true
better loudness (some b) = ltb loudness b.0

unfoldable pub quietest_of : Loudness → ℕ → List ℕ → Best → Best
quietest_of l window [] best = best
quietest_of l window (start ∷ starts) best =
    let loudness = l.rms start window in
    quietest_of l window starts
      (if better loudness best then some (loudness, start + window / 2) else best)

abbrev pub step_of : ℕ → ℕ
step_of window = if window / steps_per_window == 0 then 1 else window / steps_per_window

-- `range(search_from, samples.size - window + 1, step)`
abbrev pub starts_of : ℕ → ℕ → ℕ → List ℕ
starts_of size window search_from =
    range_from (size + 1) search_from (size + 1 - window) (step_of window)

unfoldable pub quietest_window : Loudness → ℕ → ℕ → ℕ → Best
unfolding range_from quietest_of
quietest_window l size window search_from =
    quietest_of l window (starts_of size window search_from) none

-- The offset in the audio, which has a number of bytes. An odd number is no list of samples.
unfoldable pub quietest_split_point : Loudness → ℕ → ℕ → ℕ → ℕ → Result ℕ
unfolding quietest_window
quietest_split_point l bytes sample_rate search_ms window_ms =
    let size = bytes / bytes_per_sample in
    let window = sample_rate * window_ms / 1000 in
    let search = sample_rate * search_ms / 1000 in
    if bytes % bytes_per_sample == 1
    then raise value_error
    else if window == 0 || ltb size (window * 2) || ltb search window
    then ok bytes
    else elim (quietest_window l size window (size - search)) [
      | none ↦ ok bytes
      | some b ↦ if ltb l.silence_rms_threshold b.0 then ok bytes else ok (b.1 * bytes_per_sample)
    ]
