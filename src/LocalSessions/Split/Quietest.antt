-- ===== src/LocalSessions/Split/Quietest.antt =====
-- bots/audio_split.py: where the split falls.
use mathlib.Core.Path.{subst}
use attendee.Base.{
  ℕ, zero, suc, ◌+◌, ◌-◌, ◌*◌, ◌/◌, ◌%◌, ◌≤◌, ◌<◌, ◌≡◌, ◌⊎◌, inl, inr, refl, ap, Bool, true, false,
  ◌||◌, none, some, List, [], ◌∷◌, if◌then◌else◌, ltb, arith, ◌==◌,
}
use attendee.Base.Outcome.{ok, raise, Ensures}
use attendee.Errors.{Error, Result, value_error}
use attendee.LocalSessions.Split.{
  Loudness, Best, range_from, better, quietest_of, quietest_window, quietest_split_point, starts_of,
  step_of,
}

-- A loudness is at most that of each window.
abbrev pub IsLeast : Loudness → ℕ → ℕ → List ℕ → Type 0
IsLeast l window r [] = Unit
IsLeast l window r (t ∷ ts) = (r ≤ l.rms t window) × IsLeast l window r ts

IsLeast-lower :
    (l : Loudness) (window r q : ℕ) (ts : List ℕ)
    → q ≤ r
    → IsLeast l window r ts
    → IsLeast l window q ts
IsLeast-lower l window r q [] less least = tt
IsLeast-lower l window r q (t ∷ ts) less (low, least) =
    (omega arith, IsLeast-lower l window r q ts less least)

-- The best window lies in the range, and is one of those that were looked at.
abbrev pub IsBest : Loudness → ℕ → ℕ → ℕ → Best → Type 0
IsBest l window low high none = Unit
IsBest l window low high (some b) =
    (start : ℕ) × (low ≤ start)
    × (start < high)
    × (b.0 ≡ l.rms start window)
    × (b.1 ≡ start + window / 2)

abbrev AreWithin : ℕ → ℕ → List ℕ → Type 0
AreWithin low high [] = Unit
AreWithin low high (t ∷ ts) = ((low ≤ t) × (t < high)) × AreWithin low high ts

range-AreWithin :
    (low fuel start stop step : ℕ)
    → low ≤ start
    → AreWithin low stop (range_from fuel start stop step)
unfolding range_from
range-AreWithin low zero start stop step above = tt
range-AreWithin low (suc fuel) start stop step above =
    ground (arith, range-AreWithin low fuel (start + step) stop step (omega (arith, above)))

quietest_of-IsBest :
    (l : Loudness) (window low high : ℕ) (ts : List ℕ) (best : Best)
    → AreWithin low high ts
    → IsBest l window low high best
    → IsBest l window low high (quietest_of l window ts best)
unfolding quietest_of
quietest_of-IsBest l window low high [] best within good = good
quietest_of-IsBest l window low high (t ∷ ts) best ((above, below), within) good =
    quietest_of-IsBest l window low high ts _ within
      (elim (better (l.rms t window) best)
        as (λ b.
          IsBest l window low high (if b then some (l.rms t window, t + window / 2) else best)) [
            | true ↦ (t, above, below, refl, refl)
            | false ↦ good
          ])

-- What the search gives is at most as loud as each window that was looked at, and as what it began with.
abbrev pub IsLeastBest : Loudness → ℕ → List ℕ → Best → Best → Type 0
IsLeastBest l window ts before none = (before ≡ none) × (ts ≡ [])
IsLeastBest l window ts before (some b) =
    IsLeast l window b.0 ts × (elim before as (λ x. Type 0) [ none ↦ Unit | some a ↦ b.0 ≤ a.0 ])

one_more :
    (l : Loudness) (window t : ℕ) (ts : List ℕ) (before result : Best)
    → IsLeastBest l window ts
        (if better (l.rms t window) before then some (l.rms t window, t + window / 2) else before)
        result
    → IsLeastBest l window (t ∷ ts) before result
one_more l window t ts none none least = ground (arith, least)
one_more l window t ts none (some b) least = ground (arith, least)
one_more l window t ts (some a) none least = ground (arith, least)
one_more l window t ts (some a) (some b) least = ground (arith, least)

quietest_of-IsLeastBest :
    (l : Loudness) (window : ℕ) (ts : List ℕ) (best : Best)
    → IsLeastBest l window ts best (quietest_of l window ts best)
unfolding quietest_of
quietest_of-IsLeastBest l window [] none = (refl, refl)
quietest_of-IsLeastBest l window [] (some b) = (tt, omega arith)
quietest_of-IsLeastBest l window (t ∷ ts) best =
    let next =
      if better (l.rms t window) best then some (l.rms t window, t + window / 2) else best in
    one_more l window t ts best (quietest_of l window ts next)
      (quietest_of-IsLeastBest l window ts next)

-- A split before the end: in the middle of a window within the search, that is no louder than any other
-- window that was looked at, nor than the threshold.
abbrev pub IsQuietSplit : Loudness → ℕ → ℕ → ℕ → ℕ → ℕ → Type 0
IsQuietSplit l bytes size window search offset =
    (start : ℕ) × (size - search ≤ start)
    × (start + window ≤ size)
    × (offset ≡ (start + window / 2) * 2)
    × (offset < bytes)
    × (l.rms start window ≤ l.silence_rms_threshold)
    × IsLeast l window (l.rms start window) (starts_of size window (size - search))

split_of_best :
    (l : Loudness) (bytes window search : ℕ) (best : Best)
    → let size = bytes / 2 in
      1 ≤ window
      → window * 2 ≤ size
      → IsBest l window (size - search) (size + 1 - window) best
      → IsLeastBest l window (starts_of size window (size - search)) none best
      → Ensures
          (λ offset. (offset ≡ bytes) ⊎ IsQuietSplit l bytes size window search offset)
          (elim best as (λ x. Result ℕ) [
            | none ↦ ok bytes
            | some b ↦ if ltb l.silence_rms_threshold b.0 then ok bytes else ok (b.1 * 2)
          ])
split_of_best l bytes window search none wide long good least = inl refl
split_of_best l bytes window search (some b) wide long (start, above, below, r, c) (least, rest) =
    decide (ltb l.silence_rms_threshold b.0) refl
  where
    split :
        ltb l.silence_rms_threshold b.0 ≡ false
        → IsQuietSplit l bytes (bytes / 2) window search (b.1 * 2)
    split soft = (
      start,
      above,
      omega (arith, below, long),
      ap (λ n. n * 2) c,
      omega (arith, below, long, wide, c),
      ground (arith, soft, r),
      subst (λ q. IsLeast l window q (starts_of (bytes / 2) window (bytes / 2 - search))) r least,
    )

    decide :
        (loud : Bool)
        → ltb l.silence_rms_threshold b.0 ≡ loud
        → Ensures
            (λ offset. (offset ≡ bytes) ⊎ IsQuietSplit l bytes (bytes / 2) window search offset)
            (if◌then◌else◌ {A = Result ℕ} loud (ok bytes) (ok (b.1 * 2)))
    decide true e = inl refl
    decide false e = inr (split e)

Ensures-if_raise :
    (b : Bool) (e : Error) (P : ℕ → Type 0) (m : Result ℕ)
    → Ensures P m
    → Ensures P (if b then raise e else m)
Ensures-if_raise true e P m holds = tt
Ensures-if_raise false e P m holds = holds

Ensures-if_ok :
    (b : Bool) (n : ℕ) (P : ℕ → Type 0) (m : Result ℕ)
    → P n
    → (b ≡ false → Ensures P m)
    → Ensures P (if b then ok n else m)
Ensures-if_ok true n P m now later = now
Ensures-if_ok false n P m now later = later refl

-- The offset that is given, if the samples are whole, is the end of the audio or a quiet split.
pub quietest_split_point-IsQuietSplit :
    (l : Loudness) (bytes sample_rate search_ms window_ms : ℕ)
    → Ensures
        (λ offset.
          (offset ≡ bytes)
          ⊎ IsQuietSplit l bytes
              (bytes / 2)
              (sample_rate * window_ms / 1000)
              (sample_rate * search_ms / 1000)
              offset)
        (quietest_split_point l bytes sample_rate search_ms window_ms)
unfolding quietest_split_point quietest_window
quietest_split_point-IsQuietSplit l bytes sample_rate search_ms window_ms =
    Ensures-if_raise (bytes % 2 == 1) value_error Fits _ (
      Ensures-if_ok (window == 0 || ltb size (window * 2) || ltb search window) bytes Fits _
        (inl refl)
        λ wide.
          split_of_best l bytes window search best (ground (arith, wide)) (ground (arith, wide))
            (quietest_of-IsBest l window (size - search) (size + 1 - window)
              (starts_of size window (size - search)) none
              (range-AreWithin (size - search) (size + 1) (size - search) (size + 1 - window)
                (step_of window) (omega arith))
              tt)
            (quietest_of-IsLeastBest l window (starts_of size window (size - search)) none))
  where
    size : ℕ
    size = bytes / 2

    window : ℕ
    window = sample_rate * window_ms / 1000

    search : ℕ
    search = sample_rate * search_ms / 1000

    best : Best
    best = quietest_of l window (starts_of size window (size - search)) none

    Fits : ℕ → Type 0
    Fits offset = (offset ≡ bytes) ⊎ IsQuietSplit l bytes size window search offset
