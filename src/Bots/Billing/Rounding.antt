-- ===== src/Bots/Billing/Rounding.antt =====
-- bots/models.py, Bot.centicredits_consumed: bounds on the roundings in floating point.
use native.Mathlib.Decide.{dec_lt}
use native.Mathlib.Nat.{zero-add, suc-add, pow-succ', pow-le-pow_right, mul_assoc, mul-le-mul_left}
use attendee.Base.{ℕ, zero, suc, ◌+◌, ◌*◌, ◌^◌, ◌≤◌, ◌<◌, ◌≡◌, arith, leb, Bool-cases, inl, inr}
use attendee.Bots.Billing.{round_div, find_shift}

-- The nearest integer is off by half of the divisor at most.
pub round_div-3600 :
    (n : ℕ) → (round_div n 3600 * 7200 ≤ 2 * n + 3600) × (2 * n ≤ round_div n 3600 * 7200 + 3600)
unfolding round_div
round_div-3600 n = ground arith

pub round_div-64 :
    (n : ℕ) → (round_div n 64 * 128 ≤ 2 * n + 64) × (2 * n ≤ round_div n 64 * 128 + 64)
unfolding round_div
round_div-64 n = ground arith

pub round_div-128 :
    (n : ℕ) → (round_div n 128 * 256 ≤ 2 * n + 128) × (2 * n ≤ round_div n 128 * 256 + 128)
unfolding round_div
round_div-128 n = ground arith

pub pow_add : (a b : ℕ) → 2 ^ (a + b) ≡ 2 ^ a * 2 ^ b
pow_add zero b = simp zero-add (omega arith)
pow_add (suc a) b = simp (suc-add, pow-succ', pow_add a b, mul_assoc)

-- With enough rounds the search finds a shift that takes the quotient far enough.
pub find_shift_lem :
    (left shift n d : ℕ)
    → 2 ^ 52 * d ≤ n * 2 ^ left
    → (i : ℕ) × (find_shift left shift n d ≡ shift + i) × (2 ^ 52 * d ≤ n * 2 ^ i)
unfolding find_shift
find_shift_lem zero shift n d h = (0, omega arith, h)
find_shift_lem (suc left) shift n d h = elim (Bool-cases (leb (2 ^ 52 * d) n)) [
  | inl enough ↦ (0, rw enough (omega arith), ground arith)
  | inr more ↦
      let far : 2 ^ 52 * d ≤ n * 2 * 2 ^ left =
        rw (mul_assoc n 2 (2 ^ left), ← pow-succ' 2 left) h in
      let (i, e, far') = find_shift_lem left (shift + 1) (n * 2) d far in
      (suc i, rw more (omega arith), rw (pow-succ' 2 i, ← mul_assoc n 2 (2 ^ i)) far')
]

-- For fewer than 2 ^ 31 seconds the shift is 33 at least.
pub shift_bound : (s k : ℕ) → s < 2 ^ 31 → 2 ^ 52 * 3600 ≤ s * 2 ^ k → 33 ≤ k
shift_bound s k small far = elim (dec_lt k 33) [
  | no enough ↦ omega arith
  | yes few ↦
      let power : 2 ^ k ≤ 2 ^ 32 = pow-le-pow_right (omega arith) {i = k} {j = 32} (omega arith) in
      let product : s * 2 ^ k ≤ s * 2 ^ 32 = mul-le-mul_left s power in absurd (omega arith)
]
