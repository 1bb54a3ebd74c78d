-- ===== src/Bots/Billing/Price.antt =====
-- bots/models.py, Bot.centicredits_consumed, beside a price in whole numbers.
use mathlib.Core.Path.{subst}
use native.Mathlib.Nat.{mul-le-mul_right, pow-le-pow_right}
use native.Mathlib.Decide.{dec_le, dec_lt}
use attendee.Base.{
  ℕ, zero, suc, ◌+◌, ◌-◌, ◌*◌, ◌/◌, ◌%◌, ◌^◌, ◌≤◌, ◌<◌, ◌≡◌, refl, ◌⊎◌, inl, inr, arith, sym,
  Bool-cases, ltb,
}
use attendee.Bots.Billing.{round_div, find_shift, true_div, times_100, ceil, centicredits_for}
use attendee.Bots.Billing.Rounding.{
  round_div-3600, round_div-64, round_div-128, pow_add, find_shift_lem, shift_bound,
}

-- The hundredths for `s` seconds, rounded up.
abbrev pub price : ℕ → ℕ
price s = (s + 35) / 36

-- What a charge of `c` for `s` seconds may be.
abbrev pub IsFair : ℕ → ℕ → Type 0
IsFair s c = (c ≡ price s) ⊎ (s % 36 ≡ 0) × (c ≡ price s + 1)

-- A quotient `m / p` rounded up, where `m` is `s / 36` times `p` but for a small error.
module _ (m p s q r : ℕ) (e : s ≡ 36 * q + r) (small : r < 36) (big : 100 < p)
    (upper : 36 * m ≤ s * p + 65) (lower : s * p ≤ 36 * m + 65) where
  rounded_up : ℕ
  rounded_up = (m + p - 1) / p

  product : s * p ≡ 36 * (q * p) + r * p
  product = rw e (omega arith)

  rounded_up_bounds : (rounded_up * p ≤ m + p - 1) × (m + p - 1 < rounded_up * p + p)
  unfolding rounded_up
  rounded_up_bounds = (omega arith, omega arith)

  at_most : rounded_up ≤ q + 1
  at_most = elim (dec_le rounded_up (q + 1)) [
    | yes h ↦ h
    | no h ↦
        let far : (q + 2) * p ≤ rounded_up * p = mul-le-mul_right p (omega arith) in
        let part : r * p ≤ 35 * p = mul-le-mul_right p (omega arith) in
        absurd (omega (arith, product, rounded_up_bounds))
  ]

  at_least : q ≤ rounded_up
  at_least = elim (dec_le q rounded_up) [
    | yes h ↦ h
    | no h ↦
        let near : (rounded_up + 1) * p ≤ q * p = mul-le-mul_right p (omega arith) in
        absurd (omega (arith, product, rounded_up_bounds))
  ]

  above : 0 < r → q < rounded_up
  above pos = elim (dec_lt q rounded_up) [
    | yes h ↦ h
    | no h ↦
        let near : rounded_up * p ≤ q * p = mul-le-mul_right p (omega arith) in
        let part : 1 * p ≤ r * p = mul-le-mul_right p pos in
        absurd (omega (arith, product, rounded_up_bounds))
  ]

  rounded_up-IsFair : IsFair s rounded_up
  rounded_up-IsFair = ground (arith, at_most, at_least, above)

-- The two roundings at a shift `j + k`, where the product drops `j` bits.
dropped_6 :
    (s p m m' : ℕ)
    → (m * 7200 ≤ 2 * (s * (p * 64)) + 3600) × (2 * (s * (p * 64)) ≤ m * 7200 + 3600)
    → (m' * 128 ≤ 2 * (m * 100) + 64) × (2 * (m * 100) ≤ m' * 128 + 64)
    → (36 * m' ≤ s * p + 65) × (s * p ≤ 36 * m' + 65)
dropped_6 s p m m' first second = (omega arith, omega arith)

dropped_7 :
    (s p m m' : ℕ)
    → (m * 7200 ≤ 2 * (s * (p * 128)) + 3600) × (2 * (s * (p * 128)) ≤ m * 7200 + 3600)
    → (m' * 256 ≤ 2 * (m * 100) + 128) × (2 * (m * 100) ≤ m' * 256 + 128)
    → (36 * m' ≤ s * p + 65) × (s * p ≤ 36 * m' + 65)
dropped_7 s p m m' first second = (omega arith, omega arith)

big_power : (k : ℕ) → 26 ≤ k → 100 < 2 ^ k
big_power k h =
    let power : 2 ^ 26 ≤ 2 ^ k = pow-le-pow_right (omega arith) {i = 26} {j = k} h in omega arith

-- Both sizes of the product, at a shift that is large enough.
IsFair-6 :
    (s k : ℕ)
    → 26 ≤ k
    → IsFair s ((round_div (round_div (s * 2 ^ (k + 6)) 3600 * 100) 64 + 2 ^ k - 1) / 2 ^ k)
unfolding rounded_up
IsFair-6 s k h =
    let m = round_div (s * 2 ^ (k + 6)) 3600 in
    let near =
      dropped_6 s (2 ^ k) m (round_div (m * 100) 64)
        (rw (← pow_add k 6) (round_div-3600 (s * 2 ^ (k + 6)))) (round_div-64 (m * 100)) in
    rounded_up-IsFair (round_div (m * 100) 64) (2 ^ k) s (s / 36) (s % 36) (omega arith)
      (omega arith) (big_power k h) near.0 near.1

IsFair-7 :
    (s k : ℕ)
    → 26 ≤ k
    → IsFair s ((round_div (round_div (s * 2 ^ (k + 7)) 3600 * 100) 128 + 2 ^ k - 1) / 2 ^ k)
unfolding rounded_up
IsFair-7 s k h =
    let m = round_div (s * 2 ^ (k + 7)) 3600 in
    let near =
      dropped_7 s (2 ^ k) m (round_div (m * 100) 128)
        (rw (← pow_add k 7) (round_div-3600 (s * 2 ^ (k + 7)))) (round_div-128 (m * 100)) in
    rounded_up-IsFair (round_div (m * 100) 128) (2 ^ k) s (s / 36) (s % 36) (omega arith)
      (omega arith) (big_power k h) near.0 near.1

IsFair-at_shift :
    (s k : ℕ)
    → 33 ≤ k
    → IsFair s (ceil (times_100 (record { mantissa = round_div (s * 2 ^ k) 3600; shift = k })))
unfolding ceil times_100
IsFair-at_shift s k h = elim (Bool-cases (ltb (round_div (s * 2 ^ k) 3600 * 100) (2 ^ 59))) [
  | inl short ↦
      let e : k ≡ (k - 6) + 6 = omega arith in
      rw short (
        subst
          (λ j.
            IsFair s
              ((round_div (round_div (s * 2 ^ j) 3600 * 100) 64 + 2 ^ (k - 6) - 1) / 2 ^ (k - 6)))
          (sym e) (IsFair-6 s (k - 6) (omega arith)))
  | inr long ↦
      let e : k ≡ (k - 7) + 7 = omega arith in
      rw long (
        subst
          (λ j.
            IsFair s
              ((round_div (round_div (s * 2 ^ j) 3600 * 100) 128 + 2 ^ (k - 7) - 1) / 2 ^ (k - 7)))
          (sym e) (IsFair-7 s (k - 7) (omega arith)))
]

-- For less than 2 ^ 31 seconds the charge is the exact price, rounded up to a hundredth of a credit,
-- or one hundredth more; the latter only where the seconds are a multiple of 36.
pub centicredits_for-IsFair : (s : ℕ) → s < 2 ^ 31 → IsFair s (centicredits_for s)
unfolding centicredits_for true_div
centicredits_for-IsFair zero h = inl refl
centicredits_for-IsFair (suc s) h =
    let (k, e, far) = find_shift_lem 128 0 (suc s) 3600 (omega arith) in
    let e' : find_shift 128 0 (suc s) 3600 ≡ k = omega (arith, e) in
    rw e' (IsFair-at_shift (suc s) k (shift_bound (suc s) k h far))
