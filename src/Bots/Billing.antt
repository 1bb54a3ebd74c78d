-- ===== src/Bots/Billing.antt =====
-- bots/models.py, Bot.centicredits_consumed: the charge is computed in floating point, which is
-- modelled bit by bit. A positive double is an integer below 2 ^ 53 over a power of two.
pub mod Rounding
pub mod Price
use attendee.Base.{
  ℕ, zero, suc, ◌+◌, ◌-◌, ◌*◌, ◌/◌, ◌%◌, ◌^◌, none, some, if◌then◌else◌, ltb, leb, ◌==◌,
}
use attendee.Bots.{Bot, seconds_active}

-- n / d to the nearest integer, a tie to the even one.
unfoldable pub round_div : ℕ → ℕ → ℕ
round_div n d =
    if ltb (n % d * 2) d
    then n / d
    else if ltb d (n % d * 2)
    then n / d + 1
    else if n / d % 2 == 0
    then n / d
    else n / d + 1

-- The value `mantissa / 2 ^ shift`.
pub record Double : Type 0 where
  pub mantissa : ℕ
  pub shift : ℕ

-- The least power of two, from `2 ^ shift` on, that takes n / d to 2 ^ 52 or more.
unfoldable pub find_shift : ℕ → ℕ → ℕ → ℕ → ℕ
find_shift zero shift n d = shift
find_shift (suc left) shift n d =
    let next = find_shift left (shift + 1) (n * 2) d in if leb (2 ^ 52 * d) n then shift else next

-- Python's `a / b` of positive integers whose quotient is below 2 ^ 53: the nearest double.
unfoldable pub true_div : ℕ → ℕ → Double
unfolding round_div find_shift
true_div a b =
    let k = find_shift 128 0 a b in record { mantissa = round_div (a * 2 ^ k) b; shift = k }

-- The bits that a product has beyond 53.
abbrev pub excess : ℕ → ℕ
excess p = if ltb p (2 ^ 59) then 6 else 7

-- The nearest double to 100 times a double; the product has 59 or 60 bits.
unfoldable pub times_100 : Double → Double
unfolding round_div
times_100 x =
    let j = excess (x.mantissa * 100) in
    record { mantissa = round_div (x.mantissa * 100) (2 ^ j); shift = x.shift - j }

-- `math.ceil`
unfoldable pub ceil : Double → ℕ
ceil x = (x.mantissa + 2 ^ x.shift - 1) / 2 ^ x.shift

-- Hundredths of a credit for some seconds, at a credit per hour.
unfoldable pub centicredits_for : ℕ → ℕ
unfolding true_div times_100 ceil
centicredits_for zero = 0
centicredits_for (suc s) = ceil (times_100 (true_div (suc s) 3600))

unfoldable pub centicredits_consumed : Bot → ℕ
unfolding centicredits_for
centicredits_consumed b = elim b.first_heartbeat_timestamp [
  | none ↦ 0
  | some first ↦ elim b.last_heartbeat_timestamp [
    | none ↦ 0
    | some last ↦ centicredits_for (seconds_active first last)
  ]
]
