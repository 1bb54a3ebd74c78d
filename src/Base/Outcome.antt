-- ===== src/Base/Outcome.antt =====
-- What a Python call gives back: a value, or the exception that it raises.
use mathlib.Core.Path.{◌≡◌, refl}
use mathlib.Core.Bool.{Bool, true, false}

pub data Outcome (E A : Type 0) : Type 0 where
  ok : A → Outcome E A
  raise : E → Outcome E A

infixl 5 ◌>>=◌ ◌>>◌
abbrev pub ◌>>=◌ : {E A B : Type 0} → Outcome E A → (A → Outcome E B) → Outcome E B
ok value >>= next = next value
raise error >>= next = raise error

abbrev pub ◌>>◌ : {E B : Type 0} → Outcome E (Unit {0}) → Outcome E B → Outcome E B
m >> k = m >>= λ _. k

-- `if not test: raise e`
abbrev pub require : {E : Type 0} → Bool → E → Outcome E (Unit {0})
require true error = ok tt
require false error = raise error

-- What holds of the value if the call returns one.
abbrev pub Ensures : {E A : Type 0} → (A → Type 0) → Outcome E A → Type 0
Ensures P (ok a) = P a
Ensures P (raise e) = Unit

-- The call returns a value, of which it holds.
abbrev pub Returns : {E A : Type 0} → (A → Type 0) → Outcome E A → Type 0
Returns P (ok a) = P a
Returns P (raise e) = ⊥

pub Ensures-bind :
    {E A B : Type 0} (P : A → Type 0) (Q : B → Type 0) (m : Outcome E A) (f : A → Outcome E B)
    → Ensures P m
    → ((a : A) → P a → Ensures Q (f a))
    → Ensures Q (m >>= f)
Ensures-bind P Q (ok a) f h k = k a h
Ensures-bind P Q (raise e) f h k = tt

pub Ensures-ok :
    {E A : Type 0} (P : A → Type 0) (m : Outcome E A) {a : A} → Ensures P m → m ≡ ok a → P a
Ensures-ok P m h e = rw e at h

pub Ensures-of :
    {E A : Type 0} (P : A → Type 0) (m : Outcome E A) → ((a : A) → m ≡ ok a → P a) → Ensures P m
Ensures-of P (ok a) h = h a refl
Ensures-of P (raise e) h = tt

pub Ensures-then :
    {E A B : Type 0} (P : B → Type 0) (m : Outcome E A) (f : A → Outcome E B)
    → ((a : A) → Ensures P (f a))
    → Ensures P (m >>= f)
Ensures-then P (ok a) f h = h a
Ensures-then P (raise e) f h = tt
