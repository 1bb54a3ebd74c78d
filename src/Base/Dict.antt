-- ===== src/Base/Dict.antt =====
-- A Python dict keyed by numbers, as the list of its items in the order of insertion.
use Prim.Native.Nat.{ℕ}
use mathlib.Core.Path.{◌≡◌, refl}
use mathlib.Core.Bool.{false}
use mathlib.Core.Option.{Option, none, some}
use mathlib.Core.List.{List, [], ◌∷◌}
use native.Mathlib.Omega.{arith}
use attendee.Base.Tests.{◌==◌, if◌then◌else◌}
use attendee.Base.Lists.{any}

abbrev pub keys {ℓ} : {V : Type ℓ} → List (ℕ × V) → List ℕ
keys [] = []
keys ((k, v) ∷ d) = k ∷ keys d

module _ {ℓ} {V : Type ℓ} where
  unfoldable pub lookup : ℕ → List (ℕ × V) → Option V
  lookup k [] = none
  lookup k ((j, v) ∷ d) = if j == k then some v else lookup k d

  -- `d[k] = v`
  unfoldable pub insert : ℕ → V → List (ℕ × V) → List (ℕ × V)
  insert k v [] = (k, v) ∷ []
  insert k v ((j, w) ∷ d) = if j == k then (k, v) ∷ d else (j, w) ∷ insert k v d

  -- `del d[k]`
  unfoldable pub remove : ℕ → List (ℕ × V) → List (ℕ × V)
  remove k [] = []
  remove k ((j, w) ∷ d) = let rest = remove k d in if j == k then rest else (j, w) ∷ rest

  pub lookup-insert :
      (k j : ℕ) (v : V) (d : List (ℕ × V))
      → lookup k (insert j v d) ≡ (if j == k then some v else lookup k d)
  unfolding lookup insert
  lookup-insert k j v [] = refl
  lookup-insert k j v ((i, w) ∷ d) = ground (arith, lookup-insert k j v d)

  pub lookup-remove :
      (k j : ℕ) (d : List (ℕ × V)) → lookup k (remove j d) ≡ (if j == k then none else lookup k d)
  unfolding lookup remove
  lookup-remove k j [] = ground arith
  lookup-remove k j ((i, w) ∷ d) = ground (arith, lookup-remove k j d)

  -- A key that is not listed is not there.
  pub lookup_absent :
      (k : ℕ) (d : List (ℕ × V)) → any (λ j. j == k) (keys d) ≡ false → lookup k d ≡ none
  unfolding lookup
  lookup_absent k [] h = refl
  lookup_absent k ((j, w) ∷ d) h = ground (arith, lookup_absent k d)
