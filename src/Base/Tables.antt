-- ===== src/Base/Tables.antt =====
-- A Python dict literal from the members of an enumeration to texts, and the same dict reversed.
use text.Mathlib.Text.{◌==◌ as str_eq}
use text.Mathlib.TextEquality.{eq_iff}
use attendee.Base.{ℕ, String, ◌≡◌, Option, none, some, List, [], ◌∷◌, ◌==◌, if◌then◌else◌, arith}

module _ {A : Type 0} where
  -- `mapping.get(value)`
  abbrev pub get_by_value : (A → ℕ) → List (A × String) → ℕ → Option String
  get_by_value value [] k = none
  get_by_value value ((a, s) ∷ rest) k =
      let later = get_by_value value rest k in if value a == k then some s else later

  -- `{v: k for k, v in mapping.items()}.get(code)`: of two equal codes the later one counts.
  abbrev pub get_by_code : List (A × String) → String → Option A
  get_by_code [] code = none
  get_by_code ((a, s) ∷ rest) code = elim (get_by_code rest code) [
    | some b ↦ some b
    | none ↦ if str_eq s code then some a else none
  ]

  -- Every entry of `t` is what `look` finds for its member.
  abbrev pub IsFound : (A → Option String) → List (A × String) → Type 0
  IsFound look [] = Unit
  IsFound look (e ∷ rest) = (look e.0 ≡ some e.1) × IsFound look rest

  -- What the reversed table finds, the table maps back.
  pub get_by_code_found :
      (look : A → Option String) (t : List (A × String)) (code : String) (a : A)
      → IsFound look t
      → get_by_code t code ≡ some a
      → look a ≡ some code
  get_by_code_found look [] code a h e = cc
  get_by_code_found look ((b, s) ∷ rest) code a h e =
      ground (arith, eq_iff s code, get_by_code_found look rest code a h.1)
