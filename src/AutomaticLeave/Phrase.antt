-- ===== src/AutomaticLeave/Phrase.antt =====
-- bots/automatic_leave_utils.py: the search for a keyword, as a phrase of a text.
use attendee.Base.{
  ℕ, zero, suc, ◌+◌, ◌-◌, ◌≤◌, ◌<◌, ◌≡◌, ◌↔◌, inl, inr, refl, sym, ap, ◌∙◌, Bool, true, false, List,
  [], ◌∷◌, ◌++◌, ◌==◌, ==_iff, length, take, drop, any, take-drop, length-append, arith, Bool-cases,
}
use attendee.AutomaticLeave.{
  Text, Characters, split_string_into_lower_case_words, same_text, same_words, range, has_window,
  no_words, matches, string_contains_keywords, participant_is_another_bot,
}

-- The words of the second list follow one another in the first one.
abbrev pub IsPhrase : List Text → List Text → Type 0
IsPhrase words kw_words =
    (before : List Text) × (after : List Text) × (words ≡ before ++ (kw_words ++ after))

same_text_iff : (a b : Text) → (same_text a b ≡ true) ↔ (a ≡ b)
same_text_iff [] [] = (λ e. refl, λ e. refl)
same_text_iff [] (d ∷ b) = ground arith
same_text_iff (c ∷ a) [] = ground arith
same_text_iff (c ∷ a) (d ∷ b) = ground (arith, same_text_iff a b, ==_iff c d)

same_words_iff : (a b : List Text) → (same_words a b ≡ true) ↔ (a ≡ b)
same_words_iff [] [] = (λ e. refl, λ e. refl)
same_words_iff [] (w ∷ b) = ground arith
same_words_iff (v ∷ a) [] = ground arith
same_words_iff (v ∷ a) (w ∷ b) = ground (arith, same_words_iff a b, same_text_iff v w)

-- Some number of a range passes a test.
any-range :
    (p : ℕ → Bool) (start n : ℕ)
    → any p (range start n) ≡ true
    → (i : ℕ) × (start ≤ i) × (i < start + n) × (p i ≡ true)
any-range p start zero e = absurd (ground (arith, e))
any-range p start (suc n) e = elim (Bool-cases (p start)) [
  | inl holds ↦ (start, omega arith, omega arith, holds)
  | inr fails ↦
      (let (i, low, high, holds) = any-range p (start + 1) n (ground (arith, e, fails)) in
        (i, omega (arith, low), omega (arith, high), holds))
]

start_below : (start i : ℕ) → start ≤ i → (start == i) ≡ false → start + 1 ≤ i
start_below start i low other = ground arith

any-range_of :
    (p : ℕ → Bool) (start n i : ℕ)
    → start ≤ i
    → i < start + n
    → p i ≡ true
    → any p (range start n) ≡ true
any-range_of p start zero i low high holds = absurd (omega arith)
any-range_of p start (suc n) i low high holds = elim (Bool-cases (start == i)) [
  | inl same ↦ ground (arith, ap p ((==_iff start i).0 same), holds)
  | inr other ↦
      (let above = start_below start i low other in
        let rest = any-range_of p (start + 1) n i above (omega (arith, high)) holds in
        ground (arith, rest))
]

take-append : {A : Type 0} (xs ys : List A) → take (length xs) (xs ++ ys) ≡ xs
take-append [] ys = refl
take-append (x ∷ xs) ys = ap (λ zs. x ∷ zs) (take-append xs ys)

drop-append : {A : Type 0} (xs ys : List A) → drop (length xs) (xs ++ ys) ≡ ys
drop-append [] ys = refl
drop-append (x ∷ xs) ys = drop-append xs ys

-- A window at some place is a phrase.
window-IsPhrase :
    (words kw_words : List Text) (i : ℕ)
    → take (length kw_words) (drop i words) ≡ kw_words
    → IsPhrase words kw_words
window-IsPhrase words kw_words i same = (
  take i words,
  drop (length kw_words) (drop i words),
  sym (take-drop i words)
      ∙ ap (λ rest. take i words ++ rest)
          (sym (take-drop (length kw_words) (drop i words))
            ∙ ap (λ w. w ++ drop (length kw_words) (drop i words)) same),
)

has_window-IsPhrase :
    (words kw_words : List Text) → has_window words kw_words ≡ true → IsPhrase words kw_words
unfolding has_window
has_window-IsPhrase words kw_words e =
    let (i, low, high, holds) = any-range _ 0 (length words - length kw_words + 1) e in
    window-IsPhrase words kw_words i
      ((same_words_iff (take (length kw_words) (drop i words)) kw_words).0 holds)

long_enough :
    (words kw_words before after : List Text)
    → words ≡ before ++ (kw_words ++ after)
    → length before + length kw_words ≤ length words
long_enough words kw_words before after e =
    omega
      (arith, ap length e, length-append before (kw_words ++ after), length-append kw_words after)

IsPhrase-has_window :
    (words kw_words : List Text) → IsPhrase words kw_words → has_window words kw_words ≡ true
unfolding has_window
IsPhrase-has_window words kw_words (before, after, e) =
    any-range_of _ 0 (length words - length kw_words + 1) (length before) (omega arith)
      (omega (arith, long_enough words kw_words before after e))
      ((same_words_iff (take (length kw_words) (drop (length before) words)) kw_words).1 (
        ap (λ w. take (length kw_words) (drop (length before) w)) e
        ∙ ap (take (length kw_words)) (drop-append before (kw_words ++ after))
        ∙ take-append kw_words after))

matches_iff :
    (words kw_words : List Text)
    → (matches words kw_words ≡ true) ↔ ((no_words kw_words ≡ false) × IsPhrase words kw_words)
unfolding matches
matches_iff words kw_words = (there, back)
  where
    there : matches words kw_words ≡ true → (no_words kw_words ≡ false) × IsPhrase words kw_words
    there e = (ground (arith, e), has_window-IsPhrase words kw_words (ground (arith, e)))

    back : (no_words kw_words ≡ false) × IsPhrase words kw_words → matches words kw_words ≡ true
    back (some_words, (before, after, e)) = ground (
      arith,
      some_words,
      long_enough words kw_words before after e,
      IsPhrase-has_window words kw_words (before, after, e),
    )

-- One of the keywords has words, and they are a phrase.
pub data HasPhrase (ch : Characters) (words : List Text) : List Text → Type 0 where
  here :
      {kw : Text} {keywords : List Text}
      → no_words (split_string_into_lower_case_words ch kw) ≡ false
      → IsPhrase words (split_string_into_lower_case_words ch kw)
      → HasPhrase ch words (kw ∷ keywords)
  there :
      {kw : Text} {keywords : List Text}
      → HasPhrase ch words keywords
      → HasPhrase ch words (kw ∷ keywords)

any_match :
    (ch : Characters) (words keywords : List Text)
    → any (λ kw. matches words (split_string_into_lower_case_words ch kw)) keywords ≡ true
    → HasPhrase ch words keywords
any_match ch words [] e = absurd (ground (arith, e))
any_match ch words (kw ∷ keywords) e =
    elim (Bool-cases (matches words (split_string_into_lower_case_words ch kw))) [
      | inl yes_here ↦
          (let (some_words, phrase) =
              (matches_iff words (split_string_into_lower_case_words ch kw)).0 yes_here in
            HasPhrase.here some_words phrase)
      | inr not_here ↦ HasPhrase.there (any_match ch words keywords (ground (arith, e, not_here)))
    ]

match_any :
    (ch : Characters) (words keywords : List Text)
    → HasPhrase ch words keywords
    → any (λ kw. matches words (split_string_into_lower_case_words ch kw)) keywords ≡ true
match_any ch words [] none_here = elim none_here [ ]
match_any ch words (kw ∷ keywords) (HasPhrase.here some_words phrase) =
    ground
      (arith, (matches_iff words (split_string_into_lower_case_words ch kw)).1 (some_words, phrase))
match_any ch words (kw ∷ keywords) (HasPhrase.there later) =
    ground (arith, match_any ch words keywords later)

some_length : (words : List Text) → no_words words ≡ false → 1 ≤ length words
some_length [] e = absurd (ground (arith, e))
some_length (w ∷ words) e = omega arith

words_of_phrase :
    (ch : Characters) (words keywords : List Text)
    → HasPhrase ch words keywords
    → no_words words ≡ false
words_of_phrase ch [] [] phrase = elim phrase [ ]
words_of_phrase ch [] (kw ∷ keywords) (HasPhrase.here some_words (before, after, e)) =
    let kw_words = split_string_into_lower_case_words ch kw in
    absurd (omega (arith, long_enough [] kw_words before after e, some_length kw_words some_words))
words_of_phrase ch [] (kw ∷ keywords) (HasPhrase.there later) = words_of_phrase ch [] keywords later
words_of_phrase ch (w ∷ words) keywords phrase = refl

-- A participant is another bot exactly if it is not the bot itself and the words of one of the keywords,
-- which has at least one, follow one another among the words of its name.
pub participant_is_another_bot_iff :
    (ch : Characters) (name : Text) (is_the_bot : Bool) (keywords : List Text)
    → (participant_is_another_bot ch name is_the_bot keywords ≡ true)
      ↔ ((is_the_bot ≡ false) × HasPhrase ch (split_string_into_lower_case_words ch name) keywords)
unfolding participant_is_another_bot string_contains_keywords
participant_is_another_bot_iff ch name true keywords = ground arith
participant_is_another_bot_iff ch name false [] =
    (λ e. absurd (ground (arith, e)), λ phrase. elim (phrase.1) [ ])
participant_is_another_bot_iff ch name false (kw ∷ keywords) =
    let words = split_string_into_lower_case_words ch name in
    (
      λ e. (refl, any_match ch words (kw ∷ keywords) (ground (arith, e))),
      λ phrase. ground (
        arith,
        match_any ch words (kw ∷ keywords) phrase.1,
        words_of_phrase ch words (kw ∷ keywords) phrase.1,
      ),
    )
