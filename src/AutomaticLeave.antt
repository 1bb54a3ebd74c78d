-- ===== src/AutomaticLeave.antt =====
-- bots/automatic_leave_utils.py: whether a participant is another bot, by the words of its name. A text is
-- a list of characters; which of them the pattern `[\s\-_]` matches and the lower case of a word are
-- parameters, which Python's libraries give.
pub mod Phrase
use attendee.Base.{
  ℕ, zero, suc, ◌+◌, ◌-◌, Bool, true, false, not, ◌&&◌, ◌||◌, List, [], ◌∷◌, ◌++◌, ◌==◌,
  if◌then◌else◌, ltb, length, take, drop, any,
}

abbrev pub Text : Type 0
Text = List ℕ

pub record Characters : Type 0 where
  pub is_delimiter : ℕ → Bool
  pub lower : Text → Text

-- A word that has come to its end, if it has a character.
abbrev pub end_word : Text → List Text → List Text
end_word [] words = words
end_word (c ∷ word) words = (c ∷ word) ∷ words

-- The words between runs of delimiters, of which the first one begins with the given characters.
unfoldable pub split_from : Characters → Text → Text → List Text
split_from ch word [] = end_word word []
split_from ch word (c ∷ text) = elim (ch.is_delimiter c) [
  | true ↦ end_word word (split_from ch [] text)
  | false ↦ split_from ch (word ++ c ∷ []) text
]

abbrev pub lower_all : Characters → List Text → List Text
lower_all ch [] = []
lower_all ch (word ∷ words) = ch.lower word ∷ lower_all ch words

unfoldable pub split_string_into_lower_case_words : Characters → Text → List Text
unfolding split_from
split_string_into_lower_case_words ch text = lower_all ch (split_from ch [] text)

abbrev pub same_text : Text → Text → Bool
same_text [] [] = true
same_text [] (d ∷ text) = false
same_text (c ∷ text) [] = false
same_text (c ∷ text) (d ∷ text') = c == d && same_text text text'

-- `words[i : i + k] == kw_words`
abbrev pub same_words : List Text → List Text → Bool
same_words [] [] = true
same_words [] (w ∷ words) = false
same_words (v ∷ words) [] = false
same_words (v ∷ words) (w ∷ words') = same_text v w && same_words words words'

-- `range(start, start + n)`
abbrev pub range : ℕ → ℕ → List ℕ
range start zero = []
range start (suc n) = start ∷ range (start + 1) n

-- The sliding window.
unfoldable pub has_window : List Text → List Text → Bool
has_window words kw_words =
    any (λ i. same_words (take (length kw_words) (drop i words)) kw_words)
      (range 0 (length words - length kw_words + 1))

abbrev pub no_words : List Text → Bool
no_words [] = true
no_words (w ∷ words) = false

-- The test of one keyword.
unfoldable pub matches : List Text → List Text → Bool
unfolding has_window
matches words kw_words =
    if no_words kw_words
    then false
    else if ltb (length words) (length kw_words)
    then false
    else has_window words kw_words

unfoldable pub string_contains_keywords : Characters → Text → List Text → Bool
unfolding split_string_into_lower_case_words matches
string_contains_keywords ch string keywords_list =
    let words = split_string_into_lower_case_words ch string in
    if no_words words
    then false
    else any (λ kw. matches words (split_string_into_lower_case_words ch kw)) keywords_list

-- Without a list of keywords, and for the bot itself, the answer is no.
unfoldable pub participant_is_another_bot : Characters → Text → Bool → List Text → Bool
unfolding string_contains_keywords
participant_is_another_bot ch participant_full_name participant_is_the_bot bot_keywords =
    if participant_is_the_bot
    then false
    else if no_words bot_keywords
    then false
    else string_contains_keywords ch participant_full_name bot_keywords
