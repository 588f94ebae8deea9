-- ===== src/Splitter/Sentence.antt =====
-- src/astra_indexator/splitter/sentence.py: sentences, words and grapheme clusters.
-- Unicode's character properties, the regular expressions on them (the `regex` package) and ICU's break
-- iterators are libraries: they enter as the records `Unicode` and `Icu`. ICU is taken as installed.
pub mod Profiles
pub mod Kept
pub mod Fuel
use mathlib.Core.List.{reverse}
use astra_indexator.Prelude.{
  ℕ, zero, suc, ◌+◌, ◌-◌, Bool, true, false, not, ◌&&◌, ◌||◌, List, [], ◌∷◌, ◌++◌, map, Option,
  none, some, String, length, any, ltb, leb, ◌==◌, str_eq, if◌then◌else◌,
}
use astra_indexator.Text.{
  Codes, CaseTable, codes, codes_eq, contains, ends_with, is_empty, is_space, lower, starts_with,
  strip, upper,
}
use astra_indexator.Splitter.{
  Result, ok, err, Boundaries, SplitterProfile, invalid_sentence_boundary_backend,
}
use astra_indexator.Splitter.Sentence.Profiles.{
  SentenceBoundaryProfile, profile_for, primary_language_of, locale_id,
}

pub record Unicode : Type 0 where
  -- the categories Pe and Pf, and the categories Ps and Pi
  pub closes : ℕ → Bool
  pub opens : ℕ → Bool
  pub sentence_terminal : ℕ → Bool
  pub is_alnum : ℕ → Bool
  pub is_alpha : ℕ → Bool
  pub is_upper : ℕ → Bool
  pub is_lower : ℕ → Bool
  -- the properties L and M
  pub letter_or_mark : ℕ → Bool
  pub casefold : Codes → Codes
  -- `_WORDLIKE.findall`, as a number, and the characters of `_COMPLEX_WORD_SCRIPT`
  pub wordlike : Codes → ℕ
  pub complex_script : ℕ → Bool
  -- `regex.findall(r"\X", text)`
  pub graphemes : Codes → List Codes

-- The ends of sentences and of words, by the name of the locale, and whether a token has a letter or a
-- digit.
pub record Icu : Type 0 where
  pub sentence_ends : Codes → Codes → List ℕ
  pub word_ends : Codes → Codes → List ℕ
  pub letter_or_digit : ℕ → Bool

abbrev pub take {ℓ} : {A : Type ℓ} → ℕ → List A → List A
take zero xs = []
take (suc n) [] = []
take (suc n) (x ∷ xs) = x ∷ take n xs

abbrev pub drop {ℓ} : {A : Type ℓ} → ℕ → List A → List A
drop zero xs = xs
drop (suc n) [] = []
drop (suc n) (x ∷ xs) = drop n xs

unfoldable pub count_while : (ℕ → Bool) → Codes → ℕ
count_while test [] = 0
count_while test (c ∷ cs) = let rest = count_while test cs in if test c then suc rest else 0

unfoldable pub take_while : (ℕ → Bool) → Codes → Codes
take_while test [] = []
take_while test (c ∷ cs) = let rest = take_while test cs in if test c then c ∷ rest else []

unfoldable pub drop_while : (ℕ → Bool) → Codes → Codes
drop_while test [] = []
drop_while test (c ∷ cs) = let rest = drop_while test cs in if test c then rest else c ∷ cs

abbrev pub head : Codes → Option ℕ
head [] = none
head (c ∷ cs) = some c

-- A test of a character that may be missing, where the empty text fails it.
abbrev pub passes : (ℕ → Bool) → Option ℕ → Bool
passes test none = false
passes test (some c) = test c

-- A test `char in text`, which the empty text passes.
abbrev pub passes_or_empty : (ℕ → Bool) → Option ℕ → Bool
passes_or_empty test none = true
passes_or_empty test (some c) = test c

-- The characters before a position, from right to left.
abbrev pub chars_before : Codes → ℕ → Codes
chars_before text i = reverse (take i text)

-- What a turn of the loop of `_split_unicode` does: it goes on at a position, or it ends a sentence at
-- one position and starts the next at another.
pub data Move : Type 0 where
  skip : ℕ → Move
  cut : ℕ → ℕ → Move

module _ (t : CaseTable) (u : Unicode) where
  unfoldable pub is_closer : ℕ → Bool
  is_closer c =
      u.closes c || (c == 0x22 || (c == 0x27 || (c == 0xbb || (c == 0x201d || c == 0x2019))))

  unfoldable pub is_sentence_terminal : SentenceBoundaryProfile → ℕ → Bool
  is_sentence_terminal profile c =
      c == 0x2e || (any (λ (k : ℕ). c == k) profile.extra_terminal_chars || u.sentence_terminal c)

  -- `_previous_token`
  unfoldable pub previous_token : Codes → ℕ → Codes
  previous_token text i = u.casefold (
      reverse (
        take_while (λ (c : ℕ). not (is_space c || (is_closer c || u.opens c)))
          (chars_before text i))
      ++ take 1 (drop i text))

  -- `_next_lexical_char`
  unfoldable pub next_lexical_char : Codes → ℕ → Option ℕ
  next_lexical_char text i =
      head (drop_while (λ (c : ℕ). is_space c || is_closer c) (drop (i + 1) text))

  -- `_abbreviation_is_protected`
  unfoldable pub abbreviation_is_protected : Codes → ℕ → Codes → SentenceBoundaryProfile → Bool
  abbreviation_is_protected text i token profile =
      if any (λ (a : String). codes_eq token (codes a)) profile.always_nonterminal
      then true
      else if not (any (λ (a : String). codes_eq token (codes a)) profile.abbreviations)
          && not (any (λ (a : String). ends_with (codes a) token) profile.abbreviations)
      then false
      else elim (next_lexical_char text i) [
        | none ↦ false
        | some c ↦ not (u.is_alpha c && u.is_upper c)
      ]

  -- `$` also matches before a newline at the end.
  abbrev pub drop_newline : Codes → Codes
  drop_newline [] = []
  drop_newline (c ∷ cs) = if c == 0xa then cs else c ∷ cs

  -- The match of `_LETTER_BEFORE` has one character.
  unfoldable pub single_letter_before : Codes → ℕ → Bool
  single_letter_before text i =
      count_while u.letter_or_mark (drop_newline (chars_before text i)) == 1

  -- The token around a period: its characters before, from right to left, and behind the period.
  abbrev pub token_left : Codes → ℕ → Codes
  token_left text i = take_while (λ (c : ℕ). not (c == 0x20 || c == 0xa)) (chars_before text i)

  abbrev pub token_right : Codes → ℕ → Codes
  token_right text i = take_while (λ (c : ℕ). not (is_space c)) (drop (i + 1) text)

  abbrev pub token_full : Codes → ℕ → Codes
  token_full text i = reverse (token_left text i) ++ (take 1 (drop i text) ++ token_right text i)

  unfoldable pub count_char : ℕ → Codes → ℕ
  count_char k [] = 0
  count_char k (c ∷ cs) = (if c == k then 1 else 0) + count_char k cs

  -- `_period_is_protected`
  unfoldable pub period_is_protected : Codes → ℕ → SentenceBoundaryProfile → Bool
  period_is_protected text i profile =
      let previous = head (chars_before text i) in
      let next = head (drop (i + 1) text) in
      let inside = not (is_empty (token_right text i)) in
      (passes u.is_alnum previous && passes u.is_alnum next)
      || (abbreviation_is_protected text i (previous_token text i) profile
          || (single_letter_before text i
              || ((inside
                    && (contains (codes "://") (token_full text i)
                        || contains (codes "@") (token_full text i)))
                  || ((inside && leb 2 (count_char 0x2e (token_full text i)))
                      || (inside
                          && ((passes u.is_alnum previous
                                || passes_or_empty (λ (c : ℕ). c == 0x5f || c == 0x29) previous)
                              && (passes u.is_alnum next
                                  || passes_or_empty (λ (c : ℕ). c == 0x5f || c == 0x28) next)))))))

  abbrev pub ja_quote_continuations : List Codes
  ja_quote_continuations =
      codes "と" ∷ codes "って" ∷ codes "という" ∷ codes "と述" ∷ codes "と答" ∷ codes "と語" ∷ []

  -- `c.isalpha() and c.lower() != c.upper()`
  abbrev pub is_cased : ℕ → Bool
  is_cased c = u.is_alpha c && not (codes_eq (lower t (c ∷ [])) (upper t (c ∷ [])))

  -- `_looks_like_reporting_continuation`
  unfoldable pub looks_like_reporting_continuation : Codes → ℕ → Codes → Bool → Bool
  looks_like_reporting_continuation text end language had_closer =
      if not had_closer || leb (length text) end
      then false
      else if codes_eq language (codes "ja")
          && any (λ (q : Codes). starts_with q (drop end text)) ja_quote_continuations
      then true
      else passes (λ (c : ℕ). is_cased c && u.is_lower c)
          (head (drop_while is_space (drop end text)))

  -- `_ellipsis_is_terminal`
  unfoldable pub ellipsis_is_terminal : Codes → ℕ → Codes → Bool
  ellipsis_is_terminal text end language = elim (head (drop_while is_space (drop end text))) [
    | none ↦ true
    | some c ↦
        if is_cased c
        then u.is_upper c
        else codes_eq language (codes "ja") || codes_eq language (codes "zh")
  ]

  abbrev pub cut_at : Codes → ℕ → Move
  cut_at text end = cut end (end + count_while is_space (drop end text))

  -- The end of a terminal at a position: its characters, and the closing ones behind them.
  abbrev pub terminal_end : SentenceBoundaryProfile → Codes → ℕ → Bool → ℕ
  terminal_end profile text i ascii_ellipsis =
      if ascii_ellipsis
      then i + 3 + count_while (λ (c : ℕ). c == 0x2e) (drop (i + 3) text)
      else i + 1 + count_while (is_sentence_terminal profile) (drop (i + 1) text)

  abbrev pub closers_at : Codes → ℕ → ℕ
  closers_at text end = count_while is_closer (drop end text)

  -- The end of a turn, from `_looks_like_reporting_continuation` on.
  unfoldable pub terminal_move : Codes → Codes → ℕ → ℕ → Bool → Bool → Bool → Move
  terminal_move text language i closer_start ascii_ellipsis unicode_ellipsis is_period =
      let end = closer_start + closers_at text closer_start in
      if looks_like_reporting_continuation text end language (ltb 0 (closers_at text closer_start))
      then skip end
      else if (ascii_ellipsis || unicode_ellipsis) && not (ellipsis_is_terminal text end language)
      then skip end
      else if passes (λ (c : ℕ). not (is_space c)) (head (drop end text))
          && (is_period && not ascii_ellipsis)
      then skip (i + 1)
      else cut_at text end

  unfoldable pub move_at : SentenceBoundaryProfile → Codes → Codes → ℕ → ℕ → Move
  move_at profile language text i c =
      let ascii_ellipsis = starts_with (codes "...") (drop i text) in
      if starts_with (0xa ∷ 0xa ∷ []) (drop i text)
      then cut i (i + count_while (λ (k : ℕ). k == 0xa) (drop i text))
      else if not (is_sentence_terminal profile c) && (not ascii_ellipsis && not (c == 0x2026))
      then skip (i + 1)
      else if c == 0x2e && (not ascii_ellipsis && period_is_protected text i profile)
      then skip (i + 1)
      else terminal_move text language i (terminal_end profile text i ascii_ellipsis) ascii_ellipsis
          (c == 0x2026) (c == 0x2e)

  -- `sentence = text[start:end].strip()`, appended if it is not empty.
  abbrev pub sentence_between : Codes → ℕ → ℕ → List Codes
  sentence_between text start end =
      let sentence = strip (take (end - start) (drop start text)) in
      if is_empty sentence then [] else sentence ∷ []

  abbrev pub tail_from : Codes → ℕ → List Codes
  tail_from text start =
      let tail = strip (drop start text) in if is_empty tail then [] else tail ∷ []

  -- What is emitted in front of what follows; `none` says that the fuel ran out.
  abbrev pub in_front : List Codes → Option (List Codes) → Option (List Codes)
  in_front ss none = none
  in_front ss (some rest) = some (ss ++ rest)

  -- The rest of a turn; `rest` is the loop behind it, from `start` and `i`.
  abbrev pub after_move : (ℕ → ℕ → Option (List Codes)) → Codes → ℕ → Move → Option (List Codes)
  after_move rest text start (skip j) = rest start j
  after_move rest text start (cut end j) = in_front (sentence_between text start end) (rest j j)

  abbrev pub turn_at :
      (ℕ → ℕ → Option (List Codes))
      → SentenceBoundaryProfile
      → Codes
      → Codes
      → ℕ
      → ℕ
      → Option ℕ
      → Option (List Codes)
  turn_at rest profile language text start i none = some (tail_from text start)
  turn_at rest profile language text start i (some c) =
      after_move rest text start (move_at profile language text i c)

  -- The loop, with fuel: `none` is for a loop that is not at its end when the fuel is used up.
  unfoldable pub unicode_loop :
      SentenceBoundaryProfile → Codes → Codes → ℕ → ℕ → ℕ → Option (List Codes)
  unicode_loop profile language text zero start i = none
  unicode_loop profile language text (suc fuel) start i =
      turn_at (unicode_loop profile language text fuel) profile language text start i
        (head (drop i text))

  abbrev or_nothing : Option (List Codes) → List Codes
  or_nothing none = []
  or_nothing (some ss) = ss

  -- `_split_unicode`, with a turn for every character and one for the end.
  unfoldable pub split_unicode : Codes → Codes → List Codes
  split_unicode text hint =
      or_nothing (
        unicode_loop (profile_for t hint) (primary_language_of t hint) text (suc (length text)) 0 0)

  -- The pieces between the breaks of a text.
  unfoldable pub pieces : Codes → ℕ → List ℕ → List Codes
  pieces rest start [] = []
  pieces rest start (end ∷ ends) =
      take (end - start) rest ∷ pieces (drop (end - start) rest) end ends

  abbrev pub stripped : List Codes → List Codes
  stripped [] = []
  stripped (s ∷ ss) = (if is_empty (strip s) then [] else strip s ∷ []) ++ stripped ss

  -- `_split_icu`
  unfoldable pub split_icu : Icu → Codes → Codes → List Codes
  split_icu icu text hint = stripped (pieces text 0 (icu.sentence_ends (locale_id t hint) text))

  unfoldable pub count_tokens : Icu → List Codes → ℕ
  count_tokens icu [] = 0
  count_tokens icu (s ∷ ss) = (if any icu.letter_or_digit s then 1 else 0) + count_tokens icu ss

  -- `language_hint`, where an absent hint and an empty one are treated alike.
  abbrev pub hint_or_empty : Option Codes → Codes
  hint_or_empty none = []
  hint_or_empty (some hint) = hint

  -- `split_sentences` and `count_words` at the backends "unicode" and "icu".
  abbrev pub unicode_sentences : Option Codes → Codes → List Codes
  unicode_sentences hint text =
      if is_empty (strip text) then [] else split_unicode text (hint_or_empty hint)

  abbrev pub icu_sentences : Icu → Option Codes → Codes → List Codes
  icu_sentences icu hint text =
      if is_empty (strip text) then [] else split_icu icu text (hint_or_empty hint)

  abbrev pub unicode_words : Option Codes → Codes → ℕ × Bool
  unicode_words hint text =
      if is_empty text then (0, true) else (u.wordlike text, not (any u.complex_script text))

  abbrev pub icu_words : Icu → Option Codes → Codes → ℕ × Bool
  icu_words icu hint text = if is_empty text then (0, true) else (
    count_tokens icu (pieces text 0 (icu.word_ends (locale_id t (hint_or_empty hint)) text)),
    true,
  )

  abbrev pub unicode_boundaries : Boundaries
  unicode_boundaries = record {
    split_sentences = unicode_sentences;
    count_words = unicode_words;
    grapheme_clusters = u.graphemes;
  }

  abbrev pub icu_boundaries : Icu → Boundaries
  icu_boundaries icu = record {
    split_sentences = icu_sentences icu;
    count_words = icu_words icu;
    grapheme_clusters = u.graphemes;
  }

  -- The boundaries by the name of the backend: the source tests the name in every call.
  unfoldable pub boundaries_for : Icu → SplitterProfile → Result Boundaries
  boundaries_for icu p =
      if str_eq p.sentence_boundary_backend "unicode"
      then ok unicode_boundaries
      else if str_eq p.sentence_boundary_backend "icu"
      then ok (icu_boundaries icu)
      else err invalid_sentence_boundary_backend
