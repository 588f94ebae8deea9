-- ===== src/Splitter.antt =====
-- src/astra_indexator/splitter: normalized elements into logical fragments.
-- This file has the data of splitter/model.py and splitter/service.py, the exceptions, and the loop
-- that the methods of LogicalSplitter share: for each item, what is emitted, and the variables of the
-- loop behind it. The children model splitter/service.py from its leaves up.
pub mod Solid
pub mod Loop
pub mod Chunks
pub mod Units
pub mod Groups
pub mod Fragments
pub mod Sentence
pub mod Service
use astra_indexator.Prelude.{
  ℕ, ◌+◌, Bool, true, false, not, ◌&&◌, ◌||◌, List, [], ◌∷◌, ◌++◌, Option, none, some, String, leb,
  ltb, str_eq, if◌then◌else◌,
}
use astra_indexator.Prelude.Int.{ℤ}
use astra_indexator.Text.{Codes, is_empty}

-- The RuntimeErrors of splitter/service.py, and the ValueErrors of `SplitterProfile.validate`.
pub data Fault : Type 0 where
  unit_exceeds_hard_guard hard_guard_violation grapheme_exceeds_hard_char_guard : Fault
  fragment_exceeds_chars fragment_exceeds_sentences fragment_exceeds_words : Fault
  invalid_sentence_boundary_backend invalid_char_limits invalid_word_limits : Fault
  invalid_sentence_limits raw_text_overlap_not_supported : Fault

pub data Result {ℓ} (A : Type ℓ) : Type ℓ where
  ok : A → Result A
  err : Fault → Result A

infixl 5 ◌>>=◌ ◌>>◌
abbrev pub ◌>>=◌ {ℓ κ} : {A : Type ℓ} {B : Type κ} → Result A → (A → Result B) → Result B
ok a >>= f = f a
err e >>= f = err e

abbrev pub ◌>>◌ {κ} : {B : Type κ} → Result (Unit {0}) → Result B → Result B
m >> n = m >>= λ _. n

abbrev pub raise_if : Bool → Fault → Result (Unit {0})
raise_if true e = err e
raise_if false e = ok tt

-- parser/model.py
pub data ElementType : Type 0 where
  heading paragraph list list_item table image caption code_block page_break other : ElementType

pub data FragmentType : Type 0 where
  section paragraph list table code ocr other : FragmentType

pub record SplitterProfile : Type 0 where
  pub profile_id : Codes
  pub version : Codes
  pub sentence_boundary_backend : String
  pub min_chars : ℕ
  pub target_chars : ℕ
  pub soft_max_chars : ℕ
  pub hard_max_chars : ℕ
  pub target_words : ℕ
  pub soft_max_words : ℕ
  pub hard_max_words : ℕ
  pub target_sentences : ℕ
  pub hard_max_sentences : ℕ
  pub raw_text_overlap : Bool
  pub repeat_heading_context : Bool
  pub repeat_parent_headings : Bool
  pub repeat_table_header : Bool
  pub repeat_list_intro : Bool

unfoldable pub validate : SplitterProfile → Result (Unit {0})
validate p = do
  raise_if
      (not
        (str_eq p.sentence_boundary_backend "unicode" || str_eq p.sentence_boundary_backend "icu"))
      invalid_sentence_boundary_backend
  raise_if
      (not (
        ltb 0 p.min_chars
        && (leb p.min_chars p.target_chars
            && (leb p.target_chars p.soft_max_chars && leb p.soft_max_chars p.hard_max_chars))))
      invalid_char_limits
  raise_if
      (not (
        ltb 0 p.target_words
        && (leb p.target_words p.soft_max_words && leb p.soft_max_words p.hard_max_words)))
      invalid_word_limits
  raise_if (not (ltb 0 p.target_sentences && leb p.target_sentences p.hard_max_sentences))
      invalid_sentence_limits
  raise_if p.raw_text_overlap raw_text_overlap_not_supported

-- The fields of a NormalizedElement of normalization/model.py that the splitter reads. `geometry` is
-- its page number, and `rows` the entry "rows" of the structured data, if that is a list.
pub record NormalizedElement : Type 0 where
  pub source_element_id : String
  pub type : ElementType
  pub order_index : ℤ
  pub normalized_text : Option Codes
  pub level : Option ℤ
  pub geometry : Option (Option ℤ)
  pub language_hint : Option Codes
  pub role : Option Codes
  pub rows : Option (List (List Codes))
  pub suppressed_from_index : Bool

-- `_Unit`
pub record SplitUnit : Type 0 where
  pub text : Codes
  pub element_ids : List String
  pub element_type : ElementType
  pub hierarchy : List Codes
  pub page_from : Option ℤ
  pub page_to : Option ℤ
  pub language_hint : Option Codes
  pub sentence_count : ℕ
  pub word_count : ℕ
  pub word_guard_reliable : Bool
  pub continuation_index : ℕ
  pub synthetic_context : Codes
  pub forced : Bool
  pub role : Option Codes
  pub table_row_from : Option ℕ
  pub table_row_to : Option ℕ

-- What splitter/sentence.py gives the splitter, at the backend of its profile. The language hint
-- comes first.
pub record Boundaries : Type 0 where
  pub split_sentences : Option Codes → Codes → List Codes
  pub count_words : Option Codes → Codes → ℕ × Bool
  pub grapheme_clusters : Codes → List Codes

-- A loop that emits: each turn takes an item and the variables, and gives what it appends to the
-- list that the loop builds, with the new variables.
unfoldable pub run_loop {ℓ κ μ} :
    {S : Type ℓ} {A : Type κ} {B : Type μ}
    → (S → A → Result (List B × S))
    → S
    → List A
    → Result (List B × S)
run_loop step s [] = ok ([], s)
run_loop step s (a ∷ rest) =
    step s a >>= λ (out, s'). run_loop step s' rest >>= λ (more, s''). ok (out ++ more, s'')
