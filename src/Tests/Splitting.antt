-- ===== src/Tests/Splitting.antt =====
-- A small document that is split, and a text that cannot be.
use astra_indexator.Prelude.{
  suc, ℕ, ◌+◌, ◌≡◌, refl, ap, arith, true, false, ◌||◌, List, [], ◌∷◌, ◌++◌, map, none, some,
  length, ◌==◌, All, if◌then◌else◌,
}
use astra_indexator.Prelude.Int.{pos}
use astra_indexator.Text.{
  Codes, codes, in_range, is_space, lstrip, strip, codes_eq, starts_with, contains, ends_with,
  upper, lower,
}
use astra_indexator.Splitter.Chunks.{
  cluster_turn, grapheme_bounded_chunks, word_turn, force_text_chunks,
}
use astra_indexator.Splitter.Units.{
  text_of, sentence_turn, text_chunks, number_chunks, text_units, forced_units, row_turn,
  table_rows, table_units, first, hierarchy_after, intro_after, list_context, element_turn,
}
use astra_indexator.Splitter.Groups.{
  text_of_units, word_sum, sentence_sum, reliable, small_exception, hierarchy_eq, parent_of,
  compatible_small_merge, ids_eq, at_safe_boundary, at_strong_boundary, flush, place, ends_section,
  unit_turn, settle_group, consolidate_from, consolidate_small_groups,
}
use astra_indexator.Splitter.Sentence.Profiles.{
  profile_of, dashes, names_several, primary_language_of, profile_for, locale_id,
}
use astra_indexator.Tests.Ascii.{ascii, ascii_lower}
use astra_indexator.Splitter
use astra_indexator.Splitter.{
  ok, err, ElementType, SplitterProfile, NormalizedElement, Boundaries, validate,
  unit_exceeds_hard_guard, run_loop,
}
use astra_indexator.Splitter.Loop.{Ensures, flat_map}
use astra_indexator.Splitter.Solid.{split_words, solid, join_tail, join, split_from}
use astra_indexator.Splitter.Fragments.{
  NormalizedDocument, LogicalFragment, split, sorted_elements, digits, str_of_ℕ, without_seen,
  without_repeats, first_of, is_kazakh, is_cyrillic, is_latin, before_dash, detected_languages,
  languages_of, fragment_type_of, hierarchy_context, context_prefix_of, normalized_text_of,
  source_of, continuation_of, profile_config_hash, identity_payload, make_fragment, make_fragments,
  check_fragments, insert_element, document_turn, groups_of,
}
use astra_indexator.Splitter.Fragments.Safe.{split-Safe, FragmentWithin, Numbered, Raisable}
use astra_indexator.Splitter.Fragments.Kept.{fragment_solid}
use astra_indexator.Splitter.Units.Kept.{element_solid, IsFaithful}
use astra_indexator.Splitter.Units.Bounds.{UnitFits, ElementFault, element_turn-Fits}
use astra_indexator.Splitter.Sentence.Fuel.{split_unicode-fuel}
use astra_indexator.Splitter.Sentence.Kept.{unicode_boundaries-IsFaithful}
use astra_indexator.Splitter.Sentence.{
  Unicode, Icu, unicode_boundaries, split_unicode, count_while, take_while, drop_while, is_closer,
  is_sentence_terminal, previous_token, next_lexical_char, abbreviation_is_protected,
  single_letter_before, count_char, period_is_protected, looks_like_reporting_continuation,
  ellipsis_is_terminal, terminal_move, move_at, unicode_loop, pieces, split_icu, count_tokens,
  boundaries_for,
}
use astra_indexator.Splitter.Service.{logical_split, logical_split-Holds}
use astra_indexator.Splitter.Service.LongToken.{split-long_token}

-- Words are runs without white space, and each character is a cluster.
abbrev ascii_unicode : Unicode
ascii_unicode = record {
  closes = λ c. c == 0x29;
  opens = λ c. c == 0x28;
  sentence_terminal = λ c. c == 0x21 || c == 0x3f;
  is_alnum = λ c. in_range 0x30 0x39 c || (in_range 0x41 0x5a c || in_range 0x61 0x7a c);
  is_alpha = λ c. in_range 0x41 0x5a c || in_range 0x61 0x7a c;
  is_upper = in_range 0x41 0x5a;
  is_lower = in_range 0x61 0x7a;
  letter_or_mark = λ c. in_range 0x41 0x5a c || in_range 0x61 0x7a c;
  casefold = flat_map ascii_lower;
  wordlike = λ s. length (split_words s);
  complex_script = λ _. false;
  graphemes = map (λ (c : ℕ). c ∷ []);
}

joined : (s : Codes) → flat_map (λ c. c) (map (λ (c : ℕ). c ∷ []) s) ≡ s
unfolding flat_map
joined [] = refl
joined (c ∷ cs) = ap (λ (l : Codes). c ∷ l) (joined cs)

-- ICU that finds one sentence.
abbrev one_piece : Icu
one_piece = record {
  sentence_ends = λ _ s. length s ∷ [];
  word_ends = λ _ s. length s ∷ [];
  letter_or_digit = λ c. in_range 0x61 0x7a c;
}

abbrev small_profile : SplitterProfile
small_profile = record {
  profile_id = codes "small";
  version = codes "v1";
  sentence_boundary_backend = "unicode";
  min_chars = 2;
  target_chars = 8;
  soft_max_chars = 12;
  hard_max_chars = 16;
  target_words = 4;
  soft_max_words = 6;
  hard_max_words = 8;
  target_sentences = 2;
  hard_max_sentences = 3;
  raw_text_overlap = false;
  repeat_heading_context = true;
  repeat_parent_headings = true;
  repeat_table_header = true;
  repeat_list_intro = true;
}

abbrev text_element : ElementType → ℕ → Codes → NormalizedElement
text_element type index text = record {
  source_element_id = "e";
  type = type;
  order_index = pos index;
  normalized_text = some text;
  level = some (pos 1);
  geometry = none;
  language_hint = some (codes "en");
  role = none;
  rows = none;
  suppressed_from_index = false;
}

abbrev document_of : List NormalizedElement → NormalizedDocument
document_of elements = record {
  document_id = codes "d";
  document_version = 1;
  normalizer_profile = codes "n";
  normalizer_version = codes "v";
  processing_fingerprint = codes "f";
  elements = elements;
}

-- A paragraph of two sentences that comes after its heading, and is longer than a fragment.
abbrev rules : NormalizedDocument
rules = document_of (
    text_element ElementType.paragraph 2 (codes "Pay it now. Do not wait.")
    ∷ text_element ElementType.heading 1 (codes "Law")
    ∷ [])

abbrev same_text : Codes → Codes
same_text s = s

abbrev no_json : SplitterProfile → Codes
no_json p = []

abbrev fragments_in : Splitter.Result (List LogicalFragment) → List LogicalFragment
fragments_in (ok fs) = fs
fragments_in (err e) = []

abbrev rule_fragments : List LogicalFragment
rule_fragments =
    fragments_in (logical_split ascii ascii_unicode one_piece same_text no_json small_profile rules)

abbrev rule_texts : List Codes
rule_texts = map (λ (f : LogicalFragment). f.normalized_text) rule_fragments

rule_texts_lem : rule_texts ≡ (codes "Law" ++ 0xa ∷ codes "Pay it now.") ∷ codes "Do not wait." ∷ []
unfolding validate run_loop solid join_tail join split_from split_words cluster_turn
    grapheme_bounded_chunks word_turn force_text_chunks text_of sentence_turn text_chunks
    number_chunks text_units forced_units row_turn table_rows table_units first hierarchy_after
    intro_after list_context element_turn text_of_units word_sum sentence_sum reliable
    small_exception hierarchy_eq parent_of compatible_small_merge ids_eq at_safe_boundary
    at_strong_boundary flush place ends_section unit_turn settle_group consolidate_from
    consolidate_small_groups digits str_of_ℕ without_seen without_repeats first_of is_kazakh
    is_cyrillic is_latin before_dash detected_languages languages_of fragment_type_of
    hierarchy_context context_prefix_of normalized_text_of source_of continuation_of
    profile_config_hash identity_payload make_fragment make_fragments check_fragments insert_element
    sorted_elements document_turn groups_of split count_while take_while drop_while is_closer
    is_sentence_terminal previous_token next_lexical_char abbreviation_is_protected
    single_letter_before count_char period_is_protected looks_like_reporting_continuation
    ellipsis_is_terminal terminal_move move_at unicode_loop split_unicode pieces split_icu
    count_tokens boundaries_for profile_of dashes names_several primary_language_of profile_for
    locale_id logical_split is_space lstrip strip codes_eq starts_with contains ends_with upper
    lower flat_map
rule_texts_lem = refl

logical_split-Holds_example :
    flat_map fragment_solid rule_fragments ≡ flat_map element_solid (sorted_elements rules.elements)
unfolding validate run_loop solid join_tail join split_from split_words cluster_turn
    grapheme_bounded_chunks word_turn force_text_chunks text_of sentence_turn text_chunks
    number_chunks text_units forced_units row_turn table_rows table_units first hierarchy_after
    intro_after list_context element_turn text_of_units word_sum sentence_sum reliable
    small_exception hierarchy_eq parent_of compatible_small_merge ids_eq at_safe_boundary
    at_strong_boundary flush place ends_section unit_turn settle_group consolidate_from
    consolidate_small_groups digits str_of_ℕ without_seen without_repeats first_of is_kazakh
    is_cyrillic is_latin before_dash detected_languages languages_of fragment_type_of
    hierarchy_context context_prefix_of normalized_text_of source_of continuation_of
    profile_config_hash identity_payload make_fragment make_fragments check_fragments insert_element
    sorted_elements document_turn groups_of split count_while take_while drop_while is_closer
    is_sentence_terminal previous_token next_lexical_char abbreviation_is_protected
    single_letter_before count_char period_is_protected looks_like_reporting_continuation
    ellipsis_is_terminal terminal_move move_at unicode_loop split_unicode pieces split_icu
    count_tokens boundaries_for profile_of dashes names_several primary_language_of profile_for
    locale_id logical_split is_space lstrip strip codes_eq starts_with contains ends_with upper
    lower flat_map
logical_split-Holds_example =
    logical_split-Holds ascii ascii_unicode one_piece same_text no_json joined
      (λ locale text. (omega arith, omega arith)) small_profile rules rule_fragments refl

split-Safe_example :
    Ensures
      (λ fragments. All (FragmentWithin small_profile) fragments × Numbered 0 fragments)
      (Raisable small_profile (unicode_boundaries ascii ascii_unicode) rules)
      (split ascii same_text no_json small_profile (unicode_boundaries ascii ascii_unicode) rules)
split-Safe_example =
    split-Safe ascii same_text no_json small_profile rules (unicode_boundaries ascii ascii_unicode)
      (unfold validate in refl)

element_turn-Fits_example :
    Ensures
      (λ r. All (UnitFits small_profile (unicode_boundaries ascii ascii_unicode) (omega arith)) r.0)
      (ElementFault small_profile
        (unicode_boundaries ascii ascii_unicode)
        (text_element ElementType.paragraph 2 (codes "Pay it now. Do not wait.")))
      (element_turn small_profile
        (unicode_boundaries ascii ascii_unicode)
        ([], none)
        (text_element ElementType.paragraph 2 (codes "Pay it now. Do not wait.")))
element_turn-Fits_example =
    element_turn-Fits small_profile (unicode_boundaries ascii ascii_unicode) (omega arith)
      (text_element ElementType.paragraph 2 (codes "Pay it now. Do not wait.")) ([], none)

split_unicode-fuel_example :
    unicode_loop ascii ascii_unicode
      (profile_for ascii (codes "en"))
      (primary_language_of ascii (codes "en"))
      (codes "Pay. Wait.")
      (suc (length (codes "Pay. Wait.") + 5))
      0
      0
    ≡ some (split_unicode ascii ascii_unicode (codes "Pay. Wait.") (codes "en"))
split_unicode-fuel_example =
    split_unicode-fuel ascii ascii_unicode (codes "Pay. Wait.") (codes "en") 5

unicode_boundaries-IsFaithful_example : IsFaithful (unicode_boundaries ascii ascii_unicode)
unicode_boundaries-IsFaithful_example = unicode_boundaries-IsFaithful ascii ascii_unicode joined

-- Numbers are words, and a slash ends one.
abbrev number_unicode : Unicode
number_unicode = record ascii_unicode {
  wordlike = λ s. length (flat_map (λ (c : ℕ). if in_range 0x30 0x39 c then c ∷ [] else []) s);
}

abbrev few_words : SplitterProfile
few_words = record small_profile { target_words = 2; soft_max_words = 3; hard_max_words = 4 }

abbrev numbers : NormalizedElement
numbers = text_element ElementType.paragraph 1 (codes "1/2/3/4/5")

split-long_token_example :
    split ascii same_text no_json few_words
      (unicode_boundaries ascii number_unicode)
      (document_of (numbers ∷ []))
    ≡ err unit_exceeds_hard_guard
unfolding validate run_loop solid join_tail join split_from split_words cluster_turn
    grapheme_bounded_chunks word_turn force_text_chunks text_of sentence_turn text_chunks
    number_chunks text_units forced_units row_turn table_rows table_units first hierarchy_after
    intro_after list_context element_turn text_of_units word_sum sentence_sum reliable
    small_exception hierarchy_eq parent_of compatible_small_merge ids_eq at_safe_boundary
    at_strong_boundary flush place ends_section unit_turn settle_group consolidate_from
    consolidate_small_groups digits str_of_ℕ without_seen without_repeats first_of is_kazakh
    is_cyrillic is_latin before_dash detected_languages languages_of fragment_type_of
    hierarchy_context context_prefix_of normalized_text_of source_of continuation_of
    profile_config_hash identity_payload make_fragment make_fragments check_fragments insert_element
    sorted_elements document_turn groups_of split count_while take_while drop_while is_closer
    is_sentence_terminal previous_token next_lexical_char abbreviation_is_protected
    single_letter_before count_char period_is_protected looks_like_reporting_continuation
    ellipsis_is_terminal terminal_move move_at unicode_loop split_unicode pieces split_icu
    count_tokens boundaries_for profile_of dashes names_several primary_language_of profile_for
    locale_id logical_split is_space lstrip strip codes_eq starts_with contains ends_with upper
    lower flat_map
split-long_token_example =
    split-long_token ascii few_words (unicode_boundaries ascii number_unicode) numbers b'1'
      (codes "/2/3/4/5") 5 refl (omega arith) refl refl (omega arith) same_text no_json
      (document_of (numbers ∷ [])) refl refl refl refl
