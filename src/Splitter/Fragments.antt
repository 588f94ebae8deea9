-- ===== src/Splitter/Fragments.antt =====
-- src/astra_indexator/splitter/service.py: `_make_fragment`, `_fragment_type`, `_languages` and `split`.
-- SHA-256 over the UTF-8 bytes of a text and the JSON of the profile are the standard library's: they
-- are parameters.
pub mod Safe
pub mod Kept
use astra_indexator.Prelude.{
  ℕ, zero, suc, ◌+◌, ◌-◌, ◌/◌, ◌%◌, Bool, true, false, not, ◌&&◌, ◌||◌, List, [], ◌∷◌, ◌++◌, map,
  Option, none, some, String, length, any, all, ltb, leb, ◌==◌, str_eq, if◌then◌else◌,
}
use astra_indexator.Prelude.Int.{ℤ, ltb_ℤ}
use astra_indexator.Text.{
  Codes, CaseTable, codes, codes_eq, contains, in_range, is_empty, strip, lower,
}
use astra_indexator.Splitter.{
  Fault, Result, ok, err, ◌>>=◌, ◌>>◌, raise_if, ElementType, table, code_block, paragraph,
  FragmentType, SplitterProfile, NormalizedElement, SplitUnit, Boundaries, run_loop,
  fragment_exceeds_chars, fragment_exceeds_sentences, fragment_exceeds_words,
}
use astra_indexator.Splitter.Loop.{flat_map}
use astra_indexator.Splitter.Solid.{join}
use astra_indexator.Splitter.Units.{
  newline, Outline, element_turn, is_heading, is_paragraph, is_list, is_table,
}
use astra_indexator.Splitter.Groups.{
  Group, text_of_units, word_sum, sentence_sum, reliable, parent_of, flush, unit_turn,
  consolidate_small_groups,
}

pub record FragmentStatistics : Type 0 where
  pub char_count : ℕ
  pub word_count : ℕ
  pub sentence_count : ℕ

pub record SplitDecision : Type 0 where
  pub reason : String
  pub forced : Bool
  pub profile : Codes
  pub splitter_version : Codes
  pub continuation_index : ℕ

pub record FragmentSource : Type 0 where
  pub element_ids : List String
  pub element_from : Option String
  pub element_to : Option String
  pub page_from : Option ℤ
  pub page_to : Option ℤ
  pub table_row_from : Option ℕ
  pub table_row_to : Option ℕ

-- `metadata` of a fragment.
pub record FragmentMetadata : Type 0 where
  pub splitter_profile_config_hash : Codes
  pub roles : List Codes
  pub sentence_boundary_backend : String
  pub word_count_reliable : Bool

pub record LogicalFragment : Type 0 where
  pub fragment_id : Codes
  pub document_id : Codes
  pub document_version : ℕ
  pub sequence : ℕ
  pub fragment_type : FragmentType
  pub normalized_text : Codes
  pub context_prefix : Codes
  pub hierarchy : List Codes
  pub source : FragmentSource
  pub statistics : FragmentStatistics
  pub decision : SplitDecision
  pub primary_language : Codes
  pub languages : List Codes
  pub mixed_language : Bool
  pub metadata : FragmentMetadata

-- The fields of a NormalizedDocument that the splitter reads; the identifier is `str(document_id)`.
pub record NormalizedDocument : Type 0 where
  pub document_id : Codes
  pub document_version : ℕ
  pub normalizer_profile : Codes
  pub normalizer_version : Codes
  pub processing_fingerprint : Codes
  pub elements : List NormalizedElement

-- `str(n)`, with fuel for its digits.
unfoldable pub digits : ℕ → ℕ → Codes
digits zero n = []
digits (suc fuel) n =
    let before = digits fuel (n / 10) in
    if ltb n 10 then (48 + n) ∷ [] else before ++ (48 + n % 10) ∷ []

unfoldable pub str_of_ℕ : ℕ → Codes
unfolding digits
str_of_ℕ n = digits (suc n) n

-- The items of a list without repetitions, each at its first place.
unfoldable pub without_seen {ℓ} : {A : Type ℓ} → (A → A → Bool) → List A → List A → List A
without_seen same seen [] = []
without_seen same seen (x ∷ xs) = elim (any (same x) seen) [
  | true ↦ without_seen same seen xs
  | false ↦ x ∷ without_seen same (x ∷ seen) xs
]

unfoldable pub without_repeats {ℓ} : {A : Type ℓ} → (A → A → Bool) → List A → List A
unfolding without_seen
without_repeats same xs = without_seen same [] xs

-- `min` and `max` of a list, if it has items: the first item before which none goes.
unfoldable pub first_of {ℓ} : {A : Type ℓ} → (A → A → Bool) → List A → Option A
first_of before [] = none
first_of before (x ∷ xs) = elim (first_of before xs) [
  | none ↦ some x
  | some y ↦ some (if before y x then y else x)
]

abbrev pub head_of {ℓ} : {A : Type ℓ} → List A → Option A
head_of [] = none
head_of (x ∷ _) = some x

abbrev pub last_of {ℓ} : {A : Type ℓ} → List A → Option A
last_of [] = none
last_of (x ∷ []) = some x
last_of (x ∷ y ∷ ys) = last_of (y ∷ ys)

abbrev pub present {ℓ} : {A : Type ℓ} → Option A → List A
present none = []
present (some a) = a ∷ []

abbrev pub nonempty : Codes → List Codes
nonempty s = if is_empty s then [] else s ∷ []

-- `_languages`
abbrev pub kazakh_letters : Codes
kazakh_letters = codes "ӘәҒғҚқҢңӨөҰұҮүҺһІі"

unfoldable pub is_kazakh : ℕ → Bool
is_kazakh c = any (λ (k : ℕ). c == k) kazakh_letters

unfoldable pub is_cyrillic : ℕ → Bool
unfolding is_kazakh
is_cyrillic c = in_range 0x410 0x44f c || (c == 0x401 || (c == 0x451 || is_kazakh c))

unfoldable pub is_latin : ℕ → Bool
is_latin c = in_range 0x41 0x5a c || in_range 0x61 0x7a c

-- `value.split("-", 1)[0]`
unfoldable pub before_dash : Codes → Codes
before_dash [] = []
before_dash (c ∷ cs) = let rest = before_dash cs in if c == 0x2d then [] else c ∷ rest

abbrev pub hint_of : CaseTable → SplitUnit → List Codes
hint_of t u = elim u.language_hint [
  | none ↦ []
  | some hint ↦ if is_empty hint then [] else before_dash (lower t hint) ∷ []
]

unfoldable pub detected_languages : Codes → List Codes
unfolding is_kazakh is_cyrillic is_latin
detected_languages text =
    (if any is_kazakh text
      then codes "kk" ∷ []
      else if any is_cyrillic text
      then codes "ru" ∷ []
      else [])
    ++ (if any is_latin text then codes "en" ∷ [] else [])

abbrev pub or_undetermined : List Codes → List Codes
or_undetermined [] = codes "und" ∷ []
or_undetermined (l ∷ ls) = l ∷ ls

unfoldable pub languages_of : CaseTable → List SplitUnit → Codes → List Codes
unfolding without_repeats before_dash detected_languages
languages_of t units text =
    let hints = without_repeats codes_eq (flat_map (hint_of t) units) in
    if is_empty hints then or_undetermined (detected_languages text) else hints

abbrev pub is_code : ElementType → Bool
is_code code_block = true
is_code _ = false

abbrev pub all_types : (ElementType → Bool) → List SplitUnit → Bool
all_types test units = all (λ (u : SplitUnit). test u.element_type) units

-- `_fragment_type`
unfoldable pub fragment_type_of : List SplitUnit → FragmentType
fragment_type_of units =
    if all_types is_table units
    then FragmentType.table
    else if all_types is_list units
    then FragmentType.list
    else if all_types is_code units
    then FragmentType.code
    else if any (λ (u : SplitUnit). is_heading u.element_type) units
    then FragmentType.section
    else if all_types is_paragraph units
    then FragmentType.paragraph
    else FragmentType.other

abbrev pub hierarchy_of : List SplitUnit → List Codes
hierarchy_of [] = []
hierarchy_of (u ∷ []) = u.hierarchy
hierarchy_of (u ∷ v ∷ us) = hierarchy_of (v ∷ us)

abbrev pub begins_with_heading : List SplitUnit → Bool
begins_with_heading [] = false
begins_with_heading (u ∷ us) = is_heading u.element_type

-- The headings that are repeated before a fragment.
unfoldable pub hierarchy_context : SplitterProfile → List SplitUnit → List Codes
hierarchy_context p units =
    let candidate =
      if begins_with_heading units then parent_of (hierarchy_of units) else hierarchy_of units in
    if not (p.repeat_heading_context && not (is_empty (hierarchy_of units)))
    then []
    else if p.repeat_parent_headings
    then candidate
    else present (last_of candidate)

abbrev pub context_of : Codes → SplitUnit → List Codes
context_of text u =
    if not (is_empty u.synthetic_context) && not (contains u.synthetic_context text)
    then u.synthetic_context ∷ []
    else []

unfoldable pub context_prefix_of : SplitterProfile → List SplitUnit → Codes → Codes
unfolding hierarchy_context without_repeats
context_prefix_of p units text = join newline (
    without_repeats codes_eq
      (flat_map nonempty (hierarchy_context p units ++ flat_map (context_of text) units)))

abbrev pub role_of : SplitUnit → List Codes
role_of u = elim u.role [ none ↦ [] | some role ↦ nonempty role ]

abbrev pub pages_of : SplitUnit → List ℤ
pages_of u = present u.page_from ++ present u.page_to

unfoldable pub normalized_text_of : List SplitUnit → Codes
normalized_text_of units = strip (text_of_units units)

unfoldable pub source_of : List SplitUnit → FragmentSource
unfolding without_repeats first_of
source_of units = record {
  element_ids = without_repeats str_eq (flat_map (λ (u : SplitUnit). u.element_ids) units);
  element_from =
      head_of (without_repeats str_eq (flat_map (λ (u : SplitUnit). u.element_ids) units));
  element_to = last_of (without_repeats str_eq (flat_map (λ (u : SplitUnit). u.element_ids) units));
  page_from = first_of ltb_ℤ (flat_map pages_of units);
  page_to = first_of (λ a b. ltb_ℤ b a) (flat_map pages_of units);
  table_row_from = first_of ltb (flat_map (λ (u : SplitUnit). present u.table_row_from) units);
  table_row_to =
      first_of (λ a b. ltb b a) (flat_map (λ (u : SplitUnit). present u.table_row_to) units);
}

abbrev pub or_zero : Option ℕ → ℕ
or_zero none = 0
or_zero (some n) = n

unfoldable pub continuation_of : List SplitUnit → ℕ
unfolding first_of
continuation_of units =
    or_zero (first_of (λ a b. ltb b a) (map (λ (u : SplitUnit). u.continuation_index) units))

abbrev pub fragment_type_value : FragmentType → Codes
fragment_type_value FragmentType.section = codes "SECTION"
fragment_type_value FragmentType.paragraph = codes "PARAGRAPH"
fragment_type_value FragmentType.list = codes "LIST"
fragment_type_value FragmentType.table = codes "TABLE"
fragment_type_value FragmentType.code = codes "CODE"
fragment_type_value FragmentType.ocr = codes "OCR"
fragment_type_value FragmentType.other = codes "OTHER"

abbrev pub str_of_option : Option ℕ → Codes
str_of_option none = []
str_of_option (some n) = str_of_ℕ n

module _ (t : CaseTable) (sha256_hex : Codes → Codes) (profile_json : SplitterProfile → Codes)
    (p : SplitterProfile) (document : NormalizedDocument) where
  unfoldable pub profile_config_hash : Codes
  profile_config_hash = sha256_hex (profile_json p)

  unfoldable pub identity_payload : List SplitUnit → Codes
  identity_payload units = join (0x1f ∷ []) (
      document.document_id
      ∷ str_of_ℕ document.document_version
      ∷ join (codes ",") (map codes (source_of units).element_ids)
      ∷ sha256_hex (normalized_text_of units)
      ∷ document.processing_fingerprint
      ∷ document.normalizer_version
      ∷ document.normalizer_profile
      ∷ p.version
      ∷ p.profile_id
      ∷ profile_config_hash
      ∷ codes p.sentence_boundary_backend
      ∷ fragment_type_value (fragment_type_of units)
      ∷ str_of_ℕ (continuation_of units)
      ∷ str_of_option (source_of units).table_row_from
      ∷ str_of_option (source_of units).table_row_to
      ∷ [])

  abbrev pub final_forced : Group → Bool
  final_forced g = g.forced || any (λ (u : SplitUnit). u.forced) g.units

  abbrev pub primary_of : List Codes → Codes
  primary_of [] = codes "und"
  primary_of (l ∷ ls) = l

  unfoldable pub make_fragment : ℕ → Group → LogicalFragment
  make_fragment sequence g = record {
    fragment_id = sha256_hex (identity_payload g.units);
    document_id = document.document_id;
    document_version = document.document_version;
    sequence = sequence;
    fragment_type = fragment_type_of g.units;
    normalized_text = normalized_text_of g.units;
    context_prefix = context_prefix_of p g.units (normalized_text_of g.units);
    hierarchy = hierarchy_of g.units;
    source = source_of g.units;
    statistics = record {
      char_count = length (normalized_text_of g.units);
      word_count = word_sum g.units;
      sentence_count = sentence_sum g.units;
    };
    decision = record {
      reason = if final_forced g then "FORCED_SPLIT" else g.reason;
      forced = final_forced g;
      profile = p.profile_id;
      splitter_version = p.version;
      continuation_index = continuation_of g.units;
    };
    primary_language = primary_of (languages_of t g.units (normalized_text_of g.units));
    languages = languages_of t g.units (normalized_text_of g.units);
    mixed_language = ltb 1 (length (languages_of t g.units (normalized_text_of g.units)));
    metadata = record {
      splitter_profile_config_hash = profile_config_hash;
      roles = without_repeats codes_eq (flat_map role_of g.units);
      sentence_boundary_backend = p.sentence_boundary_backend;
      word_count_reliable = reliable g.units;
    };
  }

  unfoldable pub make_fragments : ℕ → List Group → List LogicalFragment
  make_fragments sequence [] = []
  make_fragments sequence (g ∷ gs) = make_fragment sequence g ∷ make_fragments (suc sequence) gs

  -- The checks of the last loop of `split`.
  unfoldable pub check_fragments : List LogicalFragment → Result (Unit {0})
  check_fragments [] = ok tt
  check_fragments (f ∷ fs) = do
    raise_if (ltb p.hard_max_chars f.statistics.char_count) fragment_exceeds_chars
    raise_if (ltb p.hard_max_sentences f.statistics.sentence_count) fragment_exceeds_sentences
    raise_if (f.metadata.word_count_reliable && ltb p.hard_max_words f.statistics.word_count)
        fragment_exceeds_words
    check_fragments fs

-- `sorted(document.elements, key=…order_index)`, which is stable.
unfoldable pub insert_element : NormalizedElement → List NormalizedElement → List NormalizedElement
insert_element e [] = e ∷ []
insert_element e (f ∷ fs) =
    let rest = insert_element e fs in
    if ltb_ℤ f.order_index e.order_index then f ∷ rest else e ∷ f ∷ fs

unfoldable pub sorted_elements : List NormalizedElement → List NormalizedElement
unfolding insert_element
sorted_elements [] = []
sorted_elements (e ∷ es) = insert_element e (sorted_elements es)

-- A turn of `for unit in self._iter_units(document)` for the units of one element.
unfoldable pub document_turn :
    CaseTable
    → SplitterProfile
    → Boundaries
    → Outline × List SplitUnit
    → NormalizedElement
    → Result (List Group × (Outline × List SplitUnit))
document_turn t p b (outline, buffer) e = element_turn p b outline e >>= λ (units, outline').
    run_loop (unit_turn t p) buffer units >>= λ (groups, buffer'). ok (groups, (outline', buffer'))

unfoldable pub groups_of :
    CaseTable → SplitterProfile → Boundaries → NormalizedDocument → Result (List Group)
groups_of t p b document =
    run_loop (document_turn t p b) (([], none), []) (sorted_elements document.elements)
    >>= λ (groups, (_, buffer)). flush t p buffer "DOCUMENT_END" false >>= λ last.
        ok (consolidate_small_groups t p (groups ++ last))

unfoldable pub split :
    CaseTable
    → (Codes → Codes)
    → (SplitterProfile → Codes)
    → SplitterProfile
    → Boundaries
    → NormalizedDocument
    → Result (List LogicalFragment)
split t sha256_hex profile_json p b document = groups_of t p b document >>= λ groups.
    check_fragments t sha256_hex profile_json p document
      (make_fragments t sha256_hex profile_json p document 0 groups)
    >>= λ _. ok (make_fragments t sha256_hex profile_json p document 0 groups)
