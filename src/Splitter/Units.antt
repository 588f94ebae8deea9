-- ===== src/Splitter/Units.antt =====
-- src/astra_indexator/splitter/service.py: `_text_units`, `_table_units` and the body of the loop of
-- `_iter_units`, which turn an element into units.
pub mod Kept
pub mod Bounds
use astra_indexator.Prelude.{
  ℕ, zero, suc, ◌+◌, ◌-◌, Bool, true, false, not, ◌&&◌, ◌||◌, List, [], ◌∷◌, ◌++◌, map, Option,
  none, some, String, length, ltb, max, if◌then◌else◌,
}
use astra_indexator.Prelude.Int.{ℤ, pos_part}
use astra_indexator.Text.{Codes, codes, is_empty, strip, ends_with}
use astra_indexator.Splitter.{
  Fault, Result, ok, err, ◌>>=◌, ElementType, heading, paragraph, list, list_item, table,
  SplitterProfile, NormalizedElement, SplitUnit, Boundaries, run_loop,
}
use astra_indexator.Splitter.Solid.{join}
use astra_indexator.Splitter.Chunks.{space, over_text, force_text_chunks}

-- The tests of an element's type.
abbrev pub is_heading : ElementType → Bool
is_heading heading = true
is_heading _ = false

abbrev pub is_paragraph : ElementType → Bool
is_paragraph paragraph = true
is_paragraph _ = false

abbrev pub is_list : ElementType → Bool
is_list list = true
is_list list_item = true
is_list _ = false

abbrev pub is_table : ElementType → Bool
is_table table = true
is_table _ = false

-- `element.geometry.page_number if element.geometry else None`
abbrev pub page_of : NormalizedElement → Option ℤ
page_of e = elim e.geometry [ none ↦ none | some page ↦ page ]

-- `(element.normalized_text or "").strip()`
unfoldable pub text_of : NormalizedElement → Codes
text_of e = elim e.normalized_text [ none ↦ [] | some text ↦ strip text ]

-- A chunk of `_text_units`: its text, the number of its sentences, and whether it was forced.
abbrev pub Chunk : Type 0
Chunk = Codes × ℕ × Bool

-- `emit_current`
abbrev pub emit_current : List Codes → ℕ → List Chunk
emit_current current n =
    if is_empty current then [] else (strip (join space current), n, false) ∷ []

-- A turn of the loop over the sentences; the variables are `current` and `current_sentence_count`.
unfoldable pub sentence_turn :
    SplitterProfile
    → Boundaries
    → Option Codes
    → List Codes × ℕ
    → Codes
    → Result (List Chunk × (List Codes × ℕ))
sentence_turn p b hint (current, n) sentence =
    let candidate = strip (join space (current ++ sentence ∷ [])) in
    if over_text p b hint sentence
    then force_text_chunks p b hint sentence >>= (λ pieces.
      ok (emit_current current n ++ map (λ (s : Codes). (s, 1, true)) pieces, ([], 0)))
    else if not (is_empty current)
        && (over_text p b hint candidate || ltb p.hard_max_sentences (n + 1))
    then ok (emit_current current n, (sentence ∷ [], 1))
    else ok ([], (current ++ sentence ∷ [], n + 1))

-- `split_sentences(…) or (text,)`
abbrev pub sentences_of : Boundaries → Option Codes → Codes → List Codes
sentences_of b hint text =
    if is_empty (b.split_sentences hint text) then text ∷ [] else b.split_sentences hint text

unfoldable pub text_chunks :
    SplitterProfile → Boundaries → Option Codes → Codes → Result (List Chunk)
unfolding sentence_turn
text_chunks p b hint text =
    run_loop (sentence_turn p b hint) ([], 0) (sentences_of b hint text)
    >>= λ (chunks, (current, n)). ok (chunks ++ emit_current current n)

abbrev pub text_unit :
    Boundaries → NormalizedElement → List Codes → Codes → Bool → ℕ → Chunk → SplitUnit
text_unit b e hierarchy context several index (text, sentence_count, forced) = record {
  text = text;
  element_ids = e.source_element_id ∷ [];
  element_type = e.type;
  hierarchy = hierarchy;
  page_from = page_of e;
  page_to = page_of e;
  language_hint = e.language_hint;
  sentence_count = sentence_count;
  word_count = (b.count_words e.language_hint text).0;
  word_guard_reliable = (b.count_words e.language_hint text).1;
  continuation_index = index;
  synthetic_context = context;
  forced = forced || several;
  role = e.role;
  table_row_from = none;
  table_row_to = none;
}

unfoldable pub number_chunks :
    Boundaries → NormalizedElement → List Codes → Codes → Bool → ℕ → List Chunk → List SplitUnit
number_chunks b e hierarchy context several index [] = []
number_chunks b e hierarchy context several index (chunk ∷ chunks) =
    text_unit b e hierarchy context several index chunk
    ∷ number_chunks b e hierarchy context several (suc index) chunks

unfoldable pub text_units :
    SplitterProfile
    → Boundaries
    → NormalizedElement
    → Codes
    → List Codes
    → Codes
    → Result (List SplitUnit)
unfolding text_chunks number_chunks
text_units p b e text hierarchy context = text_chunks p b e.language_hint text >>= λ chunks.
    ok (number_chunks b e hierarchy context (ltb 1 (length chunks)) 0 chunks)

abbrev pub tab : Codes
tab = 0x9 ∷ []

abbrev pub newline : Codes
newline = 0xa ∷ []

-- The variables of `_table_units`: `len(units)`, the group, and the index of the row.
pub record TableState : Type 0 where
  pub index : ℕ
  pub group_rows : List Codes
  pub group_start : ℕ
  pub row_index : ℕ

abbrev pub table_unit :
    SplitterProfile
    → Boundaries
    → NormalizedElement
    → List Codes
    → Codes
    → ℕ
    → Bool
    → ℕ
    → ℕ
    → Codes
    → SplitUnit
table_unit p b e hierarchy header index forced row_from row_to text = record {
  text = text;
  element_ids = e.source_element_id ∷ [];
  element_type = table;
  hierarchy = hierarchy;
  page_from = page_of e;
  page_to = page_of e;
  language_hint = e.language_hint;
  sentence_count = 0;
  word_count = (b.count_words e.language_hint text).0;
  word_guard_reliable = (b.count_words e.language_hint text).1;
  continuation_index = index;
  synthetic_context =
      if ltb 0 index && p.repeat_table_header
      then codes "TABLE HEADER" ++ (newline ++ header)
      else [];
  forced = forced;
  role = e.role;
  table_row_from = some row_from;
  table_row_to = some row_to;
}

module _ (p : SplitterProfile) (b : Boundaries) (e : NormalizedElement) (hierarchy : List Codes)
    (header : Codes) where
  -- `emit_group`. An empty group is not emitted, so that the last row of one is not below 0.
  abbrev pub emit_group : TableState → List SplitUnit
  emit_group s =
      if is_empty s.group_rows
      then []
      else table_unit p b e hierarchy header s.index (ltb 0 s.index) s.group_start (s.row_index - 1)
          (join newline s.group_rows)
        ∷ []

  unfoldable pub forced_units : ℕ → ℕ → List Codes → List SplitUnit
  forced_units row_index index [] = []
  forced_units row_index index (chunk ∷ chunks) =
      table_unit p b e hierarchy header index true row_index row_index chunk
      ∷ forced_units row_index (suc index) chunks

  -- A row that is too long: the group ends, and the row is cut into units of its own.
  abbrev pub forced_row : TableState → List Codes → List SplitUnit × TableState
  forced_row s chunks = (
    emit_group s ++ forced_units s.row_index (s.index + length (emit_group s)) chunks,
    record {
      index = s.index + length (emit_group s) + length chunks;
      group_rows = [];
      group_start = s.row_index + 1;
      row_index = s.row_index + 1;
    },
  )

  -- A row with which the group would be too long: the group ends before it.
  abbrev pub cut_row : TableState → Codes → List SplitUnit × TableState
  cut_row s rendered = (
    emit_group s,
    record {
      index = s.index + length (emit_group s);
      group_rows = rendered ∷ [];
      group_start = s.row_index;
      row_index = s.row_index + 1;
    },
  )

  abbrev pub joined_row : TableState → Codes → List SplitUnit × TableState
  joined_row s rendered = (
    [],
    record s {
      group_start = if is_empty s.group_rows then s.row_index else s.group_start;
      group_rows = s.group_rows ++ rendered ∷ [];
      row_index = s.row_index + 1;
    },
  )

  abbrev pub choose_row : Bool → Bool → TableState → Codes → Result (List SplitUnit × TableState)
  choose_row long full s rendered =
      if long
      then force_text_chunks p b e.language_hint rendered >>= (λ chunks. ok (forced_row s chunks))
      else if full
      then ok (cut_row s rendered)
      else ok (joined_row s rendered)

  -- A turn of the loop over the rows.
  unfoldable pub row_turn : TableState → Codes → Result (List SplitUnit × TableState)
  unfolding forced_units
  row_turn s rendered =
      choose_row (over_text p b e.language_hint rendered)
        (not (is_empty s.group_rows)
          && over_text p b e.language_hint (join newline (s.group_rows ++ rendered ∷ [])))
        s rendered

abbrev pub first_state : TableState
first_state = record { index = 0; group_rows = []; group_start = 0; row_index = 0 }

-- `row_text`
abbrev pub row_text : List Codes → Codes
row_text row = join tab row

unfoldable pub table_rows :
    SplitterProfile
    → Boundaries
    → NormalizedElement
    → List Codes
    → List (List Codes)
    → Result (List SplitUnit)
unfolding row_turn
table_rows p b e hierarchy [] = ok []
table_rows p b e hierarchy (row ∷ rows) =
    run_loop (row_turn p b e hierarchy (row_text row)) first_state (map row_text (row ∷ rows))
    >>= λ (units, s). ok (units ++ emit_group p b e hierarchy (row_text row) s)

-- The units of the text of an element, if it has one.
abbrev pub plain_units :
    SplitterProfile → Boundaries → NormalizedElement → List Codes → Codes → Result (List SplitUnit)
plain_units p b e hierarchy context =
    if is_empty (text_of e) then ok [] else text_units p b e (text_of e) hierarchy context

abbrev pub units_of_rows :
    SplitterProfile
    → Boundaries
    → NormalizedElement
    → List Codes
    → Option (List (List Codes))
    → Result (List SplitUnit)
units_of_rows p b e hierarchy none = plain_units p b e hierarchy []
units_of_rows p b e hierarchy (some []) = plain_units p b e hierarchy []
units_of_rows p b e hierarchy (some (row ∷ rows)) = table_rows p b e hierarchy (row ∷ rows)

unfoldable pub table_units :
    SplitterProfile → Boundaries → NormalizedElement → List Codes → Result (List SplitUnit)
table_units p b e hierarchy = units_of_rows p b e hierarchy e.rows

-- `hierarchy[:n]`
unfoldable pub first : ℕ → List Codes → List Codes
first zero h = []
first (suc n) [] = []
first (suc n) (s ∷ h) = s ∷ first n h

-- `max(1, element.level or 1)`
abbrev pub level_of : NormalizedElement → ℕ
level_of e = elim e.level [ none ↦ 1 | some level ↦ max 1 (pos_part level) ]

-- The variables of `_iter_units`: `hierarchy` and `list_intro`.
abbrev pub Outline : Type 0
Outline = List Codes × Option Codes

unfoldable pub hierarchy_after : NormalizedElement → List Codes → List Codes
hierarchy_after e hierarchy =
    if is_heading e.type && not (is_empty (text_of e))
    then first (level_of e - 1) hierarchy ++ text_of e ∷ []
    else hierarchy

unfoldable pub intro_after : NormalizedElement → Option Codes → Option Codes
intro_after e intro =
    if is_empty (text_of e)
    then intro
    else if is_paragraph e.type && ends_with (codes ":") (text_of e)
    then some (text_of e)
    else if not (is_list e.type)
    then none
    else intro

unfoldable pub list_context : SplitterProfile → NormalizedElement → Option Codes → Codes
list_context p e intro =
    if p.repeat_list_intro && is_list e.type
    then elim intro [ none ↦ [] | some text ↦ text ]
    else []

-- A turn of the loop of `_iter_units`, with the units that it yields.
unfoldable pub element_turn :
    SplitterProfile → Boundaries → Outline → NormalizedElement → Result (List SplitUnit × Outline)
element_turn p b (hierarchy, intro) e =
    if e.suppressed_from_index
    then ok ([], (hierarchy, intro))
    else if is_table e.type
    then table_units p b e (hierarchy_after e hierarchy)
      >>= (λ units. ok (units, (hierarchy_after e hierarchy, none)))
    else plain_units p b e (hierarchy_after e hierarchy) (list_context p e (intro_after e intro))
      >>= (λ units. ok (units, (hierarchy_after e hierarchy, intro_after e intro)))
