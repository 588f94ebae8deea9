-- ===== src/Splitter/Units/Kept.antt =====
-- The units of an element hold its text up to white space: nothing is lost, repeated or reordered.
use mathlib.Core.List.{append-nil}
use astra_indexator.Prelude.{
  ℕ, suc, ◌+◌, ◌-◌, ◌≡◌, refl, ap, sym, subst, ◌∙◌, Bool, true, false, not, ◌&&◌, ◌||◌, List, [],
  ◌∷◌, ◌++◌, map, Option, none, some, length, ltb, if◌then◌else◌,
}
use astra_indexator.Text.{Codes, is_empty, is_space, strip}
use astra_indexator.Splitter.{
  Result, ok, ◌>>=◌, SplitterProfile, NormalizedElement, SplitUnit, Boundaries, run_loop,
}
use astra_indexator.Splitter.Loop.{
  Ensures, >>=-Ensures, flat_map, flat_map_nil, flat_map_one, flat_map-append, flat_map-map,
  run_loop-Passes, Passes,
}
use astra_indexator.Splitter.Solid.{
  solid, solid_all, solid_all_snoc, solid_all_one, solid_all_nil, solid-join, solid-strip, join,
}
use astra_indexator.Splitter.Chunks.{space, over_text, force_text_chunks}
use astra_indexator.Splitter.Chunks.Kept.{force_text_chunks-Holds, solid-space, solid-nil}
use astra_indexator.Splitter.Units.{
  Chunk, emit_current, sentence_turn, sentences_of, text_chunks, number_chunks, text_units, newline,
  tab, TableState, table_unit, emit_group, forced_units, forced_row, choose_row, row_turn,
  first_state, row_text, table_rows, table_units, plain_units, units_of_rows, text_of, element_turn,
  Outline, is_table, hierarchy_after, intro_after, list_context,
}

-- The characters of chunks and of units.
abbrev chunk_solid : Chunk → Codes
chunk_solid c = solid c.0

abbrev pub unit_solid : SplitUnit → Codes
unit_solid u = solid u.text

-- The characters that an element gives to the index: its cells row by row for a table with rows, its
-- text for any other, and nothing where it is suppressed.
abbrev pub plain_solid : NormalizedElement → Codes
plain_solid e = elim e.normalized_text [ none ↦ [] | some text ↦ solid text ]

abbrev pub rows_solid : NormalizedElement → Option (List (List Codes)) → Codes
rows_solid e none = plain_solid e
rows_solid e (some []) = plain_solid e
rows_solid e (some (row ∷ rows)) = flat_map solid_all (row ∷ rows)

abbrev pub element_solid : NormalizedElement → Codes
element_solid e =
    if e.suppressed_from_index
    then []
    else if is_table e.type
    then rows_solid e e.rows
    else plain_solid e

solid-tab : solid tab ≡ []
unfolding solid is_space
solid-tab = refl

row_texts-solid :
    (rows : List (List Codes)) → solid_all (map row_text rows) ≡ flat_map solid_all rows
unfolding flat_map
row_texts-solid [] = refl
row_texts-solid (row ∷ rows) =
    ap (λ (l : Codes). solid (row_text row) ++ l) (row_texts-solid rows)
    ∙ ap (λ (l : Codes). l ++ flat_map solid_all rows) (solid-join tab solid-tab row)

-- What the splitter needs of the boundaries: the sentences of a text hold it up to white space, and
-- its clusters are the text.
pub record IsFaithful (b : Boundaries) : Type 0 where
  pub sentences_hold :
      (hint : Option Codes) (t : Codes) → solid_all (b.split_sentences hint t) ≡ solid t
  pub clusters_join : (t : Codes) → flat_map (λ c. c) (b.grapheme_clusters t) ≡ t

pub solid-newline : solid newline ≡ []
unfolding solid is_space
solid-newline = refl

emit_current-solid :
    (current : List Codes) (n : ℕ)
    → flat_map chunk_solid (emit_current current n) ≡ solid_all current
emit_current-solid [] n = unfold flat_map in refl
emit_current-solid (s ∷ ss) n =
    unfold flat_map in
    append-nil (solid (strip (join space (s ∷ ss))))
    ∙ solid-strip (join space (s ∷ ss))
    ∙ solid-join space solid-space (s ∷ ss)

long_chunks :
    (current : List Codes) (n : ℕ) (pieces : List Codes) (s : Codes)
    → solid_all pieces ≡ s
    → flat_map chunk_solid (emit_current current n ++ map (λ (t : Codes). (t, 1, true)) pieces)
        ++ solid_all []
      ≡ solid_all current ++ s
long_chunks current n pieces s h =
    rw solid_all_nil (
      append-nil
        (flat_map chunk_solid (emit_current current n ++ map (λ (t : Codes). (t, 1, true)) pieces)))
    ∙ flat_map-append chunk_solid (emit_current current n)
        (map (λ (t : Codes). (t, 1, true)) pieces)
    ∙ rw
        (
          emit_current-solid current n,
          flat_map-map (λ (t : Codes). (t, 1, true)) chunk_solid pieces,
          h,
        )
        refl

module _ (p : SplitterProfile) (b : Boundaries) (faithful : IsFaithful b) where
  sentence_turn-Passes :
      (hint : Option Codes) (s : List Codes × ℕ) (sentence : Codes)
      → Ensures
          (Passes
            (sentence_turn p b hint)
            chunk_solid
            (λ v. solid_all v.0)
            solid
            s
            (solid sentence))
          (λ _. Unit)
          (sentence_turn p b hint s sentence)
  unfolding sentence_turn
  sentence_turn-Passes hint (current, n) sentence = go (over_text p b hint sentence) (
      not (is_empty current)
      && (over_text p b hint (strip (join space (current ++ sentence ∷ [])))
          || ltb p.hard_max_sentences (n + 1)))
    where
      go :
          (long full : Bool)
          → Ensures
              (Passes
                (sentence_turn p b hint)
                chunk_solid
                (λ v. solid_all v.0)
                solid
                (current, n)
                (solid sentence))
              (λ _. Unit)
              (if long
                then force_text_chunks p b hint sentence >>= (λ pieces.
                  ok (emit_current current n ++ map (λ (s : Codes). (s, 1, true)) pieces, ([], 0)))
                else if full
                then ok (emit_current current n, (sentence ∷ [], 1))
                else ok ([], (current ++ sentence ∷ [], n + 1)))
      go true full =
          >>=-Ensures (λ pieces. solid_all pieces ≡ solid sentence)
            (Passes (sentence_turn p b hint) chunk_solid (λ v. solid_all v.0) solid (current, n)
              (solid sentence))
            (λ _. Unit) (force_text_chunks p b hint sentence) _
            (force_text_chunks-Holds p b faithful.clusters_join hint sentence)
            (λ pieces h. long_chunks current n pieces (solid sentence) h)
      go false true = rw (emit_current-solid current n, solid_all_one sentence) refl
      go false false = rw (flat_map_nil chunk_solid) (solid_all_snoc current sentence)

  sentences_of-solid :
      (hint : Option Codes) (t : Codes) → solid_all (sentences_of b hint t) ≡ solid t
  sentences_of-solid hint t = go (b.split_sentences hint t) (faithful.sentences_hold hint t)
    where
      go :
          (ss : List Codes)
          → solid_all ss ≡ solid t
          → solid_all (if is_empty ss then t ∷ [] else ss) ≡ solid t
      go [] h = solid_all_one t
      go (s ∷ ss) h = h

  text_chunks-Holds :
      (hint : Option Codes) (text : Codes)
      → Ensures {A = List Chunk}
          (λ chunks. flat_map chunk_solid chunks ≡ solid text)
          (λ _. Unit)
          (text_chunks p b hint text)
  unfolding text_chunks
  text_chunks-Holds hint text =
      >>=-Ensures
        (Passes (sentence_turn p b hint) chunk_solid (λ v. solid_all v.0) solid ([], 0)
          (solid_all (sentences_of b hint text)))
        (λ chunks. flat_map chunk_solid chunks ≡ solid text) (λ _. Unit)
        (run_loop (sentence_turn p b hint) ([], 0) (sentences_of b hint text)) _
        (run_loop-Passes (sentence_turn p b hint) chunk_solid (λ v. solid_all v.0) solid
          (sentence_turn-Passes hint) ([], 0) (sentences_of b hint text))
        (λ r h.
          flat_map-append chunk_solid r.0 (emit_current r.1.0 r.1.1)
          ∙ rw (emit_current-solid r.1.0 r.1.1)
              (h ∙ rw (solid_all_nil, sentences_of-solid hint text) refl))

  -- Units that hold the given characters.
  abbrev pub UnitsHold : Codes → Result (List SplitUnit) → Type 0
  UnitsHold s = Ensures {A = List SplitUnit} (λ units. flat_map unit_solid units ≡ s) (λ _. Unit)

  module _ (e : NormalizedElement) where
    number_chunks-solid :
        (hierarchy : List Codes) (context : Codes) (several : Bool) (index : ℕ)
        (chunks : List Chunk)
        → flat_map unit_solid (number_chunks b e hierarchy context several index chunks)
          ≡ flat_map chunk_solid chunks
    unfolding number_chunks flat_map
    number_chunks-solid hierarchy context several index [] = refl
    number_chunks-solid hierarchy context several index (c ∷ cs) =
        ap (λ (l : Codes). chunk_solid c ++ l)
          (number_chunks-solid hierarchy context several (suc index) cs)

    text_units-Hold :
        (text : Codes) (hierarchy : List Codes) (context : Codes)
        → UnitsHold (solid text) (text_units p b e text hierarchy context)
    unfolding text_units
    text_units-Hold text hierarchy context =
        >>=-Ensures (λ chunks. flat_map chunk_solid chunks ≡ solid text)
          (λ units. flat_map unit_solid units ≡ solid text) (λ _. Unit)
          (text_chunks p b e.language_hint text) _ (text_chunks-Holds e.language_hint text)
          (λ chunks h. number_chunks-solid hierarchy context (ltb 1 (length chunks)) 0 chunks ∙ h)

    module _ (hierarchy : List Codes) (header : Codes) where
      emit_group-solid :
          (s : TableState)
          → flat_map unit_solid (emit_group p b e hierarchy header s) ≡ solid_all s.group_rows
      emit_group-solid s = go s.group_rows
        where
          go :
              (rows : List Codes)
              → flat_map unit_solid (
                  if is_empty rows
                  then []
                  else table_unit p b e hierarchy header s.index
                      (ltb 0 s.index)
                      s.group_start
                      (s.row_index - 1)
                      (join newline rows)
                    ∷ [])
                ≡ solid_all rows
          go [] = flat_map_nil unit_solid ∙ sym solid_all_nil
          go (r ∷ rs) = flat_map_one unit_solid _ ∙ solid-join newline solid-newline (r ∷ rs)

      forced_units-solid :
          (row index : ℕ) (chunks : List Codes)
          → flat_map unit_solid (forced_units p b e hierarchy header row index chunks)
            ≡ solid_all chunks
      unfolding forced_units flat_map
      forced_units-solid row index [] = refl
      forced_units-solid row index (c ∷ cs) =
          ap (λ (l : Codes). solid c ++ l) (forced_units-solid row (suc index) cs)

      forced_row-solid :
          (s : TableState) (chunks : List Codes) (c : Codes)
          → solid_all chunks ≡ c
          → flat_map unit_solid (forced_row p b e hierarchy header s chunks).0 ++ solid_all []
            ≡ solid_all s.group_rows ++ c
      forced_row-solid s chunks c h =
          rw solid_all_nil
            (append-nil (flat_map unit_solid (forced_row p b e hierarchy header s chunks).0))
          ∙ flat_map-append unit_solid (emit_group p b e hierarchy header s) (
              forced_units p b e hierarchy header s.row_index
                (s.index + length (emit_group p b e hierarchy header s)) chunks)
          ∙ rw
              (
                emit_group-solid s,
                forced_units-solid s.row_index
                    (s.index + length (emit_group p b e hierarchy header s)) chunks,
                h,
              )
              refl

      row_turn-Passes :
          (s : TableState) (rendered : Codes)
          → Ensures
              (Passes
                (row_turn p b e hierarchy header)
                unit_solid
                (λ v. solid_all v.group_rows)
                solid
                s
                (solid rendered))
              (λ _. Unit)
              (row_turn p b e hierarchy header s rendered)
      unfolding row_turn
      row_turn-Passes s rendered = go (over_text p b e.language_hint rendered) (
          not (is_empty s.group_rows)
          && over_text p b e.language_hint (join newline (s.group_rows ++ rendered ∷ [])))
        where
          go :
              (long full : Bool)
              → Ensures
                  (Passes
                    (row_turn p b e hierarchy header)
                    unit_solid
                    (λ v. solid_all v.group_rows)
                    solid
                    s
                    (solid rendered))
                  (λ _. Unit)
                  (choose_row p b e hierarchy header long full s rendered)
          go true full =
              >>=-Ensures (λ chunks. solid_all chunks ≡ solid rendered)
                (Passes (row_turn p b e hierarchy header) unit_solid (λ v. solid_all v.group_rows)
                  solid s (solid rendered))
                (λ _. Unit) (force_text_chunks p b e.language_hint rendered) _
                (force_text_chunks-Holds p b faithful.clusters_join e.language_hint rendered)
                (λ chunks h. forced_row-solid s chunks (solid rendered) h)
          go false true = rw (emit_group-solid s, solid_all_one rendered) refl
          go false false = rw (flat_map_nil unit_solid) (solid_all_snoc s.group_rows rendered)

    table_rows-Hold :
        (hierarchy : List Codes) (rows : List (List Codes))
        → UnitsHold (solid_all (map row_text rows)) (table_rows p b e hierarchy rows)
    unfolding table_rows
    table_rows-Hold hierarchy [] = flat_map_nil unit_solid ∙ sym solid_all_nil
    table_rows-Hold hierarchy (row ∷ rows) =
        >>=-Ensures
          (Passes (row_turn p b e hierarchy (row_text row)) unit_solid (λ v. solid_all v.group_rows)
            solid first_state (solid_all (map row_text (row ∷ rows))))
          (λ units. flat_map unit_solid units ≡ solid_all (map row_text (row ∷ rows))) (λ _. Unit)
          (run_loop (row_turn p b e hierarchy (row_text row)) first_state
            (map row_text (row ∷ rows)))
          _
          (run_loop-Passes (row_turn p b e hierarchy (row_text row)) unit_solid
            (λ v. solid_all v.group_rows) solid (row_turn-Passes hierarchy (row_text row))
            first_state (map row_text (row ∷ rows)))
          (λ r h.
            flat_map-append unit_solid r.0 (emit_group p b e hierarchy (row_text row) r.1)
            ∙ rw (emit_group-solid hierarchy (row_text row) r.1) (h ∙ rw solid_all_nil refl))

    text_of-solid : solid (text_of e) ≡ plain_solid e
    unfolding text_of
    text_of-solid = go e.normalized_text
      where
        go :
            (o : Option Codes)
            → solid (elim o [ none ↦ [] | some text ↦ strip text ])
              ≡ elim o [ none ↦ [] | some text ↦ solid text ]
        go none = unfold solid in refl
        go (some text) = solid-strip text

    plain_units-Hold :
        (hierarchy : List Codes) (context : Codes)
        → UnitsHold (plain_solid e) (plain_units p b e hierarchy context)
    plain_units-Hold hierarchy context = go (text_of e) text_of-solid
      where
        go :
            (text : Codes)
            → solid text ≡ plain_solid e
            → UnitsHold
                (plain_solid e)
                (if is_empty text then ok [] else text_units p b e text hierarchy context)
        go [] h = flat_map_nil unit_solid ∙ sym solid-nil ∙ h
        go (c ∷ cs) h =
            subst (λ s. UnitsHold s (text_units p b e (c ∷ cs) hierarchy context)) h
              (text_units-Hold (c ∷ cs) hierarchy context)

    units_of_rows-Hold :
        (hierarchy : List Codes) (rows : Option (List (List Codes)))
        → UnitsHold (rows_solid e rows) (units_of_rows p b e hierarchy rows)
    units_of_rows-Hold hierarchy none = plain_units-Hold hierarchy []
    units_of_rows-Hold hierarchy (some []) = plain_units-Hold hierarchy []
    units_of_rows-Hold hierarchy (some (row ∷ rows)) =
        subst (λ s. UnitsHold s (table_rows p b e hierarchy (row ∷ rows)))
          (row_texts-solid (row ∷ rows)) (table_rows-Hold hierarchy (row ∷ rows))

    pub element_turn-Holds :
        (s : Outline)
        → Ensures {A = List SplitUnit × Outline}
            (λ r. flat_map unit_solid r.0 ≡ element_solid e)
            (λ _. Unit)
            (element_turn p b s e)
    unfolding element_turn table_units
    element_turn-Holds (hierarchy, intro) = go e.suppressed_from_index (is_table e.type)
      where
        go :
            (x y : Bool)
            → Ensures {A = List SplitUnit × Outline}
                (λ r.
                  flat_map unit_solid r.0
                  ≡ (if x then [] else if y then rows_solid e e.rows else plain_solid e))
                (λ _. Unit)
                (if x
                  then ok ([], (hierarchy, intro))
                  else if y
                  then units_of_rows p b e (hierarchy_after e hierarchy) e.rows
                    >>= (λ units. ok (units, (hierarchy_after e hierarchy, none)))
                  else plain_units p b e
                      (hierarchy_after e hierarchy)
                      (list_context p e (intro_after e intro))
                    >>= (λ units. ok (units, (hierarchy_after e hierarchy, intro_after e intro))))
        go true y = flat_map_nil unit_solid
        go false true =
            >>=-Ensures (λ units. flat_map unit_solid units ≡ rows_solid e e.rows)
              (λ r. flat_map unit_solid r.0 ≡ rows_solid e e.rows) (λ _. Unit)
              (units_of_rows p b e (hierarchy_after e hierarchy) e.rows) _
              (units_of_rows-Hold (hierarchy_after e hierarchy) e.rows) (λ units h. h)
        go false false =
            >>=-Ensures (λ units. flat_map unit_solid units ≡ plain_solid e)
              (λ r. flat_map unit_solid r.0 ≡ plain_solid e) (λ _. Unit)
              (plain_units p b e (hierarchy_after e hierarchy)
                (list_context p e (intro_after e intro)))
              _
              (plain_units-Hold (hierarchy_after e hierarchy)
                (list_context p e (intro_after e intro)))
              (λ units h. h)
