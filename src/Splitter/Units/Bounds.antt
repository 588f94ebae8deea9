-- ===== src/Splitter/Units/Bounds.antt =====
-- Every unit respects the limits on characters and sentences, before units are grouped, and only a
-- grapheme cluster that is longer than the limit stops the making of units.
use astra_indexator.Prelude.{
  ℕ, suc, ◌+◌, ◌-◌, ◌≤◌, ◌<◌, ◌≡◌, ◌⊎◌, inl, inr, refl, Bool, true, false, not, ◌&&◌, ◌||◌, List,
  [], ◌∷◌, ◌++◌, map, Option, none, some, length, All, All-append, ltb, arith, if◌then◌else◌,
}
use astra_indexator.Text.{Codes, is_empty, strip, lstrip}
use astra_indexator.Splitter.{
  Fault, Result, ok, ◌>>=◌, SplitterProfile, NormalizedElement, SplitUnit, Boundaries, run_loop,
}
use astra_indexator.Splitter.Loop.{
  Ensures, >>=-Ensures, Ensures-weaken, run_loop-Ensures_on, Among, All-Among,
}
use astra_indexator.Splitter.Solid.{join, length-strip}
use astra_indexator.Splitter.Chunks.{space, over_text, force_text_chunks}
use astra_indexator.Splitter.Chunks.Bounds.{
  Fits, InText, force_text_chunks-Fits, join_one, ltb-false,
}
use astra_indexator.Splitter.Units.{
  Chunk, emit_current, sentence_turn, sentences_of, text_chunks, number_chunks, text_units, newline,
  TableState, table_unit, emit_group, forced_units, choose_row, row_turn, first_state, row_text,
  table_rows, table_units, plain_units, units_of_rows, text_of, element_turn, Outline, is_table,
  hierarchy_after, intro_after, list_context,
}

module _ (p : SplitterProfile) (b : Boundaries) where
  -- What is raised for a text: for one of its sentences.
  abbrev pub TextFault : Option Codes → Codes → Fault → Type 0
  TextFault hint text f =
      (sentence : Codes) × Among sentence (sentences_of b hint text) × InText p b sentence f

  -- What is raised for the rows of a table: for one of them.
  abbrev pub RowFault : List (List Codes) → Fault → Type 0
  RowFault rows f = (row : Codes) × Among row (map row_text rows) × InText p b row f

  -- What is raised for an element: for its text, or for its rows.
  abbrev pub ElementFault : NormalizedElement → Fault → Type 0
  ElementFault e f =
      TextFault e.language_hint (text_of e) f
      ⊎ ((rows : List (List Codes)) × (e.rows ≡ some rows) × RowFault rows f)

module _ (p : SplitterProfile) (b : Boundaries) (several_sentences : 0 < p.hard_max_sentences) where
  abbrev ChunkFits : Chunk → Type 0
  ChunkFits c = Fits p c.0 × (c.1 ≤ p.hard_max_sentences)

  abbrev pub UnitFits : SplitUnit → Type 0
  UnitFits u =
      Fits p u.text
      × (u.sentence_count ≤ p.hard_max_sentences)
      × (b.count_words u.language_hint u.text ≡ (u.word_count, u.word_guard_reliable))

  -- The variables of the loop over sentences.
  abbrev Sentences : List Codes × ℕ → Type 0
  Sentences s =
      (length (strip (join space s.0)) ≤ p.hard_max_chars)
      × (s.1 ≤ p.hard_max_sentences)
      × (is_empty s.0 ≡ true → s.1 ≡ 0)

  emit_current-Fits :
      (current : List Codes) (n : ℕ)
      → Sentences (current, n)
      → All ChunkFits (emit_current current n)
  emit_current-Fits [] n i = tt
  emit_current-Fits (s ∷ ss) n i = ((i.0, i.1), tt)

  forced-Fits :
      (pieces : List Codes)
      → All (Fits p) pieces
      → All ChunkFits (map (λ (s : Codes). (s, 1, true)) pieces)
  forced-Fits [] h = tt
  forced-Fits (s ∷ ss) h = ((h.0, several_sentences), forced-Fits ss h.1)

  one-Fits : (s : Codes) → Fits p s → length (strip (join space (s ∷ []))) ≤ p.hard_max_chars
  one-Fits s h = rw (join_one space s) (omega (arith, length-strip s, h))

  none-Fits : length (strip (join space [])) ≤ p.hard_max_chars
  unfolding join strip lstrip
  none-Fits = omega arith

  abbrev SentenceTurn : (Fault → Type 0) → Result (List Chunk × (List Codes × ℕ)) → Type 0
  SentenceTurn Q =
      Ensures {A = List Chunk × (List Codes × ℕ)} (λ r. All ChunkFits r.0 × Sentences r.1) Q

  sentence_turn-Fits :
      (hint : Option Codes) (s : List Codes × ℕ) (sentence : Codes)
      → Sentences s
      → SentenceTurn (InText p b sentence) (sentence_turn p b hint s sentence)
  unfolding sentence_turn
  sentence_turn-Fits hint (current, n) sentence i =
      go current i (over_text p b hint sentence) (λ h. ground (arith, h))
        (over_text p b hint (strip (join space (current ++ sentence ∷ []))))
        (λ h. ground (arith, h)) (ltb p.hard_max_sentences (n + 1)) refl
    where
      go :
          (current : List Codes)
          → Sentences (current, n)
          → (long : Bool) → (long ≡ false → Fits p sentence)
          → (x : Bool)
          → (x ≡ false → length (strip (join space (current ++ sentence ∷ []))) ≤ p.hard_max_chars)
          → (y : Bool) → ltb p.hard_max_sentences (n + 1) ≡ y
          → SentenceTurn (InText p b sentence) (
              if long
              then force_text_chunks p b hint sentence >>= (λ pieces.
                ok (emit_current current n ++ map (λ (s : Codes). (s, 1, true)) pieces, ([], 0)))
              else if not (is_empty current) && (x || y)
              then ok (emit_current current n, (sentence ∷ [], 1))
              else ok ([], (current ++ sentence ∷ [], n + 1)))
      go current i true l x ex y ey =
          >>=-Ensures {B = List Chunk × (List Codes × ℕ)} (λ pieces. All (Fits p) pieces)
            (λ r. All ChunkFits r.0 × Sentences r.1) (InText p b sentence)
            (force_text_chunks p b hint sentence) _ (force_text_chunks-Fits p b hint sentence)
            (λ pieces h. (
              All-append ChunkFits (emit_current current n) _ (emit_current-Fits current n i)
                  (forced-Fits pieces h),
              (none-Fits, omega arith, λ _. refl),
            ))
      go [] i false l x ex y ey =
          (tt, (one-Fits sentence (l refl), omega (arith, i.2 refl, several_sentences), λ e. cc))
      go (c ∷ cs) i false l true ex y ey =
          (emit_current-Fits (c ∷ cs) n i, (one-Fits sentence (l refl), several_sentences, λ e. cc))
      go (c ∷ cs) i false l false ex true ey =
          (emit_current-Fits (c ∷ cs) n i, (one-Fits sentence (l refl), several_sentences, λ e. cc))
      go (c ∷ cs) i false l false ex false ey = (tt, (ex refl, ltb-false _ _ ey, λ e. cc))

  text_chunks-Fits :
      (hint : Option Codes) (text : Codes)
      → Ensures {A = List Chunk}
          (λ chunks. All ChunkFits chunks)
          (TextFault p b hint text)
          (text_chunks p b hint text)
  unfolding text_chunks
  text_chunks-Fits hint text =
      >>=-Ensures (λ r. All ChunkFits r.0 × Sentences r.1) (λ chunks. All ChunkFits chunks)
        (TextFault p b hint text)
        (run_loop (sentence_turn p b hint) ([], 0) (sentences_of b hint text)) _
        (run_loop-Ensures_on (sentence_turn p b hint) Sentences ChunkFits (TextFault p b hint text)
          (λ sentence. Among sentence (sentences_of b hint text))
          (λ s sentence m i.
            Ensures-weaken (λ r. All ChunkFits r.0 × Sentences r.1)
              (λ r. All ChunkFits r.0 × Sentences r.1) (InText p b sentence)
              (TextFault p b hint text) (sentence_turn p b hint s sentence)
              (sentence_turn-Fits hint s sentence i) (λ _ h. h) (λ f h. (sentence, m, h)))
          ([], 0) (sentences_of b hint text) (All-Among (sentences_of b hint text))
          (none-Fits, omega arith, λ _. refl))
        (λ r h.
          All-append ChunkFits r.0 (emit_current r.1.0 r.1.1) h.0
            (emit_current-Fits r.1.0 r.1.1 h.1))

  abbrev UnitsFit : (Fault → Type 0) → Result (List SplitUnit) → Type 0
  UnitsFit Q = Ensures {A = List SplitUnit} (λ units. All UnitFits units) Q

  module _ (e : NormalizedElement) where
    number_chunks-Fit :
        (hierarchy : List Codes) (context : Codes) (several : Bool) (index : ℕ)
        (chunks : List Chunk)
        → All ChunkFits chunks
        → All UnitFits (number_chunks b e hierarchy context several index chunks)
    unfolding number_chunks
    number_chunks-Fit hierarchy context several index [] h = tt
    number_chunks-Fit hierarchy context several index (c ∷ cs) h =
        ((h.0.0, h.0.1, refl), number_chunks-Fit hierarchy context several (suc index) cs h.1)

    text_units-Fit :
        (text : Codes) (hierarchy : List Codes) (context : Codes)
        → UnitsFit (TextFault p b e.language_hint text) (text_units p b e text hierarchy context)
    unfolding text_units
    text_units-Fit text hierarchy context =
        >>=-Ensures (λ chunks. All ChunkFits chunks) (λ units. All UnitFits units)
          (TextFault p b e.language_hint text) (text_chunks p b e.language_hint text) _
          (text_chunks-Fits e.language_hint text)
          (λ chunks h. number_chunks-Fit hierarchy context (ltb 1 (length chunks)) 0 chunks h)

    plain_units-Fit :
        (hierarchy : List Codes) (context : Codes)
        → UnitsFit (ElementFault p b e) (plain_units p b e hierarchy context)
    plain_units-Fit hierarchy context = go (is_empty (text_of e))
      where
        go :
            (x : Bool)
            → UnitsFit
                (ElementFault p b e)
                (if x then ok [] else text_units p b e (text_of e) hierarchy context)
        go true = tt
        go false =
            Ensures-weaken (λ units. All UnitFits units) (λ units. All UnitFits units)
              (TextFault p b e.language_hint (text_of e)) (ElementFault p b e)
              (text_units p b e (text_of e) hierarchy context)
              (text_units-Fit (text_of e) hierarchy context) (λ _ h. h) (λ f h. inl h)

    module _ (hierarchy : List Codes) (header : Codes) where
      -- The group of rows, as one text.
      abbrev GroupFits : TableState → Type 0
      GroupFits s = Fits p (join newline s.group_rows)

      emit_group-Fits :
          (s : TableState) → GroupFits s → All UnitFits (emit_group p b e hierarchy header s)
      emit_group-Fits s i = go s.group_rows i
        where
          go :
              (rows : List Codes)
              → Fits p (join newline rows)
              → All UnitFits (
                  if is_empty rows
                  then []
                  else table_unit p b e hierarchy header s.index
                      (ltb 0 s.index)
                      s.group_start
                      (s.row_index - 1)
                      (join newline rows)
                    ∷ [])
          go [] i = tt
          go (r ∷ rs) i = ((i, omega arith, refl), tt)

      forced_units-Fit :
          (row index : ℕ) (chunks : List Codes)
          → All (Fits p) chunks
          → All UnitFits (forced_units p b e hierarchy header row index chunks)
      unfolding forced_units
      forced_units-Fit row index [] h = tt
      forced_units-Fit row index (c ∷ cs) h =
          ((h.0, omega arith, refl), forced_units-Fit row (suc index) cs h.1)

      no_rows : Fits p (join newline [])
      unfolding join
      no_rows = omega arith

      abbrev RowTurn : (Fault → Type 0) → Result (List SplitUnit × TableState) → Type 0
      RowTurn Q =
          Ensures {A = List SplitUnit × TableState} (λ r. All UnitFits r.0 × GroupFits r.1) Q

      row_turn-Fits :
          (s : TableState) (rendered : Codes)
          → GroupFits s
          → RowTurn (InText p b rendered) (row_turn p b e hierarchy header s rendered)
      unfolding row_turn
      row_turn-Fits s rendered i =
          go (over_text p b e.language_hint rendered) (λ h. ground (arith, h))
            (not (is_empty s.group_rows)
              && over_text p b e.language_hint (join newline (s.group_rows ++ rendered ∷ [])))
            joined
        where
          one : Fits p rendered → Fits p (join newline (rendered ∷ []))
          one h = rw (join_one newline rendered) h

          joined :
              not (is_empty s.group_rows)
                  && over_text p b e.language_hint (join newline (s.group_rows ++ rendered ∷ []))
                ≡ false
              → Fits p rendered
              → Fits p (join newline (s.group_rows ++ rendered ∷ []))
          joined h k = in_rows s.group_rows h
            where
              in_rows :
                  (rows : List Codes)
                  → not (is_empty rows)
                      && over_text p b e.language_hint (join newline (rows ++ rendered ∷ []))
                    ≡ false
                  → Fits p (join newline (rows ++ rendered ∷ []))
              in_rows [] h = one k
              in_rows (r ∷ rs) h = ground (arith, h)

          go :
              (long : Bool)
              → (long ≡ false → Fits p rendered)
              → (full : Bool)
              → (full ≡ false
                  → Fits p rendered
                  → Fits p (join newline (s.group_rows ++ rendered ∷ [])))
              → RowTurn
                  (InText p b rendered)
                  (choose_row p b e hierarchy header long full s rendered)
          go true l full f =
              >>=-Ensures {B = List SplitUnit × TableState} (λ chunks. All (Fits p) chunks)
                (λ r. All UnitFits r.0 × GroupFits r.1) (InText p b rendered)
                (force_text_chunks p b e.language_hint rendered) _
                (force_text_chunks-Fits p b e.language_hint rendered)
                (λ chunks h. (
                  All-append UnitFits (emit_group p b e hierarchy header s) _ (emit_group-Fits s i)
                      (forced_units-Fit s.row_index
                        (s.index + length (emit_group p b e hierarchy header s)) chunks h),
                  no_rows,
                ))
          go false l true f = (emit_group-Fits s i, one (l refl))
          go false l false f = (tt, f refl (l refl))

    table_rows-Fit :
        (hierarchy : List Codes) (rows : List (List Codes))
        → UnitsFit (RowFault p b rows) (table_rows p b e hierarchy rows)
    unfolding table_rows
    table_rows-Fit hierarchy [] = tt
    table_rows-Fit hierarchy (row ∷ rows) =
        >>=-Ensures (λ r. All UnitFits r.0 × GroupFits hierarchy (row_text row) r.1)
          (λ units. All UnitFits units) (RowFault p b (row ∷ rows))
          (run_loop (row_turn p b e hierarchy (row_text row)) first_state
            (map row_text (row ∷ rows)))
          _
          (run_loop-Ensures_on (row_turn p b e hierarchy (row_text row))
            (GroupFits hierarchy (row_text row)) UnitFits (RowFault p b (row ∷ rows))
            (λ rendered. Among rendered (map row_text (row ∷ rows)))
            (λ s rendered m i.
              Ensures-weaken (λ r. All UnitFits r.0 × GroupFits hierarchy (row_text row) r.1)
                (λ r. All UnitFits r.0 × GroupFits hierarchy (row_text row) r.1)
                (InText p b rendered) (RowFault p b (row ∷ rows))
                (row_turn p b e hierarchy (row_text row) s rendered)
                (row_turn-Fits hierarchy (row_text row) s rendered i) (λ _ h. h)
                (λ f h. (rendered, m, h)))
            first_state (map row_text (row ∷ rows)) (All-Among (map row_text (row ∷ rows)))
            (no_rows hierarchy (row_text row)))
          (λ r h.
            All-append UnitFits r.0 (emit_group p b e hierarchy (row_text row) r.1) h.0
              (emit_group-Fits hierarchy (row_text row) r.1 h.1))

    units_of_rows-Fit :
        (hierarchy : List Codes) (rows : Option (List (List Codes)))
        → e.rows ≡ rows
        → UnitsFit (ElementFault p b e) (units_of_rows p b e hierarchy rows)
    units_of_rows-Fit hierarchy none h = plain_units-Fit hierarchy []
    units_of_rows-Fit hierarchy (some []) h = plain_units-Fit hierarchy []
    units_of_rows-Fit hierarchy (some (row ∷ rows)) h =
        Ensures-weaken (λ units. All UnitFits units) (λ units. All UnitFits units)
          (RowFault p b (row ∷ rows)) (ElementFault p b e) (table_rows p b e hierarchy (row ∷ rows))
          (table_rows-Fit hierarchy (row ∷ rows)) (λ _ k. k) (λ f k. inr (row ∷ rows, h, k))

    abbrev ElementTurn : Result (List SplitUnit × Outline) → Type 0
    ElementTurn =
        Ensures {A = List SplitUnit × Outline} (λ r. All UnitFits r.0) (ElementFault p b e)

    -- Every unit that is made of an element has at most `hard_max_chars` characters and
    -- `hard_max_sentences` sentences, and its number of words is the count of words of its text. Where
    -- something is raised instead, it is `grapheme_exceeds_hard_char_guard`, and a sentence of the
    -- element's text or a row of its table has a grapheme cluster, of one of its words or of it as a
    -- whole, that is longer than `hard_max_chars`. This is so whatever the boundaries of sentences,
    -- words and graphemes are; the condition is that `hard_max_sentences` is positive.
    pub element_turn-Fits : (s : Outline) → ElementTurn (element_turn p b s e)
    unfolding element_turn table_units
    element_turn-Fits (hierarchy, intro) = go e.suppressed_from_index (is_table e.type)
      where
        go :
            (x y : Bool)
            → ElementTurn (
                if x
                then ok ([], (hierarchy, intro))
                else if y
                then units_of_rows p b e (hierarchy_after e hierarchy) e.rows
                  >>= (λ units. ok (units, (hierarchy_after e hierarchy, none)))
                else plain_units p b e
                    (hierarchy_after e hierarchy)
                    (list_context p e (intro_after e intro))
                  >>= (λ units. ok (units, (hierarchy_after e hierarchy, intro_after e intro))))
        go true y = tt
        go false true =
            >>=-Ensures (λ units. All UnitFits units) (λ r. All UnitFits r.0) (ElementFault p b e)
              (units_of_rows p b e (hierarchy_after e hierarchy) e.rows) _
              (units_of_rows-Fit (hierarchy_after e hierarchy) e.rows refl) (λ units h. h)
        go false false =
            >>=-Ensures (λ units. All UnitFits units) (λ r. All UnitFits r.0) (ElementFault p b e)
              (plain_units p b e (hierarchy_after e hierarchy)
                (list_context p e (intro_after e intro)))
              _
              (plain_units-Fit (hierarchy_after e hierarchy)
                (list_context p e (intro_after e intro)))
              (λ units h. h)
