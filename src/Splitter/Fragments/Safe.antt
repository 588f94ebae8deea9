-- ===== src/Splitter/Fragments/Safe.antt =====
-- Every fragment respects the hard limits, and the checks of `split` on groups and fragments never
-- fail.
use astra_indexator.Prelude.{
  ℕ, suc, ◌≤◌, ◌<◌, ◌≡◌, refl, true, false, ◌⊎◌, inl, inr, List, [], ◌∷◌, ◌++◌, none, ap, length,
  All, All-append, arith,
}
use astra_indexator.Text.{Codes, CaseTable, strip, lstrip}
use astra_indexator.Splitter.{
  Fault, ok, SplitterProfile, NormalizedElement, SplitUnit, Boundaries, run_loop, validate,
  unit_exceeds_hard_guard,
}
use astra_indexator.Splitter.Loop.{
  Ensures, >>=-Ensures, Ensures-weaken, Ensures-eq, run_loop-Ensures_on, Among, All-Among, All-both,
}
use astra_indexator.Splitter.Solid.{length-strip, join}
use astra_indexator.Splitter.Chunks.Bounds.{join_one}
use astra_indexator.Splitter.Units.{Outline, element_turn, newline}
use astra_indexator.Splitter.Units.Bounds.{UnitFits, ElementFault, element_turn-Fits}
use astra_indexator.Splitter.Groups.{
  Group, text_of_units, word_sum, sentence_sum, reliable, exceeds_hard, flush, unit_turn,
}
use astra_indexator.Splitter.Groups.Bounds.{
  Within, GroupWithin, TooLarge, unit_turn-Within, flush-Within, consolidate_small_groups-Within,
}
use astra_indexator.Splitter.Fragments.{
  LogicalFragment, NormalizedDocument, normalized_text_of, make_fragment, make_fragments,
  check_fragments, sorted_elements, document_turn, groups_of, split,
}

module _ (p : SplitterProfile) (b : Boundaries) where
  -- What is raised for a unit: its text has more words than the limit, and their count is reliable.
  abbrev pub TooManyWords : SplitUnit → Fault → Type 0
  TooManyWords unit f =
      (f ≡ unit_exceeds_hard_guard)
      × ((b.count_words unit.language_hint unit.text).1 ≡ true)
      × (p.hard_max_words < (b.count_words unit.language_hint unit.text).0)

  -- What is raised for one of the units that are made of an element.
  abbrev pub UnitFault : NormalizedElement → Fault → Type 0
  UnitFault element f =
      (outline : Outline) × (made : List SplitUnit × Outline) × (element_turn p b outline element
        ≡ ok made)
      × (unit : SplitUnit) × Among unit made.0
      × TooManyWords unit f

  -- What `split` may raise: for an element of the document, while its units are made or grouped.
  abbrev pub Raisable : NormalizedDocument → Fault → Type 0
  Raisable document f =
      (element : NormalizedElement) × Among element (sorted_elements document.elements)
      × (UnitFault element f ⊎ ElementFault p b element f)

-- Fragments are numbered from `n`.
abbrev pub Numbered : ℕ → List LogicalFragment → Type 0
Numbered n [] = Unit
Numbered n (f ∷ fs) = (f.sequence ≡ n) × Numbered (suc n) fs

several : (p : SplitterProfile) → validate p ≡ ok tt → 0 < p.hard_max_sentences
unfolding validate
several p h = ground (arith, h)

module _ (p : SplitterProfile) where
  -- A fragment within the hard limits; words count where their number is reliable.
  abbrev pub FragmentWithin : LogicalFragment → Type 0
  FragmentWithin f =
      (f.statistics.char_count ≡ length f.normalized_text)
      × (f.statistics.char_count ≤ p.hard_max_chars)
      × (f.statistics.sentence_count ≤ p.hard_max_sentences)
      × (f.metadata.word_count_reliable ≡ true → f.statistics.word_count ≤ p.hard_max_words)

module _ (t : CaseTable) (p : SplitterProfile) (b : Boundaries) (valid : validate p ≡ ok tt) where
  many_words :
      (unit : SplitUnit)
      → length unit.text ≤ p.hard_max_chars
      → unit.sentence_count ≤ p.hard_max_sentences
      → b.count_words unit.language_hint unit.text ≡ (unit.word_count, unit.word_guard_reliable)
      → exceeds_hard p (unit ∷ []) ≡ true
      → ((b.count_words unit.language_hint unit.text).1 ≡ true)
        × (p.hard_max_words < (b.count_words unit.language_hint unit.text).0)
  unfolding text_of_units reliable word_sum sentence_sum
  many_words unit short few counted h =
      let one = join_one newline unit.text in
      ground (arith, h, ap (λ x. x.0) counted, ap (λ x. x.1) counted, ap length one)

  unit_turn-Raisable :
      (element : NormalizedElement) (outline : Outline) (made : List SplitUnit × Outline)
      → element_turn p b outline element ≡ ok made
      → All (UnitFits p b (several p valid)) made.0
      → (buffer : List SplitUnit) → Within t p buffer
      → Ensures {A = List Group × List SplitUnit}
          (λ q. All (GroupWithin t p) q.0 × Within t p q.1)
          (UnitFault p b element)
          (run_loop (unit_turn t p) buffer made.0)
  unit_turn-Raisable element outline made e fits buffer i =
      run_loop-Ensures_on (unit_turn t p) (Within t p) (GroupWithin t p) (UnitFault p b element)
        (λ unit. Among unit made.0 × UnitFits p b (several p valid) unit)
        (λ rest unit m w.
          Ensures-weaken (λ q. All (GroupWithin t p) q.0 × Within t p q.1)
            (λ q. All (GroupWithin t p) q.0 × Within t p q.1) (TooLarge t p unit)
            (UnitFault p b element) (unit_turn t p rest unit) (unit_turn-Within t p rest unit w)
            (λ _ h. h)
            (λ f h.
              let many = many_words unit m.1.0 m.1.1 m.1.2 h.1 in
              (outline, made, e, unit, m.0, (h.0, many.0, many.1))))
        buffer made.0
        (All-both (λ unit. Among unit made.0) (UnitFits p b (several p valid)) made.0
          (All-Among made.0) fits)
        i

  document_turn-Within :
      (s : Outline × List SplitUnit) (e : NormalizedElement)
      → Within t p s.1
      → Ensures {A = List Group × (Outline × List SplitUnit)}
          (λ r. All (GroupWithin t p) r.0 × Within t p r.1.1)
          (λ f. UnitFault p b e f ⊎ ElementFault p b e f)
          (document_turn t p b s e)
  unfolding document_turn
  document_turn-Within (outline, buffer) e i =
      >>=-Ensures {B = List Group × (Outline × List SplitUnit)}
        (λ r. All (UnitFits p b (several p valid)) r.0 × (element_turn p b outline e ≡ ok r))
        (λ r. All (GroupWithin t p) r.0 × Within t p r.1.1)
        (λ f. UnitFault p b e f ⊎ ElementFault p b e f) (element_turn p b outline e) _
        (Ensures-weaken
          (λ r. All (UnitFits p b (several p valid)) r.0 × (element_turn p b outline e ≡ ok r))
          (λ r. All (UnitFits p b (several p valid)) r.0 × (element_turn p b outline e ≡ ok r))
          (ElementFault p b e) (λ f. UnitFault p b e f ⊎ ElementFault p b e f)
          (element_turn p b outline e)
          (Ensures-eq (λ r. All (UnitFits p b (several p valid)) r.0) (ElementFault p b e)
            (element_turn p b outline e) (element_turn-Fits p b (several p valid) e outline))
          (λ _ h. h) (λ f h. inr h))
        (λ r made.
          >>=-Ensures {B = List Group × (Outline × List SplitUnit)}
            (λ q. All (GroupWithin t p) q.0 × Within t p q.1)
            (λ q. All (GroupWithin t p) q.0 × Within t p q.1.1)
            (λ f. UnitFault p b e f ⊎ ElementFault p b e f) (run_loop (unit_turn t p) buffer r.0) _
            (Ensures-weaken (λ q. All (GroupWithin t p) q.0 × Within t p q.1)
              (λ q. All (GroupWithin t p) q.0 × Within t p q.1) (UnitFault p b e)
              (λ f. UnitFault p b e f ⊎ ElementFault p b e f) (run_loop (unit_turn t p) buffer r.0)
              (unit_turn-Raisable e outline r made.1 made.0 buffer i) (λ _ h. h) (λ f h. inl h))
            (λ q h. h))

  groups_of-Within :
      (document : NormalizedDocument)
      → Ensures {A = List Group}
          (λ groups. All (GroupWithin t p) groups)
          (Raisable p b document)
          (groups_of t p b document)
  unfolding groups_of
  groups_of-Within document =
      >>=-Ensures (λ r. All (GroupWithin t p) r.0 × Within t p r.1.1)
        (λ groups. All (GroupWithin t p) groups) (Raisable p b document)
        (run_loop (document_turn t p b) (([], none), []) (sorted_elements document.elements)) _
        (run_loop-Ensures_on (document_turn t p b) (λ s. Within t p s.1) (GroupWithin t p)
          (Raisable p b document) (λ e. Among e (sorted_elements document.elements))
          (λ s e m i.
            Ensures-weaken (λ r. All (GroupWithin t p) r.0 × Within t p r.1.1)
              (λ r. All (GroupWithin t p) r.0 × Within t p r.1.1)
              (λ f. UnitFault p b e f ⊎ ElementFault p b e f) (Raisable p b document)
              (document_turn t p b s e) (document_turn-Within s e i) (λ _ h. h) (λ f h. (e, m, h)))
          (([], none), []) (sorted_elements document.elements)
          (All-Among (sorted_elements document.elements)) tt)
        (λ r h.
          >>=-Ensures (λ last. All (GroupWithin t p) last) (λ groups. All (GroupWithin t p) groups)
            (Raisable p b document) (flush t p r.1.1 "DOCUMENT_END" false) _
            (flush-Within t p r.1.1 "DOCUMENT_END" false (Raisable p b document) h.1)
            (λ last k.
              consolidate_small_groups-Within t p (r.0 ++ last)
                (All-append (GroupWithin t p) r.0 last h.0 k)))

module _ (t : CaseTable) (sha256_hex : Codes → Codes) (profile_json : SplitterProfile → Codes)
    (p : SplitterProfile) (document : NormalizedDocument) where
  within :
      (us : List SplitUnit) (n : ℕ)
      → n ≤ length (text_of_units us)
      → exceeds_hard p us ≡ false
      → (n ≤ p.hard_max_chars)
        × (sentence_sum us ≤ p.hard_max_sentences)
        × (reliable us ≡ true → word_sum us ≤ p.hard_max_words)
  within us n l h = (ground (arith, h, l), ground (arith, h), λ r. ground (arith, h, r))

  make_fragment-Within :
      (n : ℕ) (g : Group)
      → GroupWithin t p g
      → FragmentWithin p (make_fragment t sha256_hex profile_json p document n g)
  unfolding make_fragment
  make_fragment-Within n g h = let w = go g.units h in (refl, w.0, w.1, w.2)
    where
      go :
          (units : List SplitUnit)
          → Within t p units
          → (length (normalized_text_of units) ≤ p.hard_max_chars)
            × (sentence_sum units ≤ p.hard_max_sentences)
            × (reliable units ≡ true → word_sum units ≤ p.hard_max_words)
      go [] h =
          unfold normalized_text_of text_of_units join strip lstrip sentence_sum word_sum in
          (omega arith, omega arith, λ _. omega arith)
      go (u ∷ us) h =
          unfold normalized_text_of in
          within (u ∷ us) (length (strip (text_of_units (u ∷ us))))
            (length-strip (text_of_units (u ∷ us))) h

  make_fragments-Within :
      (n : ℕ) (groups : List Group)
      → All (GroupWithin t p) groups
      → All (FragmentWithin p) (make_fragments t sha256_hex profile_json p document n groups)
        × Numbered n (make_fragments t sha256_hex profile_json p document n groups)
  unfolding make_fragments make_fragment
  make_fragments-Within n [] h = (tt, tt)
  make_fragments-Within n (g ∷ gs) h =
      let rest = make_fragments-Within (suc n) gs h.1 in
      ((make_fragment-Within n g h.0, rest.0), (refl, rest.1))

  check_fragments-ok :
      (fs : List LogicalFragment)
      → All (FragmentWithin p) fs
      → check_fragments t sha256_hex profile_json p document fs ≡ ok tt
  unfolding check_fragments
  check_fragments-ok [] h = refl
  check_fragments-ok (f ∷ fs) h = ground (arith, check_fragments-ok fs h.1)

  -- Whatever the boundaries of sentences, words and graphemes are, `split` with a valid profile either
  -- returns fragments that are numbered from 0, whose statistics tell the length of their text, and
  -- that respect the hard limits on characters, sentences and, where their count is reliable, words; or
  -- it raises for an element of the document. Then either a unit that is made of the element has more
  -- than `hard_max_words` words by a reliable count, and the fault is `unit_exceeds_hard_guard`; or a
  -- sentence of the element's text, or a row of its table, has a grapheme cluster that is longer than
  -- `hard_max_chars`, and the fault is `grapheme_exceeds_hard_char_guard`. The checks on groups and on
  -- fragments never fail.
  pub split-Safe :
      (b : Boundaries)
      → validate p ≡ ok tt
      → Ensures
          (λ fragments. All (FragmentWithin p) fragments × Numbered 0 fragments)
          (Raisable p b document)
          (split t sha256_hex profile_json p b document)
  unfolding split
  split-Safe b valid =
      >>=-Ensures (λ groups. All (GroupWithin t p) groups)
        (λ fragments. All (FragmentWithin p) fragments × Numbered 0 fragments)
        (Raisable p b document) (groups_of t p b document) _ (groups_of-Within t p b valid document)
        (λ groups h.
          let made = make_fragments-Within 0 groups h in
          rw
            (check_fragments-ok (make_fragments t sha256_hex profile_json p document 0 groups)
              made.0)
            made)
