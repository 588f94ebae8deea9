-- ===== src/Splitter/Fragments/Kept.antt =====
-- No character is lost, repeated or reordered between a document and its fragments.
use astra_indexator.Prelude.{
  ℕ, suc, ◌≡◌, refl, ap, sym, subst, ◌∙◌, false, List, [], ◌∷◌, ◌++◌, map, none, if◌then◌else◌,
}
use astra_indexator.Text.{Codes, CaseTable, is_empty}
use astra_indexator.Splitter.{
  Result, ok, err, SplitterProfile, NormalizedElement, SplitUnit, Boundaries, run_loop,
}
use astra_indexator.Splitter.Loop.{
  Ensures, >>=-Ensures, Ensures-map, flat_map, flat_map_nil, flat_map_one, flat_map_cons,
  flat_map-append, flat_map-map, Passes, run_loop-Passes,
}
use astra_indexator.Splitter.Solid.{solid, solid-strip, solid-join, join}
use astra_indexator.Splitter.Chunks.Kept.{solid-nil}
use astra_indexator.Splitter.Units.{Outline, element_turn, newline}
use astra_indexator.Splitter.Units.Kept.{
  IsFaithful, unit_solid, element_solid, element_turn-Holds, solid-newline,
}
use astra_indexator.Splitter.Groups.{
  Group, text_of_units, flush, unit_turn, consolidate_small_groups,
}
use astra_indexator.Splitter.Groups.Order.{
  units_of, with_text, flush-Flushed, unit_turn-Passes, consolidate_small_groups-units,
}
use astra_indexator.Splitter.Fragments.{
  LogicalFragment, NormalizedDocument, normalized_text_of, make_fragment, make_fragments,
  check_fragments, sorted_elements, document_turn, groups_of, split,
}

-- The characters of units, groups and fragments.
abbrev units_solid : List SplitUnit → Codes
units_solid = flat_map unit_solid

abbrev group_solid : Group → Codes
group_solid g = units_solid g.units

abbrev pub fragment_solid : LogicalFragment → Codes
fragment_solid f = solid f.normalized_text

groups_solid-units :
    (groups : List Group) → flat_map group_solid groups ≡ units_solid (flat_map units_of groups)
unfolding flat_map
groups_solid-units [] = refl
groups_solid-units (g ∷ gs) =
    ap (λ (l : Codes). group_solid g ++ l) (groups_solid-units gs)
    ∙ sym (flat_map-append unit_solid g.units (flat_map units_of gs))

with_text-solid :
    (units : List SplitUnit) → units_solid (flat_map with_text units) ≡ units_solid units
with_text-solid [] = ap units_solid (flat_map_nil with_text)
with_text-solid (u ∷ us) =
    ap units_solid (flat_map_cons with_text u us)
    ∙ flat_map-append unit_solid (with_text u) (flat_map with_text us)
    ∙ ap (λ (l : Codes). units_solid (with_text u) ++ l) (with_text-solid us)
    ∙ ap (λ (l : Codes). l ++ units_solid us) (go u.text refl)
    ∙ sym (flat_map_cons unit_solid u us)
  where
    go : (s : Codes) → u.text ≡ s → units_solid (if is_empty s then [] else u ∷ []) ≡ solid u.text
    go [] e = flat_map_nil unit_solid ∙ sym solid-nil ∙ ap solid (sym e)
    go (c ∷ cs) e = flat_map_one unit_solid u

text_of_units-solid :
    (units : List SplitUnit) → solid (normalized_text_of units) ≡ units_solid units
unfolding normalized_text_of text_of_units
text_of_units-solid units =
    solid-strip (join newline (map (λ (u : SplitUnit). u.text) units))
    ∙ solid-join newline solid-newline (map (λ (u : SplitUnit). u.text) units)
    ∙ flat_map-map (λ (u : SplitUnit). u.text) solid units

module _ (t : CaseTable) (p : SplitterProfile) (b : Boundaries) (faithful : IsFaithful b) where
  units-Pass :
      (buffer units : List SplitUnit)
      → Ensures
          (Passes (unit_turn t p) group_solid units_solid unit_solid buffer (units_solid units))
          (λ _. Unit)
          (run_loop (unit_turn t p) buffer units)
  units-Pass buffer units =
      Ensures-map
        (Passes (unit_turn t p) units_of (λ b. b) with_text buffer (flat_map with_text units))
        (Passes (unit_turn t p) group_solid units_solid unit_solid buffer (units_solid units))
        (λ _. Unit) (run_loop (unit_turn t p) buffer units)
        (run_loop-Passes (unit_turn t p) units_of (λ b. b) with_text (unit_turn-Passes t p) buffer
          units)
        (λ r h.
          ap (λ (l : Codes). l ++ units_solid r.1) (groups_solid-units r.0)
          ∙ sym (flat_map-append unit_solid (flat_map units_of r.0) r.1)
          ∙ ap units_solid h
          ∙ flat_map-append unit_solid buffer (flat_map with_text units)
          ∙ ap (λ (l : Codes). units_solid buffer ++ l) (with_text-solid units))

  abbrev pending_solid : Outline × List SplitUnit → Codes
  pending_solid s = units_solid s.1

  document_turn-Passes :
      (s : Outline × List SplitUnit) (e : NormalizedElement)
      → Ensures
          (Passes (document_turn t p b) group_solid pending_solid element_solid s (element_solid e))
          (λ _. Unit)
          (document_turn t p b s e)
  unfolding document_turn
  document_turn-Passes (outline, buffer) e =
      >>=-Ensures {B = List Group × (Outline × List SplitUnit)}
        (λ r. units_solid r.0 ≡ element_solid e)
        (Passes (document_turn t p b) group_solid pending_solid element_solid (outline, buffer)
          (element_solid e))
        (λ _. Unit) (element_turn p b outline e) _ (element_turn-Holds p b faithful e outline)
        (λ r h.
          >>=-Ensures {B = List Group × (Outline × List SplitUnit)}
            (Passes (unit_turn t p) group_solid units_solid unit_solid buffer (units_solid r.0))
            (Passes (document_turn t p b) group_solid pending_solid element_solid (outline, buffer)
              (element_solid e))
            (λ _. Unit) (run_loop (unit_turn t p) buffer r.0) _ (units-Pass buffer r.0)
            (λ q k. k ∙ ap (λ (l : Codes). units_solid buffer ++ l) h))

  groups_of-Hold :
      (document : NormalizedDocument)
      → Ensures {A = List Group}
          (λ groups.
            flat_map group_solid groups
            ≡ flat_map element_solid (sorted_elements document.elements))
          (λ _. Unit)
          (groups_of t p b document)
  unfolding groups_of
  groups_of-Hold document =
      >>=-Ensures
        (Passes (document_turn t p b) group_solid pending_solid element_solid (([], none), [])
          (flat_map element_solid (sorted_elements document.elements)))
        (λ groups.
          flat_map group_solid groups ≡ flat_map element_solid (sorted_elements document.elements))
        (λ _. Unit)
        (run_loop (document_turn t p b) (([], none), []) (sorted_elements document.elements)) _
        (run_loop-Passes (document_turn t p b) group_solid pending_solid element_solid
          document_turn-Passes (([], none), []) (sorted_elements document.elements))
        (λ r h.
          >>=-Ensures (λ last. flat_map units_of last ≡ r.1.1)
            (λ groups.
              flat_map group_solid groups
              ≡ flat_map element_solid (sorted_elements document.elements))
            (λ _. Unit) (flush t p r.1.1 "DOCUMENT_END" false) _
            (flush-Flushed t p r.1.1 "DOCUMENT_END" false)
            (λ last k.
              groups_solid-units (consolidate_small_groups t p (r.0 ++ last))
              ∙ ap units_solid (consolidate_small_groups-units t p (r.0 ++ last))
              ∙ sym (groups_solid-units (r.0 ++ last))
              ∙ flat_map-append group_solid r.0 last
              ∙ ap (λ (l : Codes). flat_map group_solid r.0 ++ l)
                  (groups_solid-units last ∙ ap units_solid k)
              ∙ h
              ∙ ap (λ (l : Codes). l ++ flat_map element_solid (sorted_elements document.elements))
                  (flat_map_nil unit_solid)))

pub trivially {ℓ} : {A : Type ℓ} (r : Result A) → Ensures (λ _. Unit {0}) (λ _. Unit {0}) r
trivially (ok a) = tt
trivially (err e) = tt

module _ (t : CaseTable) (sha256_hex : Codes → Codes) (profile_json : SplitterProfile → Codes)
    (p : SplitterProfile) (document : NormalizedDocument) where
  make_fragments-solid :
      (sequence : ℕ) (groups : List Group)
      → flat_map fragment_solid
          (make_fragments t sha256_hex profile_json p document sequence groups)
        ≡ flat_map group_solid groups
  unfolding make_fragments make_fragment flat_map
  make_fragments-solid sequence [] = refl
  make_fragments-solid sequence (g ∷ gs) =
      ap (λ (l : Codes). solid (normalized_text_of g.units) ++ l)
        (make_fragments-solid (suc sequence) gs)
      ∙ ap (λ (l : Codes). l ++ flat_map group_solid gs) (text_of_units-solid g.units)

  abbrev HeldBy : List LogicalFragment → Type 0
  HeldBy fragments =
      flat_map fragment_solid fragments ≡ flat_map element_solid (sorted_elements document.elements)

  abbrev Held : Result (List LogicalFragment) → Type 0
  Held r = Ensures HeldBy (λ _. Unit) r

  -- What `split` returns passes, up to white space, the text of the document: the texts of the fragments
  -- in sequence are the texts of the elements in the order of `order_index`, the cells of a table row
  -- by row, without the suppressed elements. Nothing is lost, repeated or reordered. The condition is
  -- that the sentences of a text hold it up to white space and that its grapheme clusters, one behind
  -- the other, are the text.
  pub split-Holds :
      (b : Boundaries) (fragments : List LogicalFragment)
      → IsFaithful b
      → split t sha256_hex profile_json p b document ≡ ok fragments
      → flat_map fragment_solid fragments
        ≡ flat_map element_solid (sorted_elements document.elements)
  unfolding split
  split-Holds b fragments faithful h = subst Held h (
      >>=-Ensures
        (λ groups.
          flat_map group_solid groups ≡ flat_map element_solid (sorted_elements document.elements))
        HeldBy (λ _. Unit) (groups_of t p b document) _ (groups_of-Hold t p b faithful document)
        (λ groups k.
          >>=-Ensures (λ _. Unit) HeldBy (λ _. Unit)
            (check_fragments t sha256_hex profile_json p document
              (make_fragments t sha256_hex profile_json p document 0 groups))
            _
            (trivially (
              check_fragments t sha256_hex profile_json p document
                (make_fragments t sha256_hex profile_json p document 0 groups)))
            (λ _ _. make_fragments-solid 0 groups ∙ k)))
