-- ===== src/Splitter/Service.antt =====
-- src/astra_indexator/splitter/service.py: LogicalSplitter, made with a profile and the boundaries that
-- the profile names.
pub mod LongToken
use astra_indexator.Prelude.{
  ℕ, ◌≡◌, refl, sym, subst, Bool, true, false, List, [], ◌∷◌, String, length, str_eq, if◌then◌else◌,
}
use astra_indexator.Text.{Codes, CaseTable}
use astra_indexator.Splitter.{
  Fault, Result, ok, err, ◌>>=◌, ◌>>◌, SplitterProfile, Boundaries, validate,
  invalid_sentence_boundary_backend,
}
use astra_indexator.Splitter.Loop.{Ensures, >>=-Ensures, flat_map}
use astra_indexator.Splitter.Units.Kept.{IsFaithful, element_solid}
use astra_indexator.Splitter.Fragments.{LogicalFragment, NormalizedDocument, sorted_elements, split}
use astra_indexator.Splitter.Fragments.Kept.{fragment_solid, split-Holds, trivially}
use astra_indexator.Splitter.Sentence.{
  Unicode, Icu, boundaries_for, unicode_boundaries, icu_boundaries,
}
use astra_indexator.Splitter.Sentence.Kept.{
  unicode_boundaries-IsFaithful, icu_boundaries-IsFaithful, Reaches,
}

module _ (t : CaseTable) (u : Unicode) (icu : Icu) (sha256_hex : Codes → Codes)
    (profile_json : SplitterProfile → Codes) where
  -- `LogicalSplitter(profile).split(document)`
  unfoldable pub logical_split :
      SplitterProfile → NormalizedDocument → Result (List LogicalFragment)
  logical_split p document = do
    validate p
    b ← boundaries_for t u icu p
    split t sha256_hex profile_json p b document

  module _ (joined : (s : Codes) → flat_map (λ c. c) (u.graphemes s) ≡ s)
      (reach : (locale text : Codes)
        → Reaches t u (length text) 0 (icu.sentence_ends locale text)) where
    boundaries_for-IsFaithful :
        (p : SplitterProfile)
        → Ensures {A = Boundaries} IsFaithful (λ _. Unit {0}) (boundaries_for t u icu p)
    unfolding boundaries_for
    boundaries_for-IsFaithful p =
        go (str_eq p.sentence_boundary_backend "unicode") (str_eq p.sentence_boundary_backend "icu")
      where
        go :
            (x y : Bool)
            → Ensures {A = Boundaries} IsFaithful
                (λ _. Unit {0})
                (if x
                  then ok (unicode_boundaries t u)
                  else if y
                  then ok (icu_boundaries t u icu)
                  else err invalid_sentence_boundary_backend)
        go true y = unicode_boundaries-IsFaithful t u joined
        go false true = icu_boundaries-IsFaithful t u icu reach joined
        go false false = tt

    abbrev Held : NormalizedDocument → Result (List LogicalFragment) → Type 0
    Held document =
        Ensures {A = List LogicalFragment}
          (λ fragments.
            flat_map fragment_solid fragments
            ≡ flat_map element_solid (sorted_elements document.elements))
          (λ _. Unit {0})

    split-Held :
        (p : SplitterProfile) (b : Boundaries) (document : NormalizedDocument)
        → IsFaithful b
        → Held document (split t sha256_hex profile_json p b document)
    split-Held p b document faithful = go (split t sha256_hex profile_json p b document) refl
      where
        go :
            (r : Result (List LogicalFragment))
            → split t sha256_hex profile_json p b document ≡ r
            → Held document r
        go (ok fragments) e =
            split-Holds t sha256_hex profile_json p document b fragments faithful e
        go (err f) e = tt

    -- The fragments that LogicalSplitter returns hold, up to white space, the text of the document: their
    -- texts in sequence are the texts of the elements in the order of `order_index`, those of a table
    -- with rows cell by cell, without the suppressed elements. Nothing is lost, repeated or reordered,
    -- with either backend. The conditions are that the grapheme clusters of a text, one behind the
    -- other, are the text, and that ICU's breaks do not go back and reach its end.
    pub logical_split-Holds :
        (p : SplitterProfile) (document : NormalizedDocument) (fragments : List LogicalFragment)
        → logical_split p document ≡ ok fragments
        → flat_map fragment_solid fragments
          ≡ flat_map element_solid (sorted_elements document.elements)
    unfolding logical_split
    logical_split-Holds p document fragments h = subst (Held document) h (
        >>=-Ensures (λ _. Unit {0}) _ (λ _. Unit {0}) (validate p) _ (trivially (validate p))
          (λ _ _.
            >>=-Ensures IsFaithful _ (λ _. Unit {0}) (boundaries_for t u icu p) _
              (boundaries_for-IsFaithful p) (λ b faithful. split-Held p b document faithful)))
