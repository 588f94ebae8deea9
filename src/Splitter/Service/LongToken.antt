-- ===== src/Splitter/Service/LongToken.antt =====
-- A token without white space is not cut by words.
use mathlib.Core.List.{append-nil, append_assoc}
use astra_indexator.Prelude.{
  ℕ, ◌+◌, ◌≤◌, ◌<◌, ◌≡◌, refl, sym, ap, ◌∙◌, Bool, true, false, ◌&&◌, ◌||◌, List, [], ◌∷◌, ◌++◌,
  Option, none, length, all, ltb, lt→ltb, arith, not, if◌then◌else◌,
}
use astra_indexator.Text.{Codes, CaseTable, is_space}
use astra_indexator.Splitter.{
  Result, ok, err, ◌>>=◌, SplitterProfile, NormalizedElement, SplitUnit, Boundaries, paragraph,
  unit_exceeds_hard_guard, run_loop,
}
use astra_indexator.Splitter.Solid.{split_words, split_from}
use astra_indexator.Splitter.Chunks.{space, over_text, word_turn, force_text_chunks}
use astra_indexator.Splitter.Chunks.Bounds.{join_one}
use astra_indexator.Splitter.Units.{
  text_of, text_unit, Outline, hierarchy_after, intro_after, list_context, sentence_turn,
  sentences_of, text_chunks, text_units, number_chunks, element_turn, plain_units, table_units,
  is_table,
}
use astra_indexator.Splitter.Groups.{
  unit_turn, exceeds_hard, reliable, word_sum, sentence_sum, chars,
}
use astra_indexator.Splitter.Fragments.{
  NormalizedDocument, split, groups_of, document_turn, sorted_elements, insert_element,
}

some_true : (x y z : Bool) → y ≡ true → x || (y || z) ≡ true
some_true x y z h = ground (arith, h)

third_branch {ℓ} :
    {A : Type ℓ} (x y : Bool)
    → x ≡ false
    → y ≡ false
    → (a b c : A) → (if x then a else if y then b else c) ≡ c
third_branch x y h k a b c = rw h (rw k refl)

abbrev IsToken : Codes → Type 0
IsToken s = all (λ (c : ℕ). not (is_space c)) s ≡ true

snoc_append : (cur cs : Codes) (c : ℕ) → (cur ++ c ∷ []) ++ cs ≡ cur ++ c ∷ cs
snoc_append cur cs c = append_assoc cur (c ∷ []) cs

-- A text without white space is one word.
split_from-token :
    (c : ℕ) (cur s : Codes) → IsToken s → split_from (c ∷ cur) s ≡ (c ∷ (cur ++ s)) ∷ []
unfolding split_from
split_from-token c cur [] h = ap (λ (l : Codes). (c ∷ l) ∷ []) (sym (append-nil cur))
split_from-token c cur (d ∷ ds) h =
    ground (arith, h, split_from-token c (cur ++ d ∷ []) ds, snoc_append cur ds d)

split_words-token : (c : ℕ) (s : Codes) → IsToken (c ∷ s) → split_words (c ∷ s) ≡ (c ∷ s) ∷ []
unfolding split_words split_from
split_words-token c s h = ground (arith, h, split_from-token c [] s)

module _ (p : SplitterProfile) (b : Boundaries) (c : ℕ) (cs : Codes) (token : IsToken (c ∷ cs))
    (short : length (c ∷ cs) ≤ p.hard_max_chars) where
  word_turn-token : (hint : Option Codes) → word_turn p b hint [] (c ∷ cs) ≡ ok ([], (c ∷ cs) ∷ [])
  unfolding word_turn
  word_turn-token hint = ground (arith, short)

  -- Such a text is one chunk, however many words it has.
  force_text_chunks-token :
      (hint : Option Codes) → force_text_chunks p b hint (c ∷ cs) ≡ ok ((c ∷ cs) ∷ [])
  unfolding force_text_chunks run_loop
  force_text_chunks-token hint =
      rw (split_words-token c cs token)
        (rw (word_turn-token hint) (rw (join_one space (c ∷ cs)) refl))

  module _ (hint : Option Codes) (one : sentences_of b hint (c ∷ cs) ≡ (c ∷ cs) ∷ []) (words : ℕ)
      (counted : b.count_words hint (c ∷ cs) ≡ (words, true))
      (many : p.hard_max_words < words) where
    over : over_text p b hint (c ∷ cs) ≡ true
    over = rw counted (ground (arith, many))

    sentence_turn-token :
        sentence_turn p b hint ([], 0) (c ∷ cs) ≡ ok ((c ∷ cs, 1, true) ∷ [], ([], 0))
    unfolding sentence_turn
    sentence_turn-token = rw over (rw (force_text_chunks-token hint) refl)

    text_chunks-token : text_chunks p b hint (c ∷ cs) ≡ ok ((c ∷ cs, 1, true) ∷ [])
    unfolding text_chunks run_loop
    text_chunks-token = rw one (rw sentence_turn-token refl)

module _ (t : CaseTable) (p : SplitterProfile) (b : Boundaries) (e : NormalizedElement) (c : ℕ)
    (cs : Codes) (words : ℕ) (token : IsToken (c ∷ cs)) (short : length (c ∷ cs) ≤ p.hard_max_chars)
    (one : sentences_of b e.language_hint (c ∷ cs) ≡ (c ∷ cs) ∷ [])
    (counted : b.count_words e.language_hint (c ∷ cs) ≡ (words, true))
    (many : p.hard_max_words < words) where
  token_unit : List Codes → Codes → SplitUnit
  token_unit hierarchy context = text_unit b e hierarchy context false 0 (c ∷ cs, 1, true)

  text_units-token :
      (hierarchy : List Codes) (context : Codes)
      → text_units p b e (c ∷ cs) hierarchy context ≡ ok (token_unit hierarchy context ∷ [])
  unfolding text_units number_chunks token_unit
  text_units-token hierarchy context =
      rw (text_chunks-token p b c cs token short e.language_hint one words counted many) refl

  unit_exceeds :
      (hierarchy : List Codes) (context : Codes)
      → exceeds_hard p (token_unit hierarchy context ∷ []) ≡ true
  unfolding token_unit reliable word_sum
  unit_exceeds hierarchy context =
      some_true (ltb p.hard_max_chars (chars (token_unit hierarchy context ∷ [])))
        (reliable (token_unit hierarchy context ∷ [])
          && ltb p.hard_max_words (word_sum (token_unit hierarchy context ∷ [])))
        (ltb p.hard_max_sentences (sentence_sum (token_unit hierarchy context ∷ [])))
        (rw counted (lt→ltb p.hard_max_words (words + 0) (omega (arith, many))))

  unit_turn-token :
      (hierarchy : List Codes) (context : Codes)
      → unit_turn t p [] (token_unit hierarchy context) ≡ err unit_exceeds_hard_guard
  unfolding unit_turn token_unit
  unit_turn-token hierarchy context = rw (unit_exceeds hierarchy context) refl

  module _ (shown : e.suppressed_from_index ≡ false) (plain : e.type ≡ paragraph)
      (text : text_of e ≡ c ∷ cs) where
    abbrev outline : Outline
    outline = (hierarchy_after e [], intro_after e none)

    abbrev unit : SplitUnit
    unit = token_unit (hierarchy_after e []) (list_context p e (intro_after e none))

    plain_units-token :
        (hierarchy : List Codes) (context : Codes)
        → plain_units p b e hierarchy context ≡ ok (token_unit hierarchy context ∷ [])
    plain_units-token hierarchy context = rw text (text_units-token hierarchy context)

    element_turn-token : element_turn p b ([], none) e ≡ ok (unit ∷ [], outline)
    unfolding element_turn
    element_turn-token =
        third_branch e.suppressed_from_index (is_table e.type) shown (ap is_table plain)
          (ok ([], ([], none)))
          (table_units p b e (hierarchy_after e [])
            >>= (λ units. ok (units, (hierarchy_after e [], none))))
          (plain_units p b e (hierarchy_after e []) (list_context p e (intro_after e none))
            >>= (λ units. ok (units, outline)))
        ∙ ap (λ (r : Result (List SplitUnit)). r >>= (λ units. ok (units, outline)))
            (plain_units-token (hierarchy_after e []) (list_context p e (intro_after e none)))

    document_turn-token : document_turn t p b (([], none), []) e ≡ err unit_exceeds_hard_guard
    unfolding document_turn run_loop
    document_turn-token =
        rw element_turn-token
          (rw (unit_turn-token (hierarchy_after e []) (list_context p e (intro_after e none))) refl)

  -- A paragraph of one token that is within the limit on characters stops the splitting of its document
  -- where it counts as more than `hard_max_words` words. The conditions are that the document has no
  -- other element, that this one is not suppressed, that its text is one sentence without white space,
  -- and that its words can be counted.
  pub split-long_token :
      (sha256_hex : Codes → Codes) (profile_json : SplitterProfile → Codes)
      (document : NormalizedDocument)
      → document.elements ≡ e ∷ []
      → e.suppressed_from_index ≡ false
      → e.type ≡ paragraph
      → text_of e ≡ c ∷ cs
      → split t sha256_hex profile_json p b document ≡ err unit_exceeds_hard_guard
  unfolding split groups_of sorted_elements insert_element run_loop
  split-long_token sha256_hex profile_json document alone shown plain text =
      rw alone (rw (document_turn-token shown plain text) refl)
