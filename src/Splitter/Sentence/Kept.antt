-- ===== src/Splitter/Sentence/Kept.antt =====
-- The sentences of a text hold it up to white space.
use astra_indexator.Prelude.{
  ℕ, zero, suc, ◌+◌, ◌-◌, ◌≤◌, ◌≡◌, refl, ap, sym, ◌∙◌, List, [], ◌∷◌, ◌++◌, Option, none, some,
  length, arith, if◌then◌else◌,
}
use astra_indexator.Text.{Codes, CaseTable, is_empty, strip}
use astra_indexator.Splitter.Loop.{flat_map, flat_map_nil, flat_map_one, flat_map-append}
use astra_indexator.Splitter.Solid.{solid, solid_all, solid-append, solid-strip}
use astra_indexator.Splitter.Chunks.Kept.{solid-nil}
use astra_indexator.Splitter.Units.Kept.{IsFaithful}
use astra_indexator.Splitter.Sentence.Profiles.{
  SentenceBoundaryProfile, profile_for, primary_language_of, locale_id,
}
use astra_indexator.Splitter.Sentence.{
  Unicode, Icu, Move, skip, cut, drop, take, head, move_at, sentence_between, tail_from, in_front,
  after_move, turn_at, unicode_loop, split_unicode, hint_or_empty, unicode_boundaries, pieces,
  stripped, split_icu, icu_boundaries,
}
use astra_indexator.Splitter.Sentence.Fuel.{
  split_unicode-fuel, Advances, move_at-Advances, drop-add,
}

take-drop : (n : ℕ) (xs : Codes) → take n xs ++ drop n xs ≡ xs
take-drop zero xs = refl
take-drop (suc n) [] = refl
take-drop (suc n) (x ∷ xs) = ap (λ (l : Codes). x ∷ l) (take-drop n xs)

solid-take-drop : (n : ℕ) (xs : Codes) → solid (take n xs) ++ solid (drop n xs) ≡ solid xs
solid-take-drop n xs = sym (solid-append (take n xs) (drop n xs)) ∙ ap solid (take-drop n xs)

length-drop : (n : ℕ) (xs : Codes) → length (drop n xs) ≡ length xs - n
length-drop zero xs = omega arith
length-drop (suc n) [] = omega arith
length-drop (suc n) (x ∷ xs) = omega (arith, length-drop n xs)

-- A text that is emitted stripped if it is not blank.
solid_all-stripped :
    (s : Codes) → solid_all (if is_empty (strip s) then [] else strip s ∷ []) ≡ solid s
solid_all-stripped s = go (strip s) refl
  where
    go : (r : Codes) → strip s ≡ r → solid_all (if is_empty r then [] else r ∷ []) ≡ solid s
    go [] e = flat_map_nil solid ∙ sym solid-nil ∙ ap solid (sym e) ∙ solid-strip s
    go (c ∷ cs) e = flat_map_one solid (c ∷ cs) ∙ ap solid (sym e) ∙ solid-strip s

blank_or :
    (text : Codes) (ss : List Codes)
    → solid_all ss ≡ solid text
    → solid_all (if is_empty (strip text) then [] else ss) ≡ solid text
blank_or text ss h = go (strip text) refl
  where
    go : (r : Codes) → strip text ≡ r → solid_all (if is_empty r then [] else ss) ≡ solid text
    go [] e = flat_map_nil solid ∙ sym solid-nil ∙ ap solid (sym e) ∙ solid-strip text
    go (c ∷ cs) e = h

module _ (t : CaseTable) (u : Unicode) where
  module _ (profile : SentenceBoundaryProfile) (language text : Codes) where
    in_front-solid :
        (rest : Option (List Codes)) (start end : ℕ) (j : ℕ) (ss : List Codes)
        → start ≤ end
        → solid (drop j text) ≡ solid (drop end text)
        → ((qs : List Codes) → rest ≡ some qs → solid_all qs ≡ solid (drop j text))
        → in_front t u (sentence_between t u text start end) rest ≡ some ss
        → solid_all ss ≡ solid (drop start text)
    in_front-solid none start end j ss h a next e = cc
    in_front-solid (some qs) start end j ss h a next e =
        let same : sentence_between t u text start end ++ qs ≡ ss = cc in
        ap solid_all (sym same)
        ∙ flat_map-append solid (sentence_between t u text start end) qs
        ∙ ap (λ (l : Codes). l ++ solid_all qs)
            (solid_all-stripped (take (end - start) (drop start text)))
        ∙ ap (λ (l : Codes). solid (take (end - start) (drop start text)) ++ l)
            (next qs refl ∙ a ∙ ap solid shifted)
        ∙ solid-take-drop (end - start) (drop start text)
      where
        shifted : drop end text ≡ drop (end - start) (drop start text)
        shifted =
            ap (λ (n : ℕ). drop n text)
              (let e : end ≡ start + (end - start) = omega (arith, h) in e)
            ∙ drop-add start (end - start) text

    -- What a loop emits from `start` on, where it ends.
    abbrev Holds : (ℕ → ℕ → Option (List Codes)) → Type 0
    Holds rest =
        (start j : ℕ) (ss : List Codes)
        → start ≤ j
        → rest start j ≡ some ss
        → solid_all ss ≡ solid (drop start text)

    after_move-solid :
        (rest : ℕ → ℕ → Option (List Codes)) (start i : ℕ) (m : Move) (ss : List Codes)
        → start ≤ i
        → Advances text i m
        → Holds rest
        → after_move t u rest text start m ≡ some ss
        → solid_all ss ≡ solid (drop start text)
    after_move-solid rest start i (skip j) ss h a next e = next start j ss (omega (arith, h, a)) e
    after_move-solid rest start i (cut end j) ss h a next e =
        in_front-solid (rest j j) start end j ss (omega (arith, h, a.0)) a.2
          (λ qs k. next j j qs (omega arith) k) e

    turn_at-solid :
        (rest : ℕ → ℕ → Option (List Codes)) (start i : ℕ) (o : Option ℕ) (ss : List Codes)
        → start ≤ i
        → Holds rest
        → turn_at t u rest profile language text start i o ≡ some ss
        → solid_all ss ≡ solid (drop start text)
    turn_at-solid rest start i none ss h next e =
        let same : tail_from t u text start ≡ ss = cc in
        ap solid_all (sym same) ∙ solid_all-stripped (drop start text)
    turn_at-solid rest start i (some c) ss h next e =
        after_move-solid rest start i (move_at t u profile language text i c) ss h
          (move_at-Advances text t u profile language i c) next e

    unicode_loop-solid : (fuel : ℕ) → Holds (unicode_loop t u profile language text fuel)
    unfolding unicode_loop
    unicode_loop-solid zero start i ss h e = cc
    unicode_loop-solid (suc fuel) start i ss h e =
        turn_at-solid (unicode_loop t u profile language text fuel) start i (head (drop i text)) ss
          h (unicode_loop-solid fuel) e

  split_unicode-solid : (text hint : Codes) → solid_all (split_unicode t u text hint) ≡ solid text
  split_unicode-solid text hint =
      unicode_loop-solid (profile_for t hint) (primary_language_of t hint) text
        (suc (length text + 0)) 0 0 (split_unicode t u text hint) (omega arith)
        (split_unicode-fuel t u text hint 0)

  -- The sentences at the backend "unicode" hold the text up to white space, whatever Unicode's
  -- properties of characters are. The condition is that the grapheme clusters of a text, one behind the
  -- other, are the text.
  pub unicode_boundaries-IsFaithful :
      ((s : Codes) → flat_map (λ c. c) (u.graphemes s) ≡ s) → IsFaithful (unicode_boundaries t u)
  unicode_boundaries-IsFaithful joined = record {
    sentences_hold = λ hint text.
        blank_or text (split_unicode t u text (hint_or_empty t u hint))
          (split_unicode-solid text (hint_or_empty t u hint));
    clusters_join = joined;
  }

  -- Breaks from a position on: they do not go back, and the last reaches the end.
  abbrev pub Reaches : ℕ → ℕ → List ℕ → Type 0
  Reaches size start [] = size ≤ start
  Reaches size start (end ∷ ends) = (start ≤ end) × Reaches size end ends

  pieces-solid :
      (size start : ℕ) (rest : Codes) (ends : List ℕ)
      → length rest ≡ size - start
      → Reaches size start ends
      → solid_all (pieces t u rest start ends) ≡ solid rest
  unfolding pieces flat_map
  pieces-solid size start [] [] l r = sym solid-nil
  pieces-solid size start (c ∷ cs) [] l r = absurd (omega (arith, l, r))
  pieces-solid size start rest (end ∷ ends) l r =
      ap (λ (s : Codes). solid (take (end - start) rest) ++ s)
        (pieces-solid size end (drop (end - start) rest) ends
          (omega (arith, length-drop (end - start) rest, l, r.0)) r.1)
      ∙ solid-take-drop (end - start) rest

  stripped-solid : (ss : List Codes) → solid_all (stripped t u ss) ≡ solid_all ss
  unfolding flat_map
  stripped-solid [] = refl
  stripped-solid (s ∷ ss) =
      flat_map-append solid (if is_empty (strip s) then [] else strip s ∷ []) (stripped t u ss)
      ∙ ap (λ (l : Codes). l ++ solid_all (stripped t u ss)) (solid_all-stripped s)
      ∙ ap (λ (l : Codes). solid s ++ l) (stripped-solid ss)

  split_icu-solid :
      (icu : Icu) (text hint : Codes)
      → Reaches (length text) 0 (icu.sentence_ends (locale_id t hint) text)
      → solid_all (split_icu t u icu text hint) ≡ solid text
  unfolding split_icu
  split_icu-solid icu text hint r =
      stripped-solid (pieces t u text 0 (icu.sentence_ends (locale_id t hint) text))
      ∙ pieces-solid (length text) 0 text (icu.sentence_ends (locale_id t hint) text) (omega arith)
          r

  -- The same at the backend "icu". The conditions are that the breaks of a text do not go back and reach
  -- its end, and that its grapheme clusters, one behind the other, are the text.
  pub icu_boundaries-IsFaithful :
      (icu : Icu)
      → ((locale text : Codes) → Reaches (length text) 0 (icu.sentence_ends locale text))
      → ((s : Codes) → flat_map (λ c. c) (u.graphemes s) ≡ s)
      → IsFaithful (icu_boundaries t u icu)
  icu_boundaries-IsFaithful icu reach joined = record {
    sentences_hold = λ hint text. blank_or text (split_icu t u icu text (hint_or_empty t u hint)) (
        split_icu-solid icu text (hint_or_empty t u hint)
          (reach (locale_id t (hint_or_empty t u hint)) text));
    clusters_join = joined;
  }
