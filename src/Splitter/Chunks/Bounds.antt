-- ===== src/Splitter/Chunks/Bounds.antt =====
-- The pieces of a cut text respect the limit on characters, and only a grapheme cluster that is
-- longer than the limit stops the cutting.
use mathlib.Core.List.{append_assoc, append-nil}
use astra_indexator.Prelude.{
  ℕ, ◌+◌, ◌≤◌, ◌<◌, ◌≡◌, ◌⊎◌, inl, inr, refl, ap, sym, ◌∙◌, Bool, true, false, not, ◌&&◌, ◌||◌,
  List, [], ◌∷◌, ◌++◌, Option, length, length-append, All, All-append, ltb, arith, if◌then◌else◌,
}
use astra_indexator.Text.{Codes, is_empty}
use astra_indexator.Splitter.{
  Fault, Result, ok, err, ◌>>=◌, SplitterProfile, Boundaries, run_loop,
  grapheme_exceeds_hard_char_guard,
}
use astra_indexator.Splitter.Loop.{
  Ensures, >>=-Ensures, Ensures-weaken, run_loop-Ensures_on, Among, All-weaken, All-Among,
}
use astra_indexator.Splitter.Solid.{join, join_tail, split_words}
use astra_indexator.Splitter.Chunks.{
  space, emit_joined, over_words, cluster_turn, grapheme_bounded_chunks, word_turn,
  force_text_chunks,
}

join_tail_snoc : (ss : List Codes) (s : Codes) → join_tail [] (ss ++ s ∷ []) ≡ join_tail [] ss ++ s
unfolding join_tail
join_tail_snoc [] s = append-nil s
join_tail_snoc (t ∷ ss) s =
    ap (λ (l : Codes). t ++ l) (join_tail_snoc ss s) ∙ sym (append_assoc t (join_tail [] ss) s)

join_snoc : (ss : List Codes) (s : Codes) → join [] (ss ++ s ∷ []) ≡ join [] ss ++ s
unfolding join join_tail
join_snoc [] s = append-nil s
join_snoc (t ∷ ss) s =
    ap (λ (l : Codes). t ++ l) (join_tail_snoc ss s) ∙ sym (append_assoc t (join_tail [] ss) s)

pub join_one : (sep s : Codes) → join sep (s ∷ []) ≡ s
unfolding join join_tail
join_one sep s = append-nil s

pub ltb-false : (a b : ℕ) → ltb a b ≡ false → b ≤ a
ltb-false a b h = ground arith

module _ (p : SplitterProfile) where
  abbrev pub Fits : Codes → Type 0
  Fits s = length s ≤ p.hard_max_chars

  -- What is raised for a grapheme cluster, which is too long.
  abbrev pub TooLong : Codes → Fault → Type 0
  TooLong cluster e = (e ≡ grapheme_exceeds_hard_char_guard) × (p.hard_max_chars < length cluster)

  pub emit_joined-Fits :
      (sep : Codes) (current : List Codes)
      → Fits (join sep current)
      → All Fits (emit_joined sep current)
  emit_joined-Fits sep [] h = tt
  emit_joined-Fits sep (s ∷ ss) h = (h, tt)

  abbrev Clusters : List Codes × ℕ → Type 0
  Clusters (current, n) = (length (join [] current) ≡ n) × (n ≤ p.hard_max_chars)

  cluster_length :
      (current : List Codes) (n : ℕ) (s : Codes)
      → length (join [] current) ≡ n
      → length (join [] (current ++ s ∷ [])) ≡ n + length s
  cluster_length current n s l =
      ap length (join_snoc current s) ∙ length-append (join [] current) s ∙ omega (arith, l)

  Fits-empty :
      (n : ℕ) (s : Codes) → length (join [] []) ≡ n → Fits s → n + length s ≤ p.hard_max_chars
  unfolding join
  Fits-empty n s l h = omega (arith, l, h)

  Fits-join :
      (n : ℕ) (c : Codes) (cs : List Codes)
      → length (join [] (c ∷ cs)) ≡ n
      → n ≤ p.hard_max_chars
      → Fits (join [] (c ∷ cs))
  Fits-join n c cs l h = omega (arith, l, h)

  abbrev Cut {ℓ} : {S : Type ℓ} → (S → Type 0) → (Fault → Type 0) → Result (List Codes × S) → Type 0
  Cut {S} I Q = Ensures {A = List Codes × S} (λ r. All Fits r.0 × I r.1) Q

  cluster_turn-Fits :
      (s : List Codes × ℕ) (cluster : Codes)
      → Clusters s
      → Cut Clusters (TooLong cluster) (cluster_turn p s cluster)
  unfolding cluster_turn
  cluster_turn-Fits (current, n) cluster i =
      go current i.0 (ltb p.hard_max_chars (n + length cluster)) refl
        (ltb p.hard_max_chars (length cluster)) refl
    where
      go :
          (current : List Codes)
          → length (join [] current) ≡ n
          → (x : Bool) → ltb p.hard_max_chars (n + length cluster) ≡ x
          → (over : Bool) → ltb p.hard_max_chars (length cluster) ≡ over
          → Cut Clusters (TooLong cluster) (
              let full = not (is_empty current) && x in
              if over
              then err grapheme_exceeds_hard_char_guard
              else ok (
                if full then emit_joined [] current else [],
                (
                  (if full then [] else current) ++ cluster ∷ [],
                  (if full then 0 else n) + length cluster,
                ),
              ))
      go current l x ex true eo = (refl, ground (arith, eo))
      go [] l x ex false eo =
          (tt, (cluster_length [] n cluster l, Fits-empty n cluster l (ltb-false _ _ eo)))
      go (c ∷ cs) l true ex false eo = (
        (Fits-join n c cs l i.1, tt),
        (omega (arith, ap length (join_one [] cluster)), omega (arith, ltb-false _ _ eo)),
      )
      go (c ∷ cs) l false ex false eo =
          (tt, (cluster_length (c ∷ cs) n cluster l, ltb-false _ _ ex))

  abbrev pub Chunked : (Fault → Type 0) → Result (List Codes) → Type 0
  Chunked Q = Ensures {A = List Codes} (λ chunks. All Fits chunks) Q

  module _ (b : Boundaries) where
    -- What is raised for a word: one of its grapheme clusters is too long.
    abbrev pub InWord : Codes → Fault → Type 0
    InWord word e = (cluster : Codes) × Among cluster (b.grapheme_clusters word) × TooLong cluster e

    pub grapheme_bounded_chunks-Fits :
        (text : Codes) → Chunked (InWord text) (grapheme_bounded_chunks p b text)
    unfolding grapheme_bounded_chunks
    grapheme_bounded_chunks-Fits text =
        go (b.grapheme_clusters text) (All-Among (b.grapheme_clusters text))
      where
        go :
            (clusters : List Codes)
            → All (λ c. Among c (b.grapheme_clusters text)) clusters
            → Chunked (InWord text) (
                if is_empty clusters
                then ok ([] ∷ [])
                else (run_loop (cluster_turn p) ([], 0) clusters >>= λ (chunks, (current, _)).
                    ok (chunks ++ emit_joined [] current)))
        go [] among = (omega arith, tt)
        go (c ∷ cs) among =
            >>=-Ensures (λ r. All Fits r.0 × Clusters r.1) (λ chunks. All Fits chunks) (InWord text)
              (run_loop (cluster_turn p) ([], 0) (c ∷ cs)) _
              (run_loop-Ensures_on (cluster_turn p) Clusters Fits (InWord text)
                (λ d. Among d (b.grapheme_clusters text))
                (λ s d m i.
                  Ensures-weaken (λ r. All Fits r.0 × Clusters r.1)
                    (λ r. All Fits r.0 × Clusters r.1) (TooLong d) (InWord text)
                    (cluster_turn p s d) (cluster_turn-Fits s d i) (λ _ h. h) (λ f h. (d, m, h)))
                ([], 0) (c ∷ cs) among (unfold join in refl, omega arith))
              (λ r h.
                All-append Fits r.0 (emit_joined [] r.1.0) h.0
                  (emit_joined-Fits [] r.1.0 (omega (arith, h.1.0, h.1.1))))

    abbrev Joined : List Codes → Type 0
    Joined current = Fits (join space current)

    -- A text as a whole, or one of its words.
    abbrev pub WordOf : Codes → Codes → Type 0
    WordOf text word = (word ≡ text) ⊎ Among word (split_words text)

    -- What is raised for a text that is cut: a grapheme cluster of one of its words is too long.
    abbrev pub InText : Codes → Fault → Type 0
    InText text e = (word : Codes) × WordOf text word × InWord word e

    bounded-InText :
        (text word : Codes)
        → WordOf text word
        → Chunked (InText text) (grapheme_bounded_chunks p b word)
    bounded-InText text word of_text =
        Ensures-weaken (λ chunks. All Fits chunks) (λ chunks. All Fits chunks) (InWord word)
          (InText text) (grapheme_bounded_chunks p b word) (grapheme_bounded_chunks-Fits word)
          (λ _ h. h) (λ f h. (word, of_text, h))

    word_turn-Fits :
        (hint : Option Codes) (text : Codes) (current : List Codes) (word : Codes)
        → WordOf text word
        → Joined current
        → Cut Joined (InText text) (word_turn p b hint current word)
    unfolding word_turn
    word_turn-Fits hint text current word of_text i =
        go current i (ltb p.hard_max_chars (length word)) refl
          (ltb p.hard_max_chars (length (join space (current ++ word ∷ [])))) refl
          (over_words p (b.count_words hint (join space (current ++ word ∷ []))))
      where
        go :
            (current : List Codes)
            → Joined current
            → (long : Bool) → ltb p.hard_max_chars (length word) ≡ long
            → (x : Bool) → ltb p.hard_max_chars (length (join space (current ++ word ∷ []))) ≡ x
            → (y : Bool)
            → Cut Joined (InText text) (
                if long
                then grapheme_bounded_chunks p b word
                  >>= (λ pieces. ok (emit_joined space current ++ pieces, []))
                else if not (is_empty current) && (x || y)
                then ok (join space current ∷ [], word ∷ [])
                else ok ([], current ++ word ∷ []))
        go current i true el x ex y =
            >>=-Ensures {B = List Codes × List Codes} (λ pieces. All Fits pieces)
              (λ r. All Fits r.0 × Joined r.1) (InText text) (grapheme_bounded_chunks p b word) _
              (bounded-InText text word of_text)
              (λ pieces h. (
                All-append Fits (emit_joined space current) pieces
                    (emit_joined-Fits space current i) h,
                unfold join in omega arith,
              ))
        go [] i false el x ex y =
            (tt, omega (arith, ap length (join_one space word), ltb-false _ _ el))
        go (c ∷ cs) i false el true ex y =
            ((i, tt), omega (arith, ap length (join_one space word), ltb-false _ _ el))
        go (c ∷ cs) i false el false ex true =
            ((i, tt), omega (arith, ap length (join_one space word), ltb-false _ _ el))
        go (c ∷ cs) i false el false ex false = (tt, ltb-false _ _ ex)

    pub force_text_chunks-Fits :
        (hint : Option Codes) (text : Codes)
        → Chunked (InText text) (force_text_chunks p b hint text)
    unfolding force_text_chunks
    force_text_chunks-Fits hint text = go (split_words text) (
        All-weaken (λ w. Among w (split_words text)) (WordOf text) (split_words text) (λ w h. inr h)
          (All-Among (split_words text)))
      where
        go :
            (words : List Codes)
            → All (WordOf text) words
            → Chunked (InText text) (
                if is_empty words
                then grapheme_bounded_chunks p b text
                else (run_loop (word_turn p b hint) [] words >>= λ (chunks, current).
                    ok (chunks ++ emit_joined space current)))
        go [] among = bounded-InText text text (inl refl)
        go (w ∷ ws) among =
            >>=-Ensures (λ r. All Fits r.0 × Joined r.1) (λ chunks. All Fits chunks) (InText text)
              (run_loop (word_turn p b hint) [] (w ∷ ws)) _
              (run_loop-Ensures_on (word_turn p b hint) Joined Fits (InText text) (WordOf text)
                (word_turn-Fits hint text) [] (w ∷ ws) among (unfold join in omega arith))
              (λ r h.
                All-append Fits r.0 (emit_joined space r.1) h.0 (emit_joined-Fits space r.1 h.1))
