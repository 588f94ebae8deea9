-- ===== src/Splitter/Chunks/Kept.antt =====
-- Cutting a text loses and reorders nothing but white space.
use mathlib.Core.List.{append-nil}
use astra_indexator.Prelude.{
  ℕ, ◌+◌, ◌≡◌, refl, ap, sym, ◌∙◌, Bool, true, false, not, ◌&&◌, List, [], ◌∷◌, ◌++◌, Option,
  length, ltb, if◌then◌else◌,
}
use astra_indexator.Text.{Codes, is_empty, is_space}
use astra_indexator.Splitter.{
  Result, ok, err, ◌>>=◌, SplitterProfile, Boundaries, run_loop, grapheme_exceeds_hard_char_guard,
}
use astra_indexator.Splitter.Loop.{
  Ensures, >>=-Ensures, flat_map, flat_map-append, run_loop-Passes, Passes,
}
use astra_indexator.Splitter.Solid.{
  solid, solid_all, solid_all_snoc, solid_all_one, solid_all_nil, solid-append, solid-join, join,
  split_words, solid_all-split_words,
}
use astra_indexator.Splitter.Chunks.{
  space, emit_joined, over_text, cluster_turn, grapheme_bounded_chunks, word_turn,
  force_text_chunks,
}

pub solid-space : solid space ≡ []
unfolding solid is_space
solid-space = refl

solid_all-emit_joined :
    (sep : Codes) (current : List Codes)
    → solid sep ≡ []
    → solid_all (emit_joined sep current) ≡ solid_all current
solid_all-emit_joined sep [] blank = refl
solid_all-emit_joined sep (s ∷ ss) blank =
    solid_all_one (join sep (s ∷ ss)) ∙ solid-join sep blank (s ∷ ss)

-- A turn that emits the current texts and keeps the new one, and a turn that only adds it.
pub solid-nil : solid [] ≡ []
unfolding solid
solid-nil = refl

cut_passes :
    (sep : Codes) (current : List Codes) (s : Codes)
    → solid sep ≡ []
    → solid_all (emit_joined sep current) ++ solid_all (s ∷ []) ≡ solid_all current ++ solid s
cut_passes sep current s blank = rw (solid_all-emit_joined sep current blank, solid_all_one s) refl

add_passes :
    (current : List Codes) (s : Codes)
    → solid_all [] ++ solid_all (current ++ s ∷ []) ≡ solid_all current ++ solid s
add_passes current s = rw solid_all_nil (solid_all_snoc current s)

end_passes :
    (sep : Codes) (chunks current : List Codes) (s : Codes)
    → solid sep ≡ []
    → solid_all chunks ++ solid_all current ≡ s
    → solid_all (chunks ++ emit_joined sep current) ≡ s
end_passes sep chunks current s blank h =
    flat_map-append solid chunks (emit_joined sep current)
    ∙ rw (solid_all-emit_joined sep current blank) h

long_passes :
    (current pieces : List Codes) (s : Codes)
    → solid_all pieces ≡ s
    → solid_all (emit_joined space current ++ pieces) ++ solid_all [] ≡ solid_all current ++ s
long_passes current pieces s h =
    rw solid_all_nil (append-nil (solid_all (emit_joined space current ++ pieces)))
    ∙ flat_map-append solid (emit_joined space current) pieces
    ∙ rw (solid_all-emit_joined space current solid-space, h) refl

module _ (p : SplitterProfile) where
  abbrev ClusterPasses : List Codes × ℕ → Codes → Result (List Codes × (List Codes × ℕ)) → Type 0
  ClusterPasses s c =
      Ensures (Passes (cluster_turn p) solid (λ v. solid_all v.0) solid s c) (λ _. Unit)

  cluster_turn-Passes :
      (s : List Codes × ℕ) (cluster : Codes)
      → ClusterPasses s (solid cluster) (cluster_turn p s cluster)
  unfolding cluster_turn
  cluster_turn-Passes (current, n) cluster =
      go (not (is_empty current) && ltb p.hard_max_chars (n + length cluster))
        (ltb p.hard_max_chars (length cluster))
    where
      go :
          (full over : Bool)
          → ClusterPasses
              (current, n)
              (solid cluster)
              (if over
                then err grapheme_exceeds_hard_char_guard
                else ok (
                  if full then emit_joined [] current else [],
                  (
                    (if full then [] else current) ++ cluster ∷ [],
                    (if full then 0 else n) + length cluster,
                  ),
                ))
      go full true = tt
      go true false = cut_passes [] current cluster (solid-nil)
      go false false = add_passes current cluster

solid-flatten : (ss : List Codes) → solid (flat_map (λ s. s) ss) ≡ solid_all ss
unfolding flat_map
solid-flatten [] = solid-nil
solid-flatten (s ∷ ss) =
    solid-append s (flat_map (λ t. t) ss) ∙ ap (λ (l : Codes). solid s ++ l) (solid-flatten ss)

-- A result whose texts hold the given characters.
abbrev pub Holds : Codes → Result (List Codes) → Type 0
Holds s r = Ensures (λ chunks. solid_all chunks ≡ s) (λ _. Unit) r

-- The clusters of a text, one behind the other, are the text.
module _ (p : SplitterProfile) (b : Boundaries)
    (joined : (t : Codes) → flat_map (λ c. c) (b.grapheme_clusters t) ≡ t) where
  pub grapheme_bounded_chunks-Holds :
      (text : Codes) → Holds (solid text) (grapheme_bounded_chunks p b text)
  unfolding grapheme_bounded_chunks
  grapheme_bounded_chunks-Holds text =
      go (b.grapheme_clusters text)
        (ap solid (sym (joined text)) ∙ solid-flatten (b.grapheme_clusters text))
    where
      go :
          (clusters : List Codes)
          → solid text ≡ solid_all clusters
          → Holds (solid text) (
              if is_empty clusters
              then ok ([] ∷ [])
              else (run_loop (cluster_turn p) ([], 0) clusters >>= λ (chunks, (current, _)).
                  ok (chunks ++ emit_joined [] current)))
      go [] e = solid_all_one [] ∙ solid-nil ∙ sym solid_all_nil ∙ sym e
      go (c ∷ cs) e =
          >>=-Ensures
            (Passes (cluster_turn p) solid (λ v. solid_all v.0) solid ([], 0) (solid_all (c ∷ cs)))
            (λ chunks. solid_all chunks ≡ solid text) (λ _. Unit)
            (run_loop (cluster_turn p) ([], 0) (c ∷ cs)) _
            (run_loop-Passes (cluster_turn p) solid (λ v. solid_all v.0) solid
              (cluster_turn-Passes p) ([], 0) (c ∷ cs))
            (λ r h. end_passes [] r.0 r.1.0 (solid text) solid-nil (rw solid_all_nil at h ∙ sym e))

  word_turn-Passes :
      (hint : Option Codes) (current : List Codes) (word : Codes)
      → Ensures
          (Passes (word_turn p b hint) solid solid_all solid current (solid word))
          (λ _. Unit)
          (word_turn p b hint current word)
  unfolding word_turn
  word_turn-Passes hint current word =
      go (ltb p.hard_max_chars (length word))
        (not (is_empty current) && over_text p b hint (join space (current ++ word ∷ [])))
    where
      go :
          (long full : Bool)
          → Ensures
              (Passes (word_turn p b hint) solid solid_all solid current (solid word))
              (λ _. Unit)
              (if long
                then grapheme_bounded_chunks p b word
                  >>= (λ pieces. ok (emit_joined space current ++ pieces, []))
                else if full
                then ok (join space current ∷ [], word ∷ [])
                else ok ([], current ++ word ∷ []))
      go true full =
          >>=-Ensures (λ pieces. solid_all pieces ≡ solid word)
            (Passes (word_turn p b hint) solid solid_all solid current (solid word)) (λ _. Unit)
            (grapheme_bounded_chunks p b word) _ (grapheme_bounded_chunks-Holds word)
            (λ pieces h. long_passes current pieces (solid word) h)
      go false true =
          rw
            (
              solid_all_one (join space current),
              solid-join space solid-space current,
              solid_all_one word,
            )
            refl
      go false false = add_passes current word

  pub force_text_chunks-Holds :
      (hint : Option Codes) (text : Codes) → Holds (solid text) (force_text_chunks p b hint text)
  unfolding force_text_chunks
  force_text_chunks-Holds hint text = go (split_words text) (sym (solid_all-split_words text))
    where
      go :
          (words : List Codes)
          → solid text ≡ solid_all words
          → Holds (solid text) (
              if is_empty words
              then grapheme_bounded_chunks p b text
              else (run_loop (word_turn p b hint) [] words >>= λ (chunks, current).
                  ok (chunks ++ emit_joined space current)))
      go [] e = grapheme_bounded_chunks-Holds text
      go (w ∷ ws) e =
          >>=-Ensures (Passes (word_turn p b hint) solid solid_all solid [] (solid_all (w ∷ ws)))
            (λ chunks. solid_all chunks ≡ solid text) (λ _. Unit)
            (run_loop (word_turn p b hint) [] (w ∷ ws)) _
            (run_loop-Passes (word_turn p b hint) solid solid_all solid (word_turn-Passes hint) []
              (w ∷ ws))
            (λ r h.
              end_passes space r.0 r.1 (solid text) solid-space (rw solid_all_nil at h ∙ sym e))
