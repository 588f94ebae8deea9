-- ===== src/Splitter/Chunks.antt =====
-- src/astra_indexator/splitter/service.py: `_force_text_chunks` and `_grapheme_bounded_chunks`, which
-- cut a text that is too long for one unit.
pub mod Bounds
pub mod Kept
use astra_indexator.Prelude.{
  ℕ, ◌+◌, Bool, true, false, not, ◌&&◌, ◌||◌, List, [], ◌∷◌, ◌++◌, Option, length, ltb,
  if◌then◌else◌,
}
use astra_indexator.Text.{Codes, is_empty}
use astra_indexator.Splitter.{
  Fault, Result, ok, err, ◌>>=◌, SplitterProfile, Boundaries, run_loop,
  grapheme_exceeds_hard_char_guard,
}
use astra_indexator.Splitter.Solid.{join, split_words}

abbrev pub space : Codes
space = 0x20 ∷ []

-- `len(text) > hard_max_chars or (reliable and words > hard_max_words)`
abbrev pub over_words : SplitterProfile → ℕ × Bool → Bool
over_words p (words, reliable) = reliable && ltb p.hard_max_words words

abbrev pub over_text : SplitterProfile → Boundaries → Option Codes → Codes → Bool
over_text p b hint text =
    ltb p.hard_max_chars (length text) || over_words p (b.count_words hint text)

-- `if current: chunks.append(sep.join(current))`
abbrev pub emit_joined : Codes → List Codes → List Codes
emit_joined sep current = if is_empty current then [] else join sep current ∷ []

-- A turn of the loop over the clusters; the variables are `current` and `current_len`.
unfoldable pub cluster_turn :
    SplitterProfile → List Codes × ℕ → Codes → Result (List Codes × (List Codes × ℕ))
cluster_turn p (current, current_len) cluster =
    let full = not (is_empty current) && ltb p.hard_max_chars (current_len + length cluster) in
    let kept = if full then [] else current in
    let kept_len = if full then 0 else current_len in
    if ltb p.hard_max_chars (length cluster)
    then err grapheme_exceeds_hard_char_guard
    else ok (
      if full then emit_joined [] current else [],
      (kept ++ cluster ∷ [], kept_len + length cluster),
    )

unfoldable pub grapheme_bounded_chunks : SplitterProfile → Boundaries → Codes → Result (List Codes)
unfolding cluster_turn
grapheme_bounded_chunks p b text =
    if is_empty (b.grapheme_clusters text)
    then ok ([] ∷ [])
    else (run_loop (cluster_turn p) ([], 0) (b.grapheme_clusters text) >>= λ (chunks, (current, _)).
        ok (chunks ++ emit_joined [] current))

-- A turn of the loop over the words; the variable is `current`.
unfoldable pub word_turn :
    SplitterProfile
    → Boundaries
    → Option Codes
    → List Codes
    → Codes
    → Result (List Codes × List Codes)
word_turn p b hint current word =
    if ltb p.hard_max_chars (length word)
    then grapheme_bounded_chunks p b word
      >>= (λ pieces. ok (emit_joined space current ++ pieces, []))
    else if not (is_empty current) && over_text p b hint (join space (current ++ word ∷ []))
    then ok (join space current ∷ [], word ∷ [])
    else ok ([], current ++ word ∷ [])

unfoldable pub force_text_chunks :
    SplitterProfile → Boundaries → Option Codes → Codes → Result (List Codes)
unfolding word_turn grapheme_bounded_chunks
force_text_chunks p b hint text =
    if is_empty (split_words text)
    then grapheme_bounded_chunks p b text
    else (run_loop (word_turn p b hint) [] (split_words text) >>= λ (chunks, current).
        ok (chunks ++ emit_joined space current))
