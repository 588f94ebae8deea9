-- ===== src/Splitter/Solid.antt =====
-- The text of a document up to white space: what the splitter must neither lose nor reorder.
use mathlib.Core.List.{
  reverse, reverse-append, reverse-cons, reverse-reverse, append-nil, append_assoc,
}
use astra_indexator.Prelude.{
  ℕ, ◌≤◌, ◌≡◌, refl, ap, sym, ◌∙◌, Bool, true, false, List, [], ◌∷◌, ◌++◌, arith, length,
  length-append, if◌then◌else◌,
}
use astra_indexator.Splitter.Loop.{flat_map, flat_map-append}
use astra_indexator.Text.{Codes, is_space, is_empty, lstrip, strip}

-- A text without its white space.
unfoldable pub solid : Codes → Codes
solid [] = []
solid (c ∷ cs) = let rest = solid cs in if is_space c then rest else c ∷ rest

pub solid_nil_append : (s : Codes) → solid [] ++ s ≡ s
unfolding solid
solid_nil_append s = refl

pub solid_space : (c : ℕ) (cs : Codes) → is_space c ≡ true → solid (c ∷ cs) ≡ solid cs
unfolding solid
solid_space c cs e = ground (arith, e)

abbrev pub solid_all : List Codes → Codes
solid_all = flat_map solid

pub solid-append : (s t : Codes) → solid (s ++ t) ≡ solid s ++ solid t
unfolding solid
solid-append [] t = refl
solid-append (c ∷ s) t = ground (arith, solid-append s t)

solid-lstrip : (s : Codes) → solid (lstrip s) ≡ solid s
unfolding solid lstrip
solid-lstrip [] = refl
solid-lstrip (c ∷ s) = ground (arith, solid-lstrip s)

reverse-solid_one : (c : ℕ) → reverse (solid (c ∷ [])) ≡ solid (c ∷ [])
unfolding solid
reverse-solid_one c =
    elim (is_space c) as (λ b. reverse (if b then [] else c ∷ []) ≡ (if b then [] else c ∷ [])) [
      | true ↦ refl
      | false ↦ refl
    ]

solid-reverse : (s : Codes) → solid (reverse s) ≡ reverse (solid s)
solid-reverse [] = unfold solid in refl
solid-reverse (c ∷ s) =
    ap solid (reverse-cons c s)
    ∙ solid-append (reverse s) (c ∷ [])
    ∙ ap (λ (u : Codes). u ++ solid (c ∷ [])) (solid-reverse s)
    ∙ ap (λ (u : Codes). reverse (solid s) ++ u) (sym (reverse-solid_one c))
    ∙ sym (reverse-append (solid (c ∷ [])) (solid s))
    ∙ ap reverse (sym (solid-append (c ∷ []) s))

pub solid-strip : (s : Codes) → solid (strip s) ≡ solid s
unfolding strip
solid-strip s =
    solid-reverse (lstrip (reverse (lstrip s)))
    ∙ ap reverse (solid-lstrip (reverse (lstrip s)) ∙ solid-reverse (lstrip s))
    ∙ reverse-reverse (solid (lstrip s))
    ∙ solid-lstrip s

-- Lengths and texts under strip.
length-lstrip : (s : Codes) → length (lstrip s) ≤ length s
unfolding lstrip
length-lstrip [] = omega arith
length-lstrip (c ∷ s) = ground (arith, length-lstrip s)

length-reverse : (s : Codes) → length (reverse s) ≡ length s
length-reverse [] = refl
length-reverse (c ∷ s) =
    ap length (reverse-cons c s)
    ∙ length-append (reverse s) (c ∷ [])
    ∙ omega (arith, length-reverse s)

pub length-strip : (s : Codes) → length (strip s) ≤ length s
unfolding strip
length-strip s = omega (
  arith,
  length-reverse (lstrip (reverse (lstrip s))),
  length-lstrip (reverse (lstrip s)),
  length-reverse (lstrip s),
  length-lstrip s,
)

-- Python's `sep.join(texts)` and `text.split()`.
unfoldable pub join_tail : Codes → List Codes → Codes
join_tail sep [] = []
join_tail sep (s ∷ ss) = sep ++ (s ++ join_tail sep ss)

unfoldable pub join : Codes → List Codes → Codes
unfolding join_tail
join sep [] = []
join sep (s ∷ ss) = s ++ join_tail sep ss

abbrev emit_word : Codes → List Codes → List Codes
emit_word cur words = if is_empty cur then words else cur ∷ words

unfoldable pub split_from : Codes → Codes → List Codes
split_from cur [] = emit_word cur []
split_from cur (c ∷ cs) = elim (is_space c) [
  | true ↦ emit_word cur (split_from [] cs)
  | false ↦ split_from (cur ++ c ∷ []) cs
]

unfoldable pub split_words : Codes → List Codes
unfolding split_from
split_words s = split_from [] s

module _ (sep : Codes) (blank : solid sep ≡ []) where
  solid-join_tail : (ss : List Codes) → solid (join_tail sep ss) ≡ solid_all ss
  unfolding join_tail flat_map
  solid-join_tail [] = unfold solid in refl
  solid-join_tail (s ∷ ss) =
      solid-append sep (s ++ join_tail sep ss)
      ∙ rw blank (
          solid-append s (join_tail sep ss) ∙ ap (λ (l : Codes). solid s ++ l) (solid-join_tail ss))

  pub solid-join : (ss : List Codes) → solid (join sep ss) ≡ solid_all ss
  unfolding join flat_map
  solid-join [] = unfold solid in refl
  solid-join (s ∷ ss) =
      solid-append s (join_tail sep ss) ∙ ap (λ (l : Codes). solid s ++ l) (solid-join_tail ss)

solid_all-emit_word :
    (cur : Codes) (ws : List Codes) → solid_all (emit_word cur ws) ≡ solid cur ++ solid_all ws
unfolding flat_map
solid_all-emit_word [] ws = unfold solid in refl
solid_all-emit_word (c ∷ cs) ws = refl

solid_all-split_from : (cur s : Codes) → solid_all (split_from cur s) ≡ solid cur ++ solid s
unfolding split_from
solid_all-split_from cur [] = unfold solid flat_map in solid_all-emit_word cur []
solid_all-split_from cur (c ∷ cs) =
    go (is_space c) refl (solid_all-split_from [] cs) (solid_all-split_from (cur ++ c ∷ []) cs)
  where
    go :
        (b : Bool)
        → is_space c ≡ b
        → solid_all (split_from [] cs) ≡ solid [] ++ solid cs
        → solid_all (split_from (cur ++ c ∷ []) cs) ≡ solid (cur ++ c ∷ []) ++ solid cs
        → solid_all (elim b [
          | true ↦ emit_word cur (split_from [] cs)
          | false ↦ split_from (cur ++ c ∷ []) cs
        ])
          ≡ solid cur ++ solid (c ∷ cs)
    go true e h k =
        solid_all-emit_word cur (split_from [] cs)
        ∙ ap (λ (l : Codes). solid cur ++ l)
            (h ∙ solid_nil_append (solid cs) ∙ sym (solid_space c cs e))
    go false e h k =
        k
        ∙ ap (λ (l : Codes). l ++ solid cs) (solid-append cur (c ∷ []))
        ∙ append_assoc (solid cur) (solid (c ∷ [])) (solid cs)
        ∙ ap (λ (l : Codes). solid cur ++ l) (sym (solid-append (c ∷ []) cs))

pub solid_all-split_words : (s : Codes) → solid_all (split_words s) ≡ solid s
unfolding split_words solid
solid_all-split_words s = solid_all-split_from [] s

pub solid_all_snoc :
    (ss : List Codes) (s : Codes) → solid_all (ss ++ s ∷ []) ≡ solid_all ss ++ solid s
unfolding flat_map
solid_all_snoc ss s =
    flat_map-append solid ss (s ∷ []) ∙ ap (λ (l : Codes). solid_all ss ++ l) (append-nil (solid s))

pub solid_all_one : (s : Codes) → solid_all (s ∷ []) ≡ solid s
unfolding flat_map
solid_all_one s = append-nil (solid s)

pub solid_all_nil : solid_all [] ≡ []
unfolding flat_map
solid_all_nil = refl
