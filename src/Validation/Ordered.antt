-- ===== src/Validation/Ordered.antt =====
-- Blocks in the order of the first loop: their identifiers and their orders differ.
use astra_indexator.Prelude.{
  ◌≡◌, ◌≢◌, refl, ◌↔◌, Bool, true, false, not, ◌&&◌, ◌||◌, List, [], ◌∷◌, ◌++◌, some, any, All,
  arith, if◌then◌else◌,
}
use astra_indexator.Prelude.Int.{ℤ, pos, negsuc, ltb_ℤ}
use astra_indexator.Text.{Codes, CaseTable, codes_eq, is_empty}
use astra_indexator.Exec.{Result, ok}
use astra_indexator.Batching.{LogicalBlock, same_order}
use astra_indexator.Validation.{
  refuse_if, id_of, is_document, is_negative, check_blocks, documents, by_id, ◌>>◌,
}
use astra_indexator.Validation.Keys.{codes_eq_refl, codes_eq-eq, codes_eq-ne}

-- Each block has an identifier that is not blank and an order that is not negative, and differs in both
-- from the blocks before it.
abbrev pub Ordered : List LogicalBlock → List LogicalBlock → Type 0
Ordered passed [] = Unit
Ordered passed (b ∷ bs) =
    (is_empty (id_of b) ≡ false)
    × All (λ a. id_of a ≢ id_of b) passed
    × (is_negative b ≡ false)
    × All (λ a. a.order_index ≢ b.order_index) passed
    × Ordered (b ∷ passed) bs

refuse_if-ok :
    (x : Bool) (m : Result (Unit {0})) → (refuse_if x >> m) ≡ ok tt → (x ≡ false) × (m ≡ ok tt)
refuse_if-ok true m h = cc
refuse_if-ok false m h = (refl, h)

head_false : (x y : Bool) → x || y ≡ false → x ≡ false
head_false x y h = ground (arith, h)

tail_false : (x y : Bool) → x || y ≡ false → y ≡ false
tail_false x y h = ground (arith, h)

both_false : (x y : Bool) → x ≡ false → y ≡ false → x || y ≡ false
both_false x y h k = ground (arith, h, k)

false_iff : {P : Type 0} (x : Bool) → (x ≡ true) ↔ P → (x ≡ false) ↔ (P → ⊥)
false_iff true i = (λ h. cc, λ h. absurd (h (i.0 refl)))
false_iff false i = (λ h p. cc (i.1 p), λ h. refl)

codes_eq_iff : (s t : Codes) → (codes_eq s t ≡ true) ↔ (s ≡ t)
codes_eq_iff s t = (codes_eq-eq s t, λ e. rw e (codes_eq_refl t))

ids_differ :
    (b : LogicalBlock) (passed : List LogicalBlock)
    → (any (λ (a : LogicalBlock). codes_eq (id_of a) (id_of b)) passed ≡ false)
      ↔ All (λ a. id_of a ≢ id_of b) passed
ids_differ b [] = (λ _. tt, λ _. refl)
ids_differ b (a ∷ rest) = (
  λ h. (
    (false_iff (codes_eq (id_of a) (id_of b)) (codes_eq_iff (id_of a) (id_of b))).0
        (head_false _ _ h),
    (ids_differ b rest).0 (tail_false _ _ h),
  ),
  λ h. both_false _ _ (codes_eq-ne (id_of a) (id_of b) h.0) ((ids_differ b rest).1 h.1),
)

same_order_iff : (i j : ℤ) → (not (ltb_ℤ i j) && not (ltb_ℤ j i) ≡ true) ↔ (i ≡ j)
same_order_iff (pos m) (pos n) = (λ h. ground (arith, h), λ h. ground (arith, h))
same_order_iff (pos m) (negsuc n) = (λ h. ground (arith, h), λ h. ground (arith, h))
same_order_iff (negsuc m) (pos n) = (λ h. ground (arith, h), λ h. ground (arith, h))
same_order_iff (negsuc m) (negsuc n) = (λ h. ground (arith, h), λ h. ground (arith, h))

orders_differ :
    (b : LogicalBlock) (passed : List LogicalBlock)
    → (any (λ (a : LogicalBlock). same_order a b) passed ≡ false)
      ↔ All (λ a. a.order_index ≢ b.order_index) passed
orders_differ b [] = (λ _. tt, λ _. refl)
orders_differ b (a ∷ rest) = (
  λ h. (
    (false_iff (same_order a b) (same_order_iff a.order_index b.order_index)).0 (head_false _ _ h),
    (orders_differ b rest).0 (tail_false _ _ h),
  ),
  λ h.
      both_false _ _
        ((false_iff (same_order a b) (same_order_iff a.order_index b.order_index)).1 h.0)
        ((orders_differ b rest).1 h.1),
)

pub check_blocks_iff :
    (passed bs : List LogicalBlock) → (check_blocks passed bs ≡ ok tt) ↔ Ordered passed bs
unfolding check_blocks
check_blocks_iff passed [] = (λ _. tt, λ _. refl)
check_blocks_iff passed (b ∷ bs) = (
  λ h.
      let one = refuse_if-ok (is_empty (id_of b)) _ h in
      let two =
        refuse_if-ok (any (λ (a : LogicalBlock). codes_eq (id_of a) (id_of b)) passed) _ one.1 in
      let three = refuse_if-ok (is_negative b) _ two.1 in
      let four = refuse_if-ok (any (λ (a : LogicalBlock). same_order a b) passed) _ three.1 in
      (
        one.0,
        (ids_differ b passed).0 two.0,
        three.0,
        (orders_differ b passed).0 four.0,
        (check_blocks_iff (b ∷ passed) bs).0 four.1,
      ),
  λ h. rw h.0 (
      rw ((ids_differ b passed).1 h.1)
        (rw h.2 (rw ((orders_differ b passed).1 h.3) ((check_blocks_iff (b ∷ passed) bs).1 h.4)))),
)

-- A block is found under its own identifier, since those before it have others.
Ordered-drop : (q p bs : List LogicalBlock) → Ordered (q ++ p) bs → Ordered q bs
Ordered-drop q p [] h = tt
Ordered-drop q p (b ∷ bs) h = (h.0, part q h.1, h.2, parts q h.3, Ordered-drop (b ∷ q) p bs h.4)
  where
    part :
        (q : List LogicalBlock)
        → All (λ a. id_of a ≢ id_of b) (q ++ p)
        → All (λ a. id_of a ≢ id_of b) q
    part [] h = tt
    part (a ∷ q) h = (h.0, part q h.1)

    parts :
        (q : List LogicalBlock)
        → All (λ a. a.order_index ≢ b.order_index) (q ++ p)
        → All (λ a. a.order_index ≢ b.order_index) q
    parts [] h = tt
    parts (a ∷ q) h = (h.0, parts q h.1)

later_differ :
    (a : LogicalBlock) (q bs : List LogicalBlock)
    → Ordered (q ++ a ∷ []) bs
    → All (λ b. id_of a ≢ id_of b) bs
later_differ a q [] h = tt
later_differ a q (b ∷ bs) h = (last q h.1, later_differ a (b ∷ q) bs h.4)
  where
    last : (q : List LogicalBlock) → All (λ c. id_of c ≢ id_of b) (q ++ a ∷ []) → id_of a ≢ id_of b
    last [] h = h.0
    last (c ∷ q) h = last q h.1

abbrev pub FoundIn : List LogicalBlock → LogicalBlock → Type 0
FoundIn blocks b = by_id blocks (id_of b) ≡ some b

found_behind :
    (a : LogicalBlock) (bs cs : List LogicalBlock)
    → All (λ b. id_of a ≢ id_of b) cs
    → All (FoundIn bs) cs
    → All (FoundIn (a ∷ bs)) cs
unfolding by_id
found_behind a bs [] d h = tt
found_behind a bs (c ∷ cs) d h =
    (rw (codes_eq-ne (id_of a) (id_of c) d.0) h.0, found_behind a bs cs d.1 h.1)

pub Ordered-FoundIn : (bs : List LogicalBlock) → Ordered [] bs → All (FoundIn bs) bs
unfolding by_id
Ordered-FoundIn [] h = tt
Ordered-FoundIn (b ∷ bs) h = (
  rw (codes_eq_refl (id_of b)) refl,
  found_behind b bs bs (later_differ b [] bs h.4)
      (Ordered-FoundIn bs (Ordered-drop [] (b ∷ []) bs h.4)),
)

pub documents-All :
    (t : CaseTable) (P : LogicalBlock → Type 0) (bs : List LogicalBlock)
    → All P bs
    → All P (documents t bs)
unfolding documents
documents-All t P [] h = tt
documents-All t P (b ∷ bs) h = go (is_document t b) (documents-All t P bs h.1)
  where
    go :
        (x : Bool)
        → All P (documents t bs)
        → All P (if x then b ∷ documents t bs else documents t bs)
    go true rest = (h.0, rest)
    go false rest = rest
