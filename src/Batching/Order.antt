-- ===== src/Batching/Order.antt =====
-- The plan of batching.py does not depend on the order of the blocks that it is given.
use mathlib.Core.List.{Perm, Permᴰ}
use mathlib.Core.Logic.{∥∥₁_elim}
use native.Mathlib.Decide.{ℕ_discrete}
use text.Mathlib.TextEquality.{IsScalar-prop}
use astra_indexator.Prelude.{
  ℕ, ◌≡◌, refl, sym, ap, ◌∙◌, inl, inr, Bool, true, false, List, [], ◌∷◌, any, arith, eq_iff,
  Bool-cases,
}
use astra_indexator.Prelude.Int.{ltb_ℤ}
use astra_indexator.Text.{Codes, is_empty}
use astra_indexator.Exec.{Result}
use astra_indexator.Batching.{
  LogicalBlock, key_ltb, insert, sorted, has_duplicates, same_id, same_order, ordered, PlannedBatch,
  Limits, plan,
}

perm_refl : (xs : List LogicalBlock) → Permᴰ xs xs
perm_refl [] = Permᴰ.nil
perm_refl (x ∷ xs) = Permᴰ.cons refl (perm_refl xs)

any-perm : (p : LogicalBlock → Bool) {xs ys : List LogicalBlock} → Permᴰ xs ys → any p xs ≡ any p ys
any-perm p Permᴰ.nil = refl
any-perm p (Permᴰ.cons e d) = ground (arith, e, any-perm p d)
any-perm p (Permᴰ.swap e f) = ground (arith, e, f)
any-perm p (Permᴰ.trans d e) = any-perm p d ∙ any-perm p e

module _ (same : LogicalBlock → LogicalBlock → Bool)
    (symm : (a b : LogicalBlock) → same a b ≡ same b a) where
  has_duplicates-perm :
      {xs ys : List LogicalBlock} → Permᴰ xs ys → has_duplicates same xs ≡ has_duplicates same ys
  unfolding has_duplicates
  has_duplicates-perm Permᴰ.nil = refl
  has_duplicates-perm (Permᴰ.cons {a = a} {b = b} e d) =
      ground (arith, e, any-perm (same a) d, has_duplicates-perm d)
  has_duplicates-perm (Permᴰ.swap {a = a} {b = b} e f) = ground (arith, e, f, symm a b)
  has_duplicates-perm (Permᴰ.trans d e) = has_duplicates-perm d ∙ has_duplicates-perm e

insert-perm : (a : LogicalBlock) (bs : List LogicalBlock) → Permᴰ (insert a bs) (a ∷ bs)
unfolding insert
insert-perm a [] = perm_refl _
insert-perm a (b ∷ bs) = elim (Bool-cases (key_ltb b a)) [
  | inl k ↦ rw k (Permᴰ.trans (Permᴰ.cons refl (insert-perm a bs)) (Permᴰ.swap refl refl))
  | inr k ↦ rw k (perm_refl _)
]

sorted-perm : (bs : List LogicalBlock) → Permᴰ (sorted bs) bs
unfolding sorted
sorted-perm [] = Permᴰ.nil
sorted-perm (b ∷ bs) = Permᴰ.trans (insert-perm b (sorted bs)) (Permᴰ.cons refl (sorted-perm bs))

key-lt :
    (a b : LogicalBlock)
    → ltb_ℤ a.order_index b.order_index ≡ true
    → (key_ltb a b ≡ true) × (key_ltb b a ≡ false)
unfolding key_ltb
key-lt a b h = ground arith

key-lt_trans :
    (c a b : LogicalBlock)
    → ltb_ℤ a.order_index b.order_index ≡ true
    → key_ltb c a ≡ true
    → key_ltb c b ≡ true
unfolding key_ltb
key-lt_trans c a b h k = ground arith

insert_swap :
    (a b : LogicalBlock) (l : List LogicalBlock)
    → ltb_ℤ a.order_index b.order_index ≡ true
    → insert a (insert b l) ≡ insert b (insert a l)
unfolding insert
insert_swap a b [] h = let (k, k') = key-lt a b h in ground arith
insert_swap a b (c ∷ l) h =
    let (k, k') = key-lt a b h in
    let deeper = insert_swap a b l h in
    elim (Bool-cases (key_ltb c a)) [
      | inl q ↦ let q' = key-lt_trans c a b h q in ground (arith, q, q')
      | inr q ↦ ground (arith, q)
    ]

-- Blocks of different order indices may be inserted in either order.
insert_comm :
    (a b : LogicalBlock) (l : List LogicalBlock)
    → same_order a b ≡ false
    → insert a (insert b l) ≡ insert b (insert a l)
insert_comm a b l h = elim (Bool-cases (ltb_ℤ a.order_index b.order_index)) [
  | inl k ↦ insert_swap a b l k
  | inr k ↦ sym (insert_swap b a l (ordered_apart h k))
]
  where
    ordered_apart :
        same_order a b ≡ false
        → ltb_ℤ a.order_index b.order_index ≡ false
        → ltb_ℤ b.order_index a.order_index ≡ true
    ordered_apart h k = ground arith

same_id_symm : (a b : LogicalBlock) → same_id a b ≡ same_id b a
same_id_symm a b = ground (arith, eq_iff a.block_id b.block_id, eq_iff b.block_id a.block_id)

same_order_symm : (a b : LogicalBlock) → same_order a b ≡ same_order b a
same_order_symm a b = ground arith

sorted-perm_eq :
    {xs ys : List LogicalBlock}
    → Permᴰ xs ys
    → has_duplicates same_order xs ≡ false
    → sorted xs ≡ sorted ys
unfolding sorted has_duplicates
sorted-perm_eq Permᴰ.nil h = refl
sorted-perm_eq (Permᴰ.cons {a = a} {l₂ = l} e d) h =
    ap (insert a) (sorted-perm_eq d (ground arith)) ∙ ap (λ x. insert x (sorted l)) e
sorted-perm_eq (Permᴰ.swap {a = a} {b = b} {l = l} e f) h =
    insert_comm a b (sorted l) (ground arith) ∙ ground (arith, e, f)
sorted-perm_eq (Permᴰ.trans d e) h =
    sorted-perm_eq d h
    ∙ sorted-perm_eq e (sym (has_duplicates-perm same_order same_order_symm d) ∙ h)

is_empty-perm : {xs ys : List LogicalBlock} → Permᴰ xs ys → is_empty xs ≡ is_empty ys
is_empty-perm Permᴰ.nil = refl
is_empty-perm (Permᴰ.cons e d) = refl
is_empty-perm (Permᴰ.swap e f) = refl
is_empty-perm (Permᴰ.trans d e) = is_empty-perm d ∙ is_empty-perm e

-- The tests of `_ordered` run on the sorted blocks, and say the same of the given ones.
ordered_tests :
    (blocks : List LogicalBlock)
    → (has_duplicates same_id (sorted blocks) ≡ has_duplicates same_id blocks)
      × (has_duplicates same_order (sorted blocks) ≡ has_duplicates same_order blocks)
ordered_tests blocks = (
  has_duplicates-perm same_id same_id_symm (sorted-perm blocks),
  has_duplicates-perm same_order same_order_symm (sorted-perm blocks),
)

ordered-perm : {xs ys : List LogicalBlock} → Permᴰ xs ys → ordered xs ≡ ordered ys
unfolding ordered
ordered-perm {xs} {ys} d =
    let ids = has_duplicates-perm same_id same_id_symm d in
    let orders = has_duplicates-perm same_order same_order_symm d in
    let empty = is_empty-perm d in
    let (ids_x, orders_x) = ordered_tests xs in
    let (ids_y, orders_y) = ordered_tests ys in
    elim (Bool-cases (has_duplicates same_order xs)) [
      | inl dup ↦ ground (arith, ids, orders, empty, ids_x, orders_x, ids_y, orders_y, dup)
      | inr unique ↦
          let e = sorted-perm_eq d unique in
          ground (arith, ids, orders, empty, ids_x, orders_x, ids_y, orders_y, unique, e)
    ]

Result-set : IsSet (Result (List PlannedBatch))
Result-set = hlevel (ℕ_discrete, IsScalar-prop)

-- Whatever order the blocks come in, the plan is the same: the same batches with the same blocks,
-- indices and hashes, or the same error.
pub plan-perm :
    (wire_size : LogicalBlock → Result ℕ) (hash_batch : List LogicalBlock → Result (Codes × ℕ))
    (limits : Limits) (xs ys : List LogicalBlock)
    → Perm xs ys
    → plan wire_size hash_batch limits xs ≡ plan wire_size hash_batch limits ys
unfolding plan
plan-perm wire_size hash_batch limits xs ys p =
    ∥∥₁_elim p (Result-set _ _) (λ d. rw (ordered-perm d) refl)
