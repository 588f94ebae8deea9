-- ===== src/Validation/Rooted.antt =====
-- The blocks that are accepted are exactly those that form one tree.
use astra_indexator.Prelude.{
  ℕ, zero, suc, ◌≡◌, refl, sym, ap, subst, ◌↔◌, Bool, true, false, not, ◌&&◌, ◌||◌, List, [], ◌∷◌,
  some, length, All, arith,
}
use astra_indexator.Text.{Codes, CaseTable, codes_eq, is_empty}
use astra_indexator.Exec.{Result, ok, err}
use astra_indexator.Batching.{LogicalBlock}
use astra_indexator.Validation.{
  refuse_if, id_of, parent_id_of, check_blocks, documents, by_id, check_parents, follow,
  check_chains, check_root, validate_logical_blocks, ◌>>◌, is_none,
}
use astra_indexator.Validation.Keys.{codes_eq_refl, codes_eq-ne}
use astra_indexator.Validation.Tree.{Climbs, Climbs-unique, follow_iff}
use astra_indexator.Validation.Ordered.{
  Ordered, check_blocks_iff, FoundIn, Ordered-FoundIn, documents-All,
}

-- One tree: one DOCUMENT without a parent, from which every block hangs by a chain of parents.
abbrev pub IsTree : CaseTable → List LogicalBlock → Type 0
IsTree t blocks =
    Ordered [] blocks
    × ((root : LogicalBlock) × (documents t blocks ≡ root ∷ [])
        × (is_empty (parent_id_of root) ≡ true)
        × All (λ b. (n : ℕ) × Climbs blocks (id_of root) n (id_of b)) blocks)

then-ok :
    {B : Type 0} (m : Result (Unit {0})) (n : Result B) {r : B}
    → (m >> n) ≡ ok r
    → (m ≡ ok tt) × (n ≡ ok r)
then-ok (ok tt) n h = (refl, h)
then-ok (err e) n h = cc

refused-not : (x : Bool) → refuse_if x ≡ ok tt → x ≡ false
refused-not true h = cc
refused-not false h = refl

no_parent_fault :
    (w x y z : Bool) → x ≡ false → y ≡ false → z ≡ false → not w && (x || (y || z)) ≡ false
no_parent_fault w x y z h k l = ground (arith, h, k, l)

module _ (blocks : List LogicalBlock) (root_id : Codes) (top : LogicalBlock)
    (found : by_id blocks root_id ≡ some top) where
  abbrev Reached : LogicalBlock → Type 0
  Reached b = (n : ℕ) × Climbs blocks root_id n (id_of b)

  found_above :
      (n : ℕ) (key : Codes) → Climbs blocks root_id n key → is_none (by_id blocks key) ≡ false
  found_above zero key c = rw c (rw found refl)
  found_above (suc n) key c = rw c.1.1 refl

  -- A block that reaches the root has a parent that is another block.
  parent_good :
      (b : LogicalBlock)
      → FoundIn blocks b
      → Reached b
      → not (codes_eq (id_of b) root_id)
          && (is_empty (parent_id_of b)
              || (codes_eq (parent_id_of b) (id_of b) || is_none (by_id blocks (parent_id_of b))))
        ≡ false
  parent_good b f (zero, c) = rw c (rw (codes_eq_refl root_id) refl)
  parent_good b f (suc n, (ne, (a, g, given, up))) =
      no_parent_fault (codes_eq (id_of b) root_id) (is_empty (parent_id_of b))
        (codes_eq (parent_id_of b) (id_of b)) (is_none (by_id blocks (parent_id_of b)))
        (subst (λ d. is_empty (parent_id_of d) ≡ false) same given)
        (codes_eq-ne (parent_id_of b) (id_of b) (λ e. absurd (
          omega (
            arith,
            Climbs-unique blocks root_id n (suc n) (id_of b)
                (subst (Climbs blocks root_id n) e above) (ne, (a, g, given, up)),
          ))))
        (found_above n (parent_id_of b) above)
    where
      same : a ≡ b
      same = cc

      above : Climbs blocks root_id n (parent_id_of b)
      above = subst (λ d. Climbs blocks root_id n (parent_id_of d)) same up

  check_parents-ok :
      (bs : List LogicalBlock)
      → All (FoundIn blocks) bs
      → All Reached bs
      → check_parents blocks root_id bs ≡ ok tt
  unfolding check_parents
  check_parents-ok [] f r = refl
  check_parents-ok (b ∷ bs) f r = rw (parent_good b f.0 r.0) (check_parents-ok bs f.1 r.1)

  check_chains_iff :
      (bs : List LogicalBlock) → (check_chains blocks root_id bs ≡ ok tt) ↔ All Reached bs
  unfolding check_chains
  check_chains_iff [] = (λ _. tt, λ _. refl)
  check_chains_iff (b ∷ bs) = (
    λ h.
        let both = then-ok (follow blocks root_id (suc (length blocks)) [] (id_of b)) _ h in
        ((follow_iff blocks root_id (id_of b)).0 both.0, (check_chains_iff bs).0 both.1),
    λ r. rw ((follow_iff blocks root_id (id_of b)).1 r.0) ((check_chains_iff bs).1 r.1),
  )

abbrev Accepts : CaseTable → List LogicalBlock → List LogicalBlock → Type 0
Accepts t blocks given =
    (given ≡ blocks)
    × ((root : LogicalBlock) × (documents t blocks ≡ root ∷ [])
        × (is_empty (parent_id_of root) ≡ true)
        × All (λ b. (n : ℕ) × Climbs blocks (id_of root) n (id_of b)) blocks)

ok_same : (a b : List LogicalBlock) → ◌≡◌ {A = Result (List LogicalBlock)} (ok a) (ok b) → a ≡ b
ok_same a b h = cc

found_root :
    (t : CaseTable) (blocks : List LogicalBlock)
    → All (FoundIn blocks) blocks
    → (root : LogicalBlock) → documents t blocks ≡ root ∷ []
    → by_id blocks (id_of root) ≡ some root
found_root t blocks f root e =
    (subst (All (FoundIn blocks)) e (documents-All t (FoundIn blocks) blocks f)).0

accepted :
    (t : CaseTable) (blocks given : List LogicalBlock)
    → given ≡ blocks
    → Ordered [] blocks
    → (root : LogicalBlock) × (documents t blocks ≡ root ∷ [])
      × (is_empty (parent_id_of root) ≡ true)
      × All (λ b. (n : ℕ) × Climbs blocks (id_of root) n (id_of b)) blocks
    → (refuse_if (is_empty blocks)
        >> (check_blocks [] blocks >> check_root blocks (documents t blocks)))
      ≡ ok given
accepted t [] given e o (root, d, p, c) = absurd (no_documents t root d)
  where
    no_documents : (t : CaseTable) (root : LogicalBlock) → documents t [] ≡ root ∷ [] → ⊥
    no_documents t root d = unfold documents in cc
accepted t (b ∷ bs) given e o (root, d, p, c) =
    let f = Ordered-FoundIn (b ∷ bs) o in
    let top = found_root t (b ∷ bs) f root d in
    rw ((check_blocks_iff [] (b ∷ bs)).1 o) (
      rw d (
        rw p (
          rw (check_parents-ok (b ∷ bs) (id_of root) root top (b ∷ bs) f c)
            (rw ((check_chains_iff (b ∷ bs) (id_of root) root top (b ∷ bs)).1 c) (ap ok (sym e))))))

not-true : (x : Bool) → not x ≡ false → x ≡ true
not-true x h = ground (arith, h)

check_root-Accepts :
    (t : CaseTable) (blocks : List LogicalBlock)
    → All (FoundIn blocks) blocks
    → (ds : List LogicalBlock) → documents t blocks ≡ ds
    → (given : List LogicalBlock) → check_root blocks ds ≡ ok given
    → Accepts t blocks given
check_root-Accepts t blocks f [] e given h = cc
check_root-Accepts t blocks f (a ∷ b ∷ ds) e given h = cc
check_root-Accepts t blocks f (root ∷ []) e given h =
    let one = then-ok (refuse_if (not (is_empty (parent_id_of root)))) _ h in
    let two = then-ok (check_parents blocks (id_of root) blocks) _ one.1 in
    let three = then-ok (check_chains blocks (id_of root) blocks) (ok blocks) two.1 in
    (
      ok_same given blocks (sym three.1),
      (
        root,
        e,
        not-true (is_empty (parent_id_of root)) (refused-not _ one.0),
        (check_chains_iff blocks (id_of root) root (found_root t blocks f root e) blocks).0 three.0,
      ),
    )

-- Exactly the lists of blocks that form one tree are accepted, and they are returned as they are: every
-- block has an identifier that is not blank and an order that is not negative, no two share either, one
-- is the DOCUMENT, it has no parent, and every block reaches it by a chain of parents.
pub validate_logical_blocks_iff :
    (t : CaseTable) (blocks given : List LogicalBlock)
    → (validate_logical_blocks t blocks ≡ ok given) ↔ ((given ≡ blocks) × IsTree t blocks)
unfolding validate_logical_blocks
validate_logical_blocks_iff t blocks given = (
  λ h.
      let one = then-ok (refuse_if (is_empty blocks)) _ h in
      let two = then-ok (check_blocks [] blocks) _ one.1 in
      let ordered = (check_blocks_iff [] blocks).0 two.0 in
      let rooted =
        check_root-Accepts t blocks (Ordered-FoundIn blocks ordered) (documents t blocks) refl given
          two.1 in
      (rooted.0, (ordered, rooted.1)),
  λ h. accepted t blocks given h.0 h.1.0 h.1.1,
)
