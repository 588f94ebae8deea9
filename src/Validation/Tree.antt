-- ===== src/Validation/Tree.antt =====
-- What a list of blocks must be, and that exactly such lists are accepted.
use astra_indexator.Prelude.{
  ℕ, zero, suc, ◌≤◌, ◌<◌, ◌≡◌, ◌≢◌, refl, sym, ap, subst, ◌↔◌, Bool, true, false, List, [], ◌∷◌,
  map, Option, none, some, length, any, All, arith, if◌then◌else◌,
}
use astra_indexator.Text.{Codes, codes_eq, is_empty}
use astra_indexator.Exec.{ok, err, block_validation}
use astra_indexator.Batching.{LogicalBlock}
use astra_indexator.Validation.{id_of, parent_id_of, by_id, climb_from, follow}
use astra_indexator.Validation.Keys.{
  codes_eq_refl, codes_eq-eq, codes_eq-ne, Distinct, length-Distinct,
}

length-map : (bs : List LogicalBlock) → length (map id_of bs) ≡ length bs
length-map [] = refl
length-map (b ∷ bs) = ap suc (length-map bs)

codes_eq_sym : (s t : Codes) → codes_eq s t ≡ true → codes_eq t s ≡ true
codes_eq_sym s t h = rw (codes_eq-eq s t h) (codes_eq_refl t)

-- What is found under a key makes it a key.
found-key :
    (bs : List LogicalBlock) (key : Codes) (b : LogicalBlock)
    → by_id bs key ≡ some b
    → any (codes_eq key) (map id_of bs) ≡ true
unfolding by_id
found-key [] key b h = cc
found-key (a ∷ bs) key b h = ground (arith, h, codes_eq_sym (id_of a) key, found-key bs key b)

module _ (blocks : List LogicalBlock) (root_id : Codes) where
  -- A chain of parents of `n` steps, from a block up to the root.
  abbrev pub Climbs : ℕ → Codes → Type 0
  Climbs zero key = key ≡ root_id
  Climbs (suc n) key =
      (key ≢ root_id)
      × ((b : LogicalBlock) × (by_id blocks key ≡ some b)
          × (is_empty (parent_id_of b) ≡ false)
          × Climbs n (parent_id_of b))

  same_block : (a b : LogicalBlock) (o : Option LogicalBlock) → o ≡ some a → o ≡ some b → a ≡ b
  same_block a b o h k = cc

  -- The length of the chain is determined.
  pub Climbs-unique : (n m : ℕ) (key : Codes) → Climbs n key → Climbs m key → n ≡ m
  Climbs-unique zero zero key h k = refl
  Climbs-unique zero (suc m) key h k = absurd (k.0 h)
  Climbs-unique (suc n) zero key h k = absurd (h.0 k)
  Climbs-unique (suc n) (suc m) key (_, (b, f, _, up)) (_, (c, g, _, up')) = ap suc (
      Climbs-unique n m (parent_id_of b) up
        (subst (λ d. Climbs m (parent_id_of d)) (same_block c b (by_id blocks key) g f) up'))

  -- The loop accepts only where the root is reached.
  follow-Climbs :
      (fuel : ℕ) (seen : List Codes) (key : Codes)
      → follow blocks root_id fuel seen key ≡ ok tt
      → (n : ℕ) × Climbs n key
  unfolding follow
  follow-Climbs zero seen key h = cc
  follow-Climbs (suc fuel) seen key h =
      go (codes_eq key root_id) refl (any (codes_eq key) seen) (by_id blocks key) refl
        (follow-Climbs fuel (key ∷ seen)) h
    where
      go :
          (x : Bool)
          → codes_eq key root_id ≡ x
          → (y : Bool) → (o : Option LogicalBlock) → by_id blocks key ≡ o
          → ((k : Codes) → follow blocks root_id fuel (key ∷ seen) k ≡ ok tt → (n : ℕ) × Climbs n k)
          → (if x
              then ok tt
              else if y
              then err block_validation
              else climb_from (follow blocks root_id fuel (key ∷ seen)) o)
            ≡ ok tt
          → (n : ℕ) × Climbs n key
      go true e y o f rest h = (0, codes_eq-eq key root_id e)
      go false e true o f rest h = cc
      go false e false none f rest h = cc
      go false e false (some b) f rest h = up (is_empty (parent_id_of b)) refl h
        where
          up :
              (z : Bool)
              → is_empty (parent_id_of b) ≡ z
              → (if z
                  then err block_validation
                  else follow blocks root_id fuel (key ∷ seen) (parent_id_of b))
                ≡ ok tt
              → (n : ℕ) × Climbs n key
          up true z h = cc
          up false z h =
              let above = rest (parent_id_of b) h in
              (
                suc above.0,
                (
                  (λ k. cc (subst (λ j. codes_eq j root_id ≡ false) k e, codes_eq_refl root_id)),
                  (b, f, z, above.1),
                ),
              )

  -- What was seen below a block is farther from the root.
  abbrev Below : ℕ → List Codes → Type 0
  Below n seen = All (λ s. (m : ℕ) × Climbs m s × (n < m)) seen

  Below-unseen :
      (n : ℕ) (key : Codes) (seen : List Codes)
      → Climbs n key
      → Below n seen
      → any (codes_eq key) seen ≡ false
  Below-unseen n key [] c h = refl
  Below-unseen n key (s ∷ ss) c h =
      ground (arith, codes_eq-ne key s (λ e. ne e), Below-unseen n key ss c h.1)
    where
      ne : key ≡ s → ⊥
      ne e =
          absurd
            (omega (arith, Climbs-unique n h.0.0 key c (subst (Climbs h.0.0) (sym e) h.0.1), h.0.2))

  Below-up : (n : ℕ) (seen : List Codes) → Below (suc n) seen → Below n seen
  Below-up n [] h = tt
  Below-up n (s ∷ ss) h = ((h.0.0, h.0.1, omega (arith, h.0.2)), Below-up n ss h.1)

  follow-ok :
      (fuel : ℕ) (seen : List Codes) (n : ℕ) (key : Codes)
      → Climbs n key
      → Below n seen
      → n < fuel
      → follow blocks root_id fuel seen key ≡ ok tt
  unfolding follow
  follow-ok zero seen n key c h l = absurd (omega (arith, l))
  follow-ok (suc fuel) seen zero key c h l = rw c (rw (codes_eq_refl root_id) refl)
  follow-ok (suc fuel) seen (suc n) key c h l = rw (codes_eq-ne key root_id c.0) (
      rw (Below-unseen (suc n) key seen c h) (
        rw c.1.1 (
          rw c.1.2 (
            follow-ok fuel (key ∷ seen) n (parent_id_of c.1.0) c.1.3
              ((suc n, c, omega arith), Below-up n seen h) (omega (arith, l))))))

  -- The keys of a chain: they differ, they are keys of blocks, and they are no farther from the root.
  abbrev IsKey : Codes → Type 0
  IsKey k = any (codes_eq k) (map id_of blocks) ≡ true

  abbrev Within : ℕ → Codes → Type 0
  Within n k = (m : ℕ) × Climbs m k × (m ≤ n)

  Within-weaken : (n : ℕ) (ks : List Codes) → All (Within n) ks → All (Within (suc n)) ks
  Within-weaken n [] h = tt
  Within-weaken n (k ∷ ks) h = ((h.0.0, h.0.1, omega (arith, h.0.2)), Within-weaken n ks h.1)

  farther :
      (n : ℕ) (key : Codes) (ks : List Codes)
      → Climbs (suc n) key
      → All (Within n) ks
      → All (λ k. key ≢ k) ks
  farther n key [] c h = tt
  farther n key (k ∷ ks) c h = (
    (λ e. absurd (
        omega
          (arith, Climbs-unique (suc n) h.0.0 key c (subst (Climbs h.0.0) (sym e) h.0.1), h.0.2))),
    farther n key ks c h.1,
  )

  chain :
      (n : ℕ) (key : Codes)
      → Climbs n key
      → (ks : List Codes) × (length ks ≡ n) × Distinct ks × All IsKey ks × All (Within n) ks
  chain zero key c = ([], refl, tt, tt, tt)
  chain (suc n) key c =
      let above = chain n (parent_id_of c.1.0) c.1.3 in
      (
        key ∷ above.0,
        omega (arith, above.1),
        (farther n key above.0 c above.4, above.2),
        (found-key blocks key c.1.0 c.1.1, above.3),
        ((suc n, c, omega arith), Within-weaken n above.0 above.4),
      )

  Climbs-le : (n : ℕ) (key : Codes) → Climbs n key → n ≤ length blocks
  Climbs-le n key c =
      let ks = chain n key c in
      omega (arith, length-Distinct ks.0 (map id_of blocks) ks.2 ks.3, length-map blocks, ks.1)

  -- Every chain that reaches the root is accepted with the fuel given.
  pub follow_iff :
      (key : Codes)
      → (follow blocks root_id (suc (length blocks)) [] key ≡ ok tt) ↔ ((n : ℕ) × Climbs n key)
  follow_iff key = (
    follow-Climbs (suc (length blocks)) [] key,
    λ c. follow-ok (suc (length blocks)) [] c.0 key c.1 tt (omega (arith, Climbs-le c.0 key c.1)),
  )
