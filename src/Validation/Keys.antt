-- ===== src/Validation/Keys.antt =====
-- Equality of keys, and how many keys there are.
use astra_indexator.Prelude.{
  suc, ◌≤◌, ◌≡◌, ◌≢◌, refl, sym, ◌∙◌, Bool, true, false, List, [], ◌∷◌, length, any, All, arith,
  if◌then◌else◌,
}
use astra_indexator.Text.{Codes, codes_eq}

pub codes_eq_refl : (s : Codes) → codes_eq s s ≡ true
unfolding codes_eq
codes_eq_refl [] = refl
codes_eq_refl (c ∷ cs) = ground (arith, codes_eq_refl cs)

pub codes_eq-eq : (s t : Codes) → codes_eq s t ≡ true → s ≡ t
unfolding codes_eq
codes_eq-eq [] [] h = refl
codes_eq-eq [] (d ∷ ds) h = cc
codes_eq-eq (c ∷ cs) [] h = cc
codes_eq-eq (c ∷ cs) (d ∷ ds) h = ground (arith, h, codes_eq-eq cs ds)

pub codes_eq-ne : (s t : Codes) → s ≢ t → codes_eq s t ≡ false
codes_eq-ne s t h = go (codes_eq s t) refl
  where
    go : (x : Bool) → codes_eq s t ≡ x → codes_eq s t ≡ false
    go true e = absurd (h (codes_eq-eq s t e))
    go false e = e

codes_eq-differ : (k i j : Codes) → codes_eq k j ≡ true → k ≢ i → codes_eq i j ≡ false
codes_eq-differ k i j e d = codes_eq-ne i j (λ h. d (codes_eq-eq k j e ∙ sym h))

-- A list of keys that differ.
abbrev pub Distinct : List Codes → Type 0
Distinct [] = Unit
Distinct (k ∷ ks) = All (λ j. k ≢ j) ks × Distinct ks

remove : Codes → List Codes → List Codes
remove k [] = []
remove k (j ∷ js) = let rest = remove k js in if codes_eq k j then js else j ∷ rest

length-remove :
    (k : Codes) (js : List Codes)
    → any (codes_eq k) js ≡ true
    → suc (length (remove k js)) ≤ length js
unfolding remove
length-remove k [] h = cc
length-remove k (j ∷ js) h = ground (arith, h, length-remove k js)

any-remove :
    (k i : Codes) (js : List Codes)
    → k ≢ i
    → any (codes_eq i) js ≡ true
    → any (codes_eq i) (remove k js) ≡ true
unfolding remove
any-remove k i [] d h = cc
any-remove k i (j ∷ js) d h = go (codes_eq k j) refl (any-remove k i js d)
  where
    go :
        (x : Bool)
        → codes_eq k j ≡ x
        → (any (codes_eq i) js ≡ true → any (codes_eq i) (remove k js) ≡ true)
        → any (codes_eq i) (if x then js else j ∷ remove k js) ≡ true
    go true e rest = ground (arith, h, codes_eq-differ k i j e d)
    go false e rest = ground (arith, h, rest)

-- Keys that differ and stand in a list are not more than it has.
pub length-Distinct :
    (ks js : List Codes)
    → Distinct ks
    → All (λ k. any (codes_eq k) js ≡ true) ks
    → length ks ≤ length js
length-Distinct [] js d h = omega arith
length-Distinct (k ∷ ks) js d h =
    omega (arith, length-remove k js h.0, length-Distinct ks (remove k js) d.1 (kept ks d.0 h.1))
  where
    kept :
        (is : List Codes)
        → All (λ i. k ≢ i) is
        → All (λ i. any (codes_eq i) js ≡ true) is
        → All (λ i. any (codes_eq i) (remove k js) ≡ true) is
    kept [] a b = tt
    kept (i ∷ is) a b = (any-remove k i js a.0 b.0, kept is a.1 b.1)
