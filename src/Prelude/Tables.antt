-- ===== src/Prelude/Tables.antt =====
-- A database table as the list of its rows, with the statements that the program runs on it.
use astra_indexator.Prelude.{
  ℕ, suc, ◌≡◌, refl, inl, inr, Bool, ◌&&◌, List, [], ◌∷◌, Option, none, some, find, arith, ◌==◌,
  if◌then◌else◌, find, Bool-cases,
}

module _ {ℓ} {A : Type ℓ} where
  -- `UPDATE … WHERE p`
  unfoldable pub update_where : (A → Bool) → (A → A) → List A → List A
  update_where p f [] = []
  update_where p f (r ∷ rows) =
      let rest = update_where p f rows in if p r then f r ∷ rest else r ∷ rest

  -- The row count that such a statement reports.
  unfoldable pub count_where : (A → Bool) → List A → ℕ
  count_where p [] = 0
  count_where p (r ∷ rows) = let rest = count_where p rows in if p r then suc rest else rest

-- Tables with a primary key.
module _ {ℓ} {A : Type ℓ} (key : A → ℕ) where
  unfoldable pub find_key : ℕ → List A → Option A
  find_key k [] = none
  find_key k (r ∷ rows) = let rest = find_key k rows in if key r == k then some r else rest

  -- No two rows have one key.
  abbrev pub IsKeyed : List A → Type ℓ
  IsKeyed [] = Unit
  IsKeyed (r ∷ rows) = (find_key (key r) rows ≡ none) × IsKeyed rows

module _ {ℓ} {A : Type ℓ} (key : A → ℕ) where
  -- A change that keeps the keys leaves every other row, and changes the row that is found.
  pub find_key-update_where :
      (k j : ℕ) (f : A → A) (rows : List A)
      → ((r : A) → key (f r) ≡ key r)
      → find_key key j (update_where (λ r. key r == k) f rows) ≡ (
          if j == k
          then elim (find_key key j rows) [ none ↦ none | some r ↦ some (f r) ]
          else find_key key j rows)
  unfolding find_key update_where
  find_key-update_where k j f [] h = ground arith
  find_key-update_where k j f (r ∷ rows) h = ground (arith, h r, find_key-update_where k j f rows h)

  -- No statement that keeps the keys adds a row or removes one.
  pub find_key-none-update_where :
      (p : A → Bool) (f : A → A) (j : ℕ) (rows : List A)
      → ((r : A) → key (f r) ≡ key r)
      → find_key key j rows ≡ none
      → find_key key j (update_where p f rows) ≡ none
  unfolding find_key update_where
  find_key-none-update_where p f j [] h e = refl
  find_key-none-update_where p f j (r ∷ rows) h e =
      ground (arith, h r, find_key-none-update_where p f j rows h)

  pub update_where-IsKeyed :
      (p : A → Bool) (f : A → A) (rows : List A)
      → ((r : A) → key (f r) ≡ key r)
      → IsKeyed key rows
      → IsKeyed key (update_where p f rows)
  unfolding update_where
  update_where-IsKeyed p f [] h v = tt
  update_where-IsKeyed p f (r ∷ rows) h v =
      let rest = update_where-IsKeyed p f rows h v.1 in
      let gone = find_key-none-update_where p f (key r) rows h v.0 in
      let same = h r in
      elim (Bool-cases (p r)) [
        | inl hit ↦ rw (hit, same) (gone, rest)
        | inr miss ↦ rw miss (gone, rest)
      ]

  -- A key that is found is the key of the row.
  pub key-find_key : (k : ℕ) (rows : List A) (r : A) → find_key key k rows ≡ some r → key r ≡ k
  unfolding find_key
  key-find_key k [] r e = cc
  key-find_key k (x ∷ rows) r e = ground (arith, key-find_key k rows r)

  -- On a keyed table, a statement that names a key meets the row that is found, and no other.
  module _ (k : ℕ) (q : A → Bool) where
    abbrev pub fenced : A → Bool
    fenced r = (key r == k) && q r

    count_where-missing : (rows : List A) → find_key key k rows ≡ none → count_where fenced rows ≡ 0
    unfolding find_key count_where
    count_where-missing [] e = refl
    count_where-missing (r ∷ rows) e = ground (arith, count_where-missing rows)

    pub count_where-fenced :
        (rows : List A)
        → IsKeyed key rows
        → count_where fenced rows
          ≡ elim (find_key key k rows) [ none ↦ 0 | some r ↦ if q r then 1 else 0 ]
    unfolding find_key count_where
    count_where-fenced [] v = refl
    count_where-fenced (r ∷ rows) v = elim (Bool-cases (key r == k)) [
      | inl hit ↦ ground (arith, count_where-missing rows)
      | inr miss ↦ ground (arith, count_where-fenced rows v.1)
    ]

    update_where-missing :
        (f : A → A) (rows : List A) → find_key key k rows ≡ none → update_where fenced f rows ≡ rows
    unfolding find_key update_where
    update_where-missing f [] e = refl
    update_where-missing f (r ∷ rows) e = ground (arith, update_where-missing f rows)

    pub find_key-update_fenced :
        (f : A → A) (j : ℕ) (rows : List A)
        → ((r : A) → key (f r) ≡ key r)
        → find_key key j (update_where fenced f rows) ≡ (
            if j == k
            then elim (find_key key j rows) [ none ↦ none | some r ↦ some (if q r then f r else r) ]
            else find_key key j rows)
    unfolding find_key update_where
    find_key-update_fenced f j [] h = ground arith
    find_key-update_fenced f j (r ∷ rows) h = ground (arith, h r, find_key-update_fenced f j rows h)

    find-missing : (rows : List A) → find_key key k rows ≡ none → find fenced rows ≡ none
    unfolding find_key
    find-missing [] e = refl
    find-missing (r ∷ rows) e = ground (arith, find-missing rows)

    -- `SELECT … WHERE` such a condition.
    pub find-fenced :
        (rows : List A)
        → IsKeyed key rows
        → find fenced rows
          ≡ elim (find_key key k rows) [ none ↦ none | some r ↦ if q r then some r else none ]
    unfolding find_key
    find-fenced [] v = refl
    find-fenced (r ∷ rows) v = elim (Bool-cases (key r == k)) [
      | inl hit ↦ ground (arith, find-missing rows)
      | inr miss ↦ ground (arith, find-fenced rows v.1)
    ]
