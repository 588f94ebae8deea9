-- ===== src/Intent/Selector.antt =====
-- The selector of an access zone: `normalize_selector` finds the one code that all parts of it name.
use astra_indexator.Prelude.{
  ◌≡◌, ◌↔◌, refl, sym, ◌∙◌, subst, Bool, true, false, not, ◌||◌, List, [], ◌∷◌, Option, none, some,
  String, All, str_eq, if◌then◌else◌,
}
use text.Mathlib.TextEquality.{eq_iff}
use astra_indexator.Text.{is_empty}
use astra_indexator.Exec.{Result, ok, err}
use astra_indexator.Batching.{◌>>=◌}
use astra_indexator.Intent.{
  Value, null, str, boolean, integer, sequence, other, invalid_intent, zone_code, singular_code,
  plural_codes, without, distinct_codes, select, normalize_selector,
}
use astra_indexator.Intent.Codes.{
  IsZone, Singular, Plural, names, str_eq-same, zone_code-ok, zone_code-zone, zone_codes-ok,
  zone_codes-zone, distinct_codes-same, distinct_codes-All, distinct_codes-empty,
}

-- What a selection of `z` rests on.
abbrev One : String → Option String → Type 0
One z none = Unit
One z (some s) = s ≡ z

abbrev is_given : Option String → Bool
is_given none = false
is_given (some s) = true

select-ok :
    (z : String) (single : Option String) (ds : List String)
    → select single ds ≡ ok (some z)
    → One z single × (is_given single || not (is_empty ds) ≡ true) × All (λ c. c ≡ z) ds
unfolding select
select-ok z single (c ∷ d ∷ ds) h = cc
select-ok z none [] h = cc
select-ok z none (c ∷ []) h = let same : c ≡ z = cc in (tt, refl, (same, tt))
select-ok z (some s) [] h = let same : s ≡ z = cc in (same, refl, tt)
select-ok z (some s) (c ∷ []) h = go (str_eq s c) refl h
  where
    go :
        (b : Bool)
        → str_eq s c ≡ b
        → (if not b then err invalid_intent else ok (some s)) ≡ ok (some z)
        → (s ≡ z) × (true ≡ true) × All (λ c. c ≡ z) (c ∷ [])
    go false e k = cc
    go true e k = let same : s ≡ z = cc in (same, refl, (sym ((eq_iff s c).0 e) ∙ same, tt))

select-zone :
    (z : String) (single : Option String) (cs : List String)
    → One z single
    → is_given single || not (is_empty cs) ≡ true
    → All (λ c. c ≡ z) cs
    → select single (distinct_codes cs) ≡ ok (some z)
unfolding select distinct_codes
select-zone z none [] one given same = cc
select-zone z (some s) [] one given same = rw one refl
select-zone z none (c ∷ cs) one given (e, same) =
    subst (λ d. select none (d ∷ without d (distinct_codes cs)) ≡ ok (some z)) (sym e)
      (rw (distinct_codes-same z cs same) refl)
select-zone z (some s) (c ∷ cs) one given (e, same) =
    subst (λ d. select (some s) (d ∷ without d (distinct_codes cs)) ≡ ok (some z)) (sym e)
      (rw (distinct_codes-same z cs same) (rw (str_eq-same s z one) (rw one refl)))

-- What is read of a part, and back.
singular_code-ok :
    (z : String) (v : Value) (single : Option String)
    → singular_code v ≡ ok single
    → One z single
    → Singular z v × (names v ≡ is_given single) × ((is_given single ≡ true) → IsZone z)
unfolding singular_code
singular_code-ok z null none h one = (tt, refl, λ k. cc)
singular_code-ok z null (some c) h one = cc
singular_code-ok z (boolean b) single h one = cc
singular_code-ok z (integer n) single h one = cc
singular_code-ok z (sequence es) single h one = cc
singular_code-ok z other single h one = cc
singular_code-ok z (str s) single h one = go (zone_code (some s)) refl single h one
  where
    go :
        (r : Result String)
        → zone_code (some s) ≡ r
        → (single : Option String) → (r >>= λ c. ok (some c)) ≡ ok single
        → One z single
        → (s ≡ z) × (true ≡ is_given single) × ((is_given single ≡ true) → IsZone z)
    go (err x) k single h one = cc
    go (ok c) k none h one = cc
    go (ok c) k (some d) h one =
        let found = zone_code-ok (some s) c k in
        let here : c ≡ d = cc in
        let whole : s ≡ c = some_same s c found.0 in
        (whole ∙ here ∙ one, refl, λ k. subst IsZone (here ∙ one) found.1)
      where
        some_same : (a b : String) → some a ≡ some b → a ≡ b
        some_same a b e = cc

singular_code-zone :
    (z : String) (v : Value)
    → IsZone z
    → Singular z v
    → (single : Option String) × (singular_code v ≡ ok single)
      × (names v ≡ is_given single)
      × One z single
unfolding singular_code
singular_code-zone z null valid h = (none, refl, refl, tt)
singular_code-zone z (str s) valid h = (some z, rw h (rw (zone_code-zone z valid) refl), refl, refl)
singular_code-zone z (boolean b) valid h = absurd h
singular_code-zone z (integer n) valid h = absurd h
singular_code-zone z (sequence es) valid h = absurd h
singular_code-zone z other valid h = absurd h

plural_codes-ok :
    (z : String) (w : Value) (cs : List String)
    → plural_codes w ≡ ok cs
    → All (λ c. c ≡ z) cs
    → Plural z w × (names w ≡ not (is_empty cs)) × All IsZone cs
unfolding plural_codes
plural_codes-ok z null [] h same = (tt, refl, tt)
plural_codes-ok z null (c ∷ cs) h same = cc
plural_codes-ok z (sequence es) cs h same = zone_codes-ok z es cs h same
plural_codes-ok z (str s) cs h same = cc
plural_codes-ok z (boolean b) cs h same = cc
plural_codes-ok z (integer n) cs h same = cc
plural_codes-ok z other cs h same = cc

plural_codes-zone :
    (z : String) (w : Value)
    → IsZone z
    → Plural z w
    → (cs : List String) × (plural_codes w ≡ ok cs)
      × (names w ≡ not (is_empty cs))
      × All (λ c. c ≡ z) cs
unfolding plural_codes
plural_codes-zone z null valid h = ([], refl, refl, tt)
plural_codes-zone z (sequence es) valid h = zone_codes-zone z valid es h
plural_codes-zone z (str s) valid h = absurd h
plural_codes-zone z (boolean b) valid h = absurd h
plural_codes-zone z (integer n) valid h = absurd h
plural_codes-zone z other valid h = absurd h

either-IsZone :
    (z : String) (single : Option String) (cs : List String)
    → is_given single || not (is_empty cs) ≡ true
    → ((is_given single ≡ true) → IsZone z)
    → All IsZone cs
    → All (λ c. c ≡ z) cs
    → IsZone z
either-IsZone z (some s) cs given zone zones same = zone refl
either-IsZone z none (c ∷ cs) given zone zones same = subst IsZone same.0 zones.0
either-IsZone z none [] given zone zones same = cc

-- A selector that is read as `z`.
abbrev pub Selects : String → Value → Value → Type 0
Selects z v w = IsZone z × Singular z v × Plural z w × (names v || names w ≡ true)

pub normalize_selector_iff :
    (z : String) (v w : Value) → (normalize_selector v w ≡ ok (some z)) ↔ Selects z v w
unfolding normalize_selector
normalize_selector_iff z v w = (
  λ h. forward (singular_code v) refl (plural_codes w) refl h,
  λ (valid, one, several, named).
      let (single, k, n, o) = singular_code-zone z v valid one in
      let (cs, l, m, same) = plural_codes-zone z w valid several in
      rw k (rw l (select-zone z single cs o (given single cs n m named) same)),
)
  where
    given :
        (single : Option String) (cs : List String)
        → names v ≡ is_given single
        → names w ≡ not (is_empty cs)
        → names v || names w ≡ true
        → is_given single || not (is_empty cs) ≡ true
    given single cs n m named =
        subst (λ b. is_given single || b ≡ true) m (subst (λ b. b || names w ≡ true) n named)

    forward :
        (r : Result (Option String))
        → singular_code v ≡ r
        → (rs : Result (List String)) → plural_codes w ≡ rs
        → (r >>= λ single. rs >>= λ values. select single (distinct_codes values)) ≡ ok (some z)
        → Selects z v w
    forward (err x) k rs l h = cc
    forward (ok single) k (err x) l h = cc
    forward (ok single) k (ok cs) l h =
        let (one, given, alike) = select-ok z single (distinct_codes cs) h in
        let same = distinct_codes-All (λ c. c ≡ z) cs alike in
        let there = subst (λ b. is_given single || not b ≡ true) (distinct_codes-empty cs) given in
        let (single_z, n, zone) = singular_code-ok z v single k one in
        let (plural_z, m, zones) = plural_codes-ok z w cs l same in
        (
          either-IsZone z single cs there zone zones same,
          single_z,
          plural_z,
          subst (λ b. b || names w ≡ true) (sym n)
              (subst (λ b. is_given single || b ≡ true) (sym m) there),
        )
