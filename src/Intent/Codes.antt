-- ===== src/Intent/Codes.antt =====
-- The codes of a selector's parts, and the distinct ones among them.
use astra_indexator.Prelude.{
  ◌≡◌, refl, sym, ◌∙◌, subst, ap, Bool, true, false, not, List, [], ◌∷◌, Option, none, some, String,
  All, str_eq, if◌then◌else◌,
}
use text.Mathlib.TextEquality.{eq_iff}
use astra_indexator.Text.{is_empty}
use astra_indexator.Exec.{Result, ok, err}
use astra_indexator.Batching.{◌>>=◌}
use astra_indexator.Inbox.{is_access_zone_code}
use astra_indexator.Intent.{
  Value, null, str, boolean, integer, sequence, other, invalid_intent, zone_code, zone_codes,
  without, distinct_codes,
}

abbrev pub IsZone : String → Type 0
IsZone z = is_access_zone_code z ≡ true

-- The singular part names `z` or nothing.
abbrev pub Singular : String → Value → Type 0
Singular z null = Unit
Singular z (str s) = s ≡ z
Singular z (boolean b) = ⊥
Singular z (integer n) = ⊥
Singular z (sequence es) = ⊥
Singular z other = ⊥

-- The plural part names `z` alone, or nothing.
abbrev pub Plural : String → Value → Type 0
Plural z null = Unit
Plural z (sequence es) = All (λ e. e ≡ some z) es
Plural z (str s) = ⊥
Plural z (boolean b) = ⊥
Plural z (integer n) = ⊥
Plural z other = ⊥

-- Whether a part names a code.
abbrev pub names : Value → Bool
names null = false
names (str s) = true
names (boolean b) = false
names (integer n) = false
names (sequence []) = false
names (sequence (e ∷ es)) = true
names other = false

pub str_eq-same : (s z : String) → s ≡ z → str_eq s z ≡ true
str_eq-same s z e = (eq_iff s z).1 e

ok_inj : {A : Type 0} (a b : A) → ◌≡◌ {A = Result A} (ok a) (ok b) → a ≡ b
ok_inj a b h = cc

pub zone_code-ok : (e : Option String) (z : String) → zone_code e ≡ ok z → (e ≡ some z) × IsZone z
unfolding zone_code
zone_code-ok none z h = cc
zone_code-ok (some s) z h = go (is_access_zone_code s) refl h
  where
    go :
        (b : Bool)
        → is_access_zone_code s ≡ b
        → (if b then ok s else err invalid_intent) ≡ ok z
        → (some s ≡ some z) × IsZone z
    go false e k = cc
    go true e k = let same : s ≡ z = cc in (ap some same, subst IsZone same e)

pub zone_code-zone : (z : String) → IsZone z → zone_code (some z) ≡ ok z
unfolding zone_code
zone_code-zone z h = rw h refl

pub zone_codes-ok :
    (z : String) (es : List (Option String)) (cs : List String)
    → zone_codes es ≡ ok cs
    → All (λ c. c ≡ z) cs
    → All (λ e. e ≡ some z) es × (names (sequence es) ≡ not (is_empty cs)) × All IsZone cs
unfolding zone_codes
zone_codes-ok z [] cs h same =
    subst (λ ds. Unit {0} × (false ≡ not (is_empty ds)) × All IsZone ds) (ok_inj [] cs h)
      (tt, refl, tt)
zone_codes-ok z (e ∷ es) cs h same =
    one (zone_code e) refl (zone_codes es) refl h same (zone_codes-ok z es)
  where
    Goal : List String → Type 0
    Goal ds = All (λ e. e ≡ some z) (e ∷ es) × (true ≡ not (is_empty ds)) × All IsZone ds

    one :
        (r : Result String)
        → zone_code e ≡ r
        → (rs : Result (List String)) → zone_codes es ≡ rs
        → (r >>= λ c. rs >>= λ cs. ok (c ∷ cs)) ≡ ok cs
        → All (λ c. c ≡ z) cs
        → ((ds : List String)
            → zone_codes es ≡ ok ds
            → All (λ c. c ≡ z) ds
            → All (λ e. e ≡ some z) es × (names (sequence es) ≡ not (is_empty ds)) × All IsZone ds)
        → Goal cs
    one (err x) j rs k l same recur = cc
    one (ok c) j (err x) k l same recur = cc
    one (ok c) j (ok ds) k l same recur =
        let there : (c ∷ ds) ≡ cs = ok_inj (c ∷ ds) cs l in
        let alike : All (λ c. c ≡ z) (c ∷ ds) = subst (All (λ c. c ≡ z)) (sym there) same in
        let first = zone_code-ok e c j in
        let (named, _, zones) = recur ds k alike.1 in
        subst Goal there ((first.0 ∙ ap some alike.0, named), refl, (first.1, zones))

pub zone_codes-zone :
    (z : String)
    → IsZone z
    → (es : List (Option String)) → All (λ e. e ≡ some z) es
    → (cs : List String) × (zone_codes es ≡ ok cs)
      × (names (sequence es) ≡ not (is_empty cs))
      × All (λ c. c ≡ z) cs
unfolding zone_codes
zone_codes-zone z valid [] h = ([], refl, refl, tt)
zone_codes-zone z valid (e ∷ es) (first, rest) =
    let (cs, k, n, same) = zone_codes-zone z valid es rest in
    (z ∷ cs, rw first (rw (zone_code-zone z valid) (rw k refl)), refl, (refl, same))

-- One code, repeated, is one distinct code.
without-same : (z : String) (cs : List String) → All (λ c. c ≡ z) cs → without z cs ≡ []
unfolding without
without-same z [] h = refl
without-same z (c ∷ cs) (e, h) = rw (str_eq-same c z e) (without-same z cs h)

without_again : (z : String) (cs : List String) → without z cs ≡ [] → without z (without z cs) ≡ []
unfolding without
without_again z cs h = rw h refl

pub distinct_codes-same :
    (z : String) (cs : List String) → All (λ c. c ≡ z) cs → without z (distinct_codes cs) ≡ []
unfolding distinct_codes without
distinct_codes-same z [] h = refl
distinct_codes-same z (c ∷ cs) (e, h) =
    subst (λ d. without z (distinct_codes (d ∷ cs)) ≡ []) (sym e)
      (rw (str_eq-same z z refl) (without_again z (distinct_codes cs) (distinct_codes-same z cs h)))

without-All :
    (P : String → Type 0) (c : String) (ds : List String) → P c → All P (without c ds) → All P ds
unfolding without
without-All P c [] p h = tt
without-All P c (d ∷ ds) p h = go (str_eq d c) refl h (without-All P c ds p)
  where
    go :
        (b : Bool)
        → str_eq d c ≡ b
        → All P (if b then without c ds else d ∷ without c ds)
        → (All P (without c ds) → All P ds)
        → All P (d ∷ ds)
    go true e k recur = (subst P (sym ((eq_iff d c).0 e)) p, recur k)
    go false e k recur = (k.0, recur k.1)

pub distinct_codes-All :
    (P : String → Type 0) (cs : List String) → All P (distinct_codes cs) → All P cs
unfolding distinct_codes
distinct_codes-All P [] h = tt
distinct_codes-All P (c ∷ cs) (p, h) =
    (p, distinct_codes-All P cs (without-All P c (distinct_codes cs) p h))

pub distinct_codes-empty : (cs : List String) → is_empty (distinct_codes cs) ≡ is_empty cs
unfolding distinct_codes
distinct_codes-empty [] = refl
distinct_codes-empty (c ∷ cs) = refl
