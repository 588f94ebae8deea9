-- ===== src/Splitter/Groups/Bounds.antt =====
-- No group exceeds the hard limits: the checks of `flush` never fail, and joining small groups keeps
-- the limits.
use mathlib.Core.List.{reverse, reverse-cons}
use astra_indexator.Prelude.{
  ◌≡◌, refl, sym, subst, Bool, true, false, not, ◌&&◌, List, [], ◌∷◌, ◌++◌, Option, none, some,
  String, All, All-append, arith, ltb, length, if◌then◌else◌,
}
use astra_indexator.Text.{CaseTable, is_empty}
use astra_indexator.Splitter.{
  Fault, Result, ok, ◌>>◌, raise_if, SplitterProfile, SplitUnit, unit_exceeds_hard_guard,
}
use astra_indexator.Splitter.Loop.{Ensures, >>=-Ensures}
use astra_indexator.Splitter.Groups.{
  Group, exceeds_hard, small_exception, flush, cut_before, place_in, place, ends_section,
  open_section, unit_turn, is_small, can_merge, merge, settle_group, consolidate_from,
  consolidate_small_groups, exceeds_soft, reaches_target, at_safe_boundary, at_strong_boundary,
  last_unit,
}

module _ (t : CaseTable) (p : SplitterProfile) where
  abbrev pub Within : List SplitUnit → Type 0
  Within [] = Unit
  Within (u ∷ us) = exceeds_hard p (u ∷ us) ≡ false

  abbrev pub GroupWithin : Group → Type 0
  GroupWithin g = Within g.units

  -- What is raised for a unit: it exceeds the limits by itself.
  abbrev pub TooLarge : SplitUnit → Fault → Type 0
  TooLarge unit e = (e ≡ unit_exceeds_hard_guard) × (exceeds_hard p (unit ∷ []) ≡ true)

  pub flush-Within :
      (buffer : List SplitUnit) (reason : String) (forced : Bool) (Q : Fault → Type 0)
      → Within buffer
      → Ensures {A = List Group}
          (λ groups. All GroupWithin groups)
          Q
          (flush t p buffer reason forced)
  unfolding flush
  flush-Within [] reason forced Q h = tt
  flush-Within (u ∷ us) reason forced Q h = rw h (h, tt)

  abbrev Turn : (Fault → Type 0) → Result (List Group × List SplitUnit) → Type 0
  Turn Q = Ensures {A = List Group × List SplitUnit} (λ r. All GroupWithin r.0 × Within r.1) Q

  place_in-Within :
      (u : SplitUnit) (us : List SplitUnit) (unit : SplitUnit) (cut : Option (String × Bool))
      (Q : Fault → Type 0)
      → exceeds_hard p (u ∷ us) ≡ false
      → exceeds_hard p (unit ∷ []) ≡ false
      → (cut ≡ none → exceeds_hard p (u ∷ (us ++ unit ∷ [])) ≡ false)
      → Turn Q (place_in t p u us unit cut)
  place_in-Within u us unit none Q h k l = (tt, l refl)
  place_in-Within u us unit (some (reason, forced)) Q h k l =
      >>=-Ensures (λ groups. All GroupWithin groups) (λ r. All GroupWithin r.0 × Within r.1) Q
        (flush t p (u ∷ us) reason forced) _ (flush-Within (u ∷ us) reason forced Q h)
        (λ groups g. (g, k))

  place-Within :
      (buffer : List SplitUnit) (unit : SplitUnit) (Q : Fault → Type 0)
      → Within buffer
      → exceeds_hard p (unit ∷ []) ≡ false
      → Turn Q (place t p buffer unit)
  unfolding place
  place-Within [] unit Q h k = (tt, k)
  place-Within (u ∷ us) unit Q h k = place_in-Within u us unit (cut_before t p u us unit) Q h k (
      go (exceeds_hard p (u ∷ (us ++ unit ∷ [])))
        (exceeds_soft p (u ∷ (us ++ unit ∷ [])) && at_safe_boundary (last_unit u us) unit)
        (reaches_target p (u ∷ us) && at_strong_boundary (last_unit u us) unit))
    where
      go :
          (x y z : Bool)
          → ◌≡◌ {A = Option (String × Bool)}
              (if x
                then some ("HARD_MAX", true)
                else if y
                then some ("SOFT_MAX_SAFE_BOUNDARY", false)
                else if z
                then some ("STRUCTURAL_BOUNDARY", false)
                else none)
              none
          → x ≡ false
      go true y z e = cc
      go false y z e = refl

  open_section-Within :
      (ends : Bool) (buffer : List SplitUnit) (unit : SplitUnit) (Q : Fault → Type 0)
      → Within buffer
      → exceeds_hard p (unit ∷ []) ≡ false
      → Turn Q (open_section t p ends buffer unit)
  open_section-Within false buffer unit Q h k = place-Within buffer unit Q h k
  open_section-Within true buffer unit Q h k =
      >>=-Ensures {B = List Group × List SplitUnit} (λ groups. All GroupWithin groups)
        (λ r. All GroupWithin r.0 × Within r.1) Q (flush t p buffer "SECTION_BOUNDARY" false) _
        (flush-Within buffer "SECTION_BOUNDARY" false Q h)
        (λ groups g.
          >>=-Ensures {B = List Group × List SplitUnit} (λ r. All GroupWithin r.0 × Within r.1)
            (λ r. All GroupWithin r.0 × Within r.1) Q (place t p [] unit) _
            (place-Within [] unit Q tt k) (λ r f. (All-append GroupWithin groups r.0 g f.0, f.1)))

  pub unit_turn-Within :
      (buffer : List SplitUnit) (unit : SplitUnit)
      → Within buffer
      → Turn (TooLarge unit) (unit_turn t p buffer unit)
  unfolding unit_turn
  unit_turn-Within buffer unit h = go (is_empty unit.text) (exceeds_hard p (unit ∷ [])) refl
    where
      go :
          (x y : Bool)
          → exceeds_hard p (unit ∷ []) ≡ y
          → Turn (TooLarge unit) (
              if x
              then ok ([], buffer)
              else (raise_if y unit_exceeds_hard_guard
                  >> open_section t p (ends_section t p buffer unit) buffer unit))
      go true y e = (tt, h)
      go false true e = (refl, e)
      go false false e =
          open_section-Within (ends_section t p buffer unit) buffer unit (TooLarge unit) h e

  Within-of : (us : List SplitUnit) → exceeds_hard p us ≡ false → Within us
  Within-of [] h = tt
  Within-of (u ∷ us) h = h

  not-false : (x y : Bool) → x && not y ≡ true → y ≡ false
  not-false x y h = ground (arith, h)

  merge-Within : (l r : Group) → can_merge t p l r ≡ true → GroupWithin (merge t p l r)
  merge-Within l r h = Within-of (l.units ++ r.units) (not-false _ _ h)

  -- The last of three tests that hold together.
  third : (x y z : Bool) → x && (y && z) ≡ true → z ≡ true
  third x y z h = ground (arith, h)

  All-reverse : (gs : List Group) → All GroupWithin gs → All GroupWithin (reverse gs)
  All-reverse [] h = tt
  All-reverse (g ∷ gs) h =
      subst (All GroupWithin) (sym (reverse-cons g gs))
        (All-append GroupWithin (reverse gs) (g ∷ []) (All-reverse gs h.1) (h.0, tt))

  settle_group-Within :
      (out : List Group) (g : Group)
      → All GroupWithin out
      → GroupWithin g
      → All GroupWithin (settle_group t p out g)
  unfolding settle_group
  settle_group-Within [] g h k = (k, tt)
  settle_group-Within (last ∷ out) g h k =
      go (is_small t p g && (not (small_exception t last.units) && can_merge t p last g))
        (λ e. third (is_small t p g) (not (small_exception t last.units)) (can_merge t p last g) e)
    where
      go :
          (x : Bool)
          → (x ≡ true → can_merge t p last g ≡ true)
          → All GroupWithin (if x then merge t p last g ∷ out else g ∷ last ∷ out)
      go true e = (merge-Within last g (e refl), h.1)
      go false e = (k, h)

  consolidate_from-Within :
      (out groups : List Group)
      → All GroupWithin out
      → All GroupWithin groups
      → All GroupWithin (consolidate_from t p out groups)
  unfolding consolidate_from
  consolidate_from-Within out [] h k = All-reverse out h
  consolidate_from-Within out (g ∷ []) h k = All-reverse _ (settle_group-Within out g h k.0)
  consolidate_from-Within out (g ∷ n ∷ rest) h k =
      go (is_small t p g && (not (small_exception t n.units) && can_merge t p g n))
        (λ e. third (is_small t p g) (not (small_exception t n.units)) (can_merge t p g n) e)
        (λ m. consolidate_from-Within (merge t p g n ∷ out) rest (m, h) k.1.1)
        (consolidate_from-Within (settle_group t p out g) (n ∷ rest)
          (settle_group-Within out g h k.0) k.1)
    where
      go :
          (x : Bool)
          → (x ≡ true → can_merge t p g n ≡ true)
          → (GroupWithin (merge t p g n)
              → All GroupWithin (consolidate_from t p (merge t p g n ∷ out) rest))
          → All GroupWithin (consolidate_from t p (settle_group t p out g) (n ∷ rest))
          → All GroupWithin (elim x [
            | true ↦ consolidate_from t p (merge t p g n ∷ out) rest
            | false ↦ consolidate_from t p (settle_group t p out g) (n ∷ rest)
          ])
      go true e a b = a (merge-Within g n (e refl))
      go false e a b = b

  pub consolidate_small_groups-Within :
      (groups : List Group)
      → All GroupWithin groups
      → All GroupWithin (consolidate_small_groups t p groups)
  unfolding consolidate_small_groups
  consolidate_small_groups-Within groups h =
      elim (ltb (length groups) 2)
        as (λ x. All GroupWithin (if x then groups else consolidate_from t p [] groups)) [
          | true ↦ h
          | false ↦ consolidate_from-Within [] groups tt h
        ]
