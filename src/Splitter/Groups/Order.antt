-- ===== src/Splitter/Groups/Order.antt =====
-- Grouping keeps every unit that has a text, once and in order, and so does joining small groups.
use mathlib.Core.List.{append_assoc, append-nil, reverse, reverse-cons}
use astra_indexator.Prelude.{
  ◌≡◌, refl, ap, sym, ◌∙◌, Bool, true, false, not, ◌&&◌, List, [], ◌∷◌, ◌++◌, Option, none, some,
  String, ltb, length, if◌then◌else◌,
}
use astra_indexator.Text.{CaseTable, is_empty}
use astra_indexator.Splitter.{
  Result, ok, ◌>>◌, raise_if, SplitterProfile, SplitUnit, unit_exceeds_hard_guard,
  hard_guard_violation,
}
use astra_indexator.Splitter.Loop.{
  Ensures, >>=-Ensures, flat_map, flat_map_nil, flat_map_one, flat_map_cons, flat_map-append,
  Passes,
}
use astra_indexator.Splitter.Groups.{
  Group, exceeds_hard, small_exception, flush, cut_before, place_in, place, ends_section,
  open_section, unit_turn, is_small, can_merge, merge, settle_group, consolidate_from,
  consolidate_small_groups,
}

abbrev pub units_of : Group → List SplitUnit
units_of g = g.units

-- A unit that is indexed: one with a text.
abbrev pub with_text : SplitUnit → List SplitUnit
with_text u = if is_empty u.text then [] else u ∷ []

abbrev pub Flushed : List SplitUnit → Result (List Group) → Type 0
Flushed us = Ensures {A = List Group} (λ groups. flat_map units_of groups ≡ us) (λ _. Unit)

module _ (t : CaseTable) (p : SplitterProfile) where
  pub flush-Flushed :
      (buffer : List SplitUnit) (reason : String) (forced : Bool)
      → Flushed buffer (flush t p buffer reason forced)
  unfolding flush
  flush-Flushed [] reason forced = flat_map_nil units_of
  flush-Flushed (u ∷ us) reason forced = go (exceeds_hard p (u ∷ us))
    where
      go :
          (x : Bool)
          → Flushed (u ∷ us) (
              raise_if x hard_guard_violation
              >> ok (record { units = u ∷ us; reason = reason; forced = forced } ∷ []))
      go true = tt
      go false = flat_map_one units_of _

  abbrev Turn : List SplitUnit → Result (List Group × List SplitUnit) → Type 0
  Turn us =
      Ensures {A = List Group × List SplitUnit} (λ r. flat_map units_of r.0 ++ r.1 ≡ us) (λ _. Unit)

  flush_then :
      (groups : List Group) (us vs : List SplitUnit)
      → flat_map units_of groups ≡ us
      → flat_map units_of groups ++ vs ≡ us ++ vs
  flush_then groups us vs h = rw h refl

  place-Passes :
      (buffer : List SplitUnit) (unit : SplitUnit)
      → Turn (buffer ++ unit ∷ []) (place t p buffer unit)
  unfolding place
  place-Passes [] unit = rw (flat_map_nil units_of) refl
  place-Passes (u ∷ us) unit = go (cut_before t p u us unit)
    where
      go :
          (cut : Option (String × Bool)) → Turn (u ∷ (us ++ unit ∷ [])) (place_in t p u us unit cut)
      go none = rw (flat_map_nil units_of) refl
      go (some (reason, forced)) =
          >>=-Ensures (λ groups. flat_map units_of groups ≡ u ∷ us)
            (λ r. flat_map units_of r.0 ++ r.1 ≡ u ∷ (us ++ unit ∷ [])) (λ _. Unit)
            (flush t p (u ∷ us) reason forced) _ (flush-Flushed (u ∷ us) reason forced)
            (λ groups h. flush_then groups (u ∷ us) (unit ∷ []) h)

  open_section-Passes :
      (ends : Bool) (buffer : List SplitUnit) (unit : SplitUnit)
      → Turn (buffer ++ unit ∷ []) (open_section t p ends buffer unit)
  open_section-Passes false buffer unit = place-Passes buffer unit
  open_section-Passes true buffer unit =
      >>=-Ensures {B = List Group × List SplitUnit} (λ groups. flat_map units_of groups ≡ buffer)
        (λ r. flat_map units_of r.0 ++ r.1 ≡ buffer ++ unit ∷ []) (λ _. Unit)
        (flush t p buffer "SECTION_BOUNDARY" false) _
        (flush-Flushed buffer "SECTION_BOUNDARY" false)
        (λ groups g.
          >>=-Ensures {B = List Group × List SplitUnit}
            (λ r. flat_map units_of r.0 ++ r.1 ≡ unit ∷ [])
            (λ r. flat_map units_of r.0 ++ r.1 ≡ buffer ++ unit ∷ []) (λ _. Unit)
            (place t p [] unit) _ (place-Passes [] unit)
            (λ r f.
              ap (λ (l : List SplitUnit). l ++ r.1) (flat_map-append units_of groups r.0)
              ∙ append_assoc (flat_map units_of groups) (flat_map units_of r.0) r.1
              ∙ rw (g, f) refl))

  pub unit_turn-Passes :
      (buffer : List SplitUnit) (unit : SplitUnit)
      → Ensures
          (Passes (unit_turn t p) units_of (λ b. b) with_text buffer (with_text unit))
          (λ _. Unit)
          (unit_turn t p buffer unit)
  unfolding unit_turn
  unit_turn-Passes buffer unit = go (is_empty unit.text) (exceeds_hard p (unit ∷ []))
    where
      go :
          (x y : Bool)
          → Turn (buffer ++ (if x then [] else unit ∷ [])) (
              if x
              then ok ([], buffer)
              else (raise_if y unit_exceeds_hard_guard
                  >> open_section t p (ends_section t p buffer unit) buffer unit))
      go true y = rw (flat_map_nil units_of) (sym (append-nil buffer))
      go false true = tt
      go false false = open_section-Passes (ends_section t p buffer unit) buffer unit

  abbrev units_in : List Group → List SplitUnit
  units_in = flat_map units_of

  units_in-reverse :
      (g : Group) (out : List Group)
      → units_in (reverse (g ∷ out)) ≡ units_in (reverse out) ++ g.units
  units_in-reverse g out =
      ap units_in (reverse-cons g out)
      ∙ flat_map-append units_of (reverse out) (g ∷ [])
      ∙ ap (λ (l : List SplitUnit). units_in (reverse out) ++ l) (flat_map_one units_of g)

  merge-units :
      (l r : Group) (out : List Group)
      → units_in (reverse (merge t p l r ∷ out)) ≡ (units_in (reverse out) ++ l.units) ++ r.units
  merge-units l r out =
      units_in-reverse (merge t p l r) out
      ∙ sym (append_assoc (units_in (reverse out)) l.units r.units)

  settle_group-units :
      (out : List Group) (g : Group)
      → units_in (reverse (settle_group t p out g)) ≡ units_in (reverse out) ++ g.units
  unfolding settle_group
  settle_group-units [] g = units_in-reverse g []
  settle_group-units (last ∷ out) g =
      go (is_small t p g && (not (small_exception t last.units) && can_merge t p last g))
    where
      go :
          (x : Bool)
          → units_in (reverse (if x then merge t p last g ∷ out else g ∷ last ∷ out))
            ≡ units_in (reverse (last ∷ out)) ++ g.units
      go true =
          merge-units last g out
          ∙ ap (λ (l : List SplitUnit). l ++ g.units) (sym (units_in-reverse last out))
      go false = units_in-reverse g (last ∷ out)

  consolidate_from-units :
      (out groups : List Group)
      → units_in (consolidate_from t p out groups) ≡ units_in (reverse out) ++ units_in groups
  unfolding consolidate_from
  consolidate_from-units out [] =
      sym (append-nil (units_in (reverse out)))
      ∙ ap (λ (l : List SplitUnit). units_in (reverse out) ++ l) (sym (flat_map_nil units_of))
  consolidate_from-units out (g ∷ []) =
      settle_group-units out g
      ∙ ap (λ (l : List SplitUnit). units_in (reverse out) ++ l) (sym (flat_map_one units_of g))
  consolidate_from-units out (g ∷ n ∷ rest) =
      go (is_small t p g && (not (small_exception t n.units) && can_merge t p g n))
        (consolidate_from-units (merge t p g n ∷ out) rest)
        (consolidate_from-units (settle_group t p out g) (n ∷ rest))
    where
      go :
          (x : Bool)
          → units_in (consolidate_from t p (merge t p g n ∷ out) rest)
            ≡ units_in (reverse (merge t p g n ∷ out)) ++ units_in rest
          → units_in (consolidate_from t p (settle_group t p out g) (n ∷ rest))
            ≡ units_in (reverse (settle_group t p out g)) ++ units_in (n ∷ rest)
          → units_in (elim x [
            | true ↦ consolidate_from t p (merge t p g n ∷ out) rest
            | false ↦ consolidate_from t p (settle_group t p out g) (n ∷ rest)
          ])
            ≡ units_in (reverse out) ++ units_in (g ∷ n ∷ rest)
      go true a b =
          a
          ∙ rw
              (
                merge-units g n out,
                flat_map_cons units_of g (n ∷ rest),
                flat_map_cons units_of n rest,
              )
              (simp append_assoc)
      go false a b =
          b ∙ rw (settle_group-units out g, flat_map_cons units_of g (n ∷ rest)) (simp append_assoc)

  pub consolidate_small_groups-units :
      (groups : List Group) → units_in (consolidate_small_groups t p groups) ≡ units_in groups
  unfolding consolidate_small_groups
  consolidate_small_groups-units groups =
      elim (ltb (length groups) 2)
        as (λ x.
          units_in (if x then groups else consolidate_from t p [] groups) ≡ units_in groups) [
            | true ↦ refl
            | false ↦
                consolidate_from-units [] groups
                ∙ ap (λ (l : List SplitUnit). l ++ units_in groups) (flat_map_nil units_of)
          ]
