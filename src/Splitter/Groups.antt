-- ===== src/Splitter/Groups.antt =====
-- src/astra_indexator/splitter/service.py: the loop of `split` that groups units, its tests, and
-- `_consolidate_small_groups`.
pub mod Bounds
pub mod Order
use mathlib.Core.List.{reverse}
use astra_indexator.Prelude.{
  ℕ, ◌+◌, Bool, true, false, not, ◌&&◌, ◌||◌, List, [], ◌∷◌, ◌++◌, map, Option, none, some, String,
  length, any, all, ltb, leb, str_eq, if◌then◌else◌,
}
use astra_indexator.Text.{Codes, CaseTable, codes, codes_eq, is_empty, ends_with, upper}
use astra_indexator.Splitter.{
  Fault, Result, ok, err, ◌>>=◌, ◌>>◌, raise_if, ElementType, table, code_block, paragraph,
  list_item, SplitterProfile, SplitUnit, run_loop, unit_exceeds_hard_guard, hard_guard_violation,
}
use astra_indexator.Splitter.Solid.{join}
use astra_indexator.Splitter.Units.{newline, is_heading, is_paragraph, is_list, is_table}

-- A group of `split`: its units, the reason of its end, and whether it was forced.
pub record Group : Type 0 where
  pub units : List SplitUnit
  pub reason : String
  pub forced : Bool

-- `_size`
unfoldable pub text_of_units : List SplitUnit → Codes
text_of_units units = join newline (map (λ (u : SplitUnit). u.text) units)

unfoldable pub word_sum : List SplitUnit → ℕ
word_sum [] = 0
word_sum (u ∷ us) = u.word_count + word_sum us

unfoldable pub sentence_sum : List SplitUnit → ℕ
sentence_sum [] = 0
sentence_sum (u ∷ us) = u.sentence_count + sentence_sum us

unfoldable pub reliable : List SplitUnit → Bool
reliable units = all (λ (u : SplitUnit). u.word_guard_reliable) units

abbrev pub chars : List SplitUnit → ℕ
chars units = length (text_of_units units)

-- `_exceeds_hard`, `_exceeds_soft` and `_reaches_target`.
abbrev pub exceeds_hard : SplitterProfile → List SplitUnit → Bool
exceeds_hard p units =
    ltb p.hard_max_chars (chars units)
    || ((reliable units && ltb p.hard_max_words (word_sum units))
        || ltb p.hard_max_sentences (sentence_sum units))

abbrev pub exceeds_soft : SplitterProfile → List SplitUnit → Bool
exceeds_soft p units =
    ltb p.soft_max_chars (chars units) || (reliable units && ltb p.soft_max_words (word_sum units))

abbrev pub reaches_target : SplitterProfile → List SplitUnit → Bool
reaches_target p units =
    leb p.target_chars (chars units)
    || ((reliable units && leb p.target_words (word_sum units))
        || leb p.target_sentences (sentence_sum units))

abbrev pub is_table_or_code : ElementType → Bool
is_table_or_code table = true
is_table_or_code code_block = true
is_table_or_code _ = false

-- `_SMALL_FRAGMENT_EXCEPTION_ROLES`
abbrev pub exception_roles : List Codes
exception_roles =
    codes "FAQ"
    ∷ codes "WARNING"
    ∷ codes "LEGAL_DEFINITION"
    ∷ codes "DEFINITION"
    ∷ codes "NOTICE"
    ∷ codes "ALERT"
    ∷ []

abbrev pub has_exception_role : CaseTable → SplitUnit → Bool
has_exception_role t u = elim u.role [
  | none ↦ false
  | some role ↦ any (codes_eq (upper t role)) exception_roles
]

-- `_small_exception`
unfoldable pub small_exception : CaseTable → List SplitUnit → Bool
small_exception t units =
    any (has_exception_role t) units
    || any (λ (u : SplitUnit). is_table_or_code u.element_type) units

unfoldable pub hierarchy_eq : List Codes → List Codes → Bool
hierarchy_eq [] [] = true
hierarchy_eq (a ∷ s) (b ∷ t) = codes_eq a b && hierarchy_eq s t
hierarchy_eq _ _ = false

-- `hierarchy[:-1]`
unfoldable pub parent_of : List Codes → List Codes
parent_of [] = []
parent_of (s ∷ []) = []
parent_of (s ∷ t ∷ rest) = s ∷ parent_of (t ∷ rest)

abbrev pub last_unit : SplitUnit → List SplitUnit → SplitUnit
last_unit u [] = u
last_unit u (v ∷ us) = last_unit v us

-- `_compatible_small_merge`
unfoldable pub compatible_small_merge : List SplitUnit → List SplitUnit → Bool
compatible_small_merge [] right = false
compatible_small_merge (l ∷ ls) [] = false
compatible_small_merge (l ∷ ls) (r ∷ rs) =
    not (any (λ (u : SplitUnit). is_table_or_code u.element_type) ((l ∷ ls) ++ r ∷ rs))
    && hierarchy_eq (parent_of (last_unit l ls).hierarchy) (parent_of r.hierarchy)

unfoldable pub ids_eq : List String → List String → Bool
ids_eq [] [] = true
ids_eq (a ∷ s) (b ∷ t) = str_eq a b && ids_eq s t
ids_eq _ _ = false

abbrev pub ends_safely : ElementType → Bool
ends_safely paragraph = true
ends_safely list_item = true
ends_safely table = true
ends_safely code_block = true
ends_safely _ = false

-- `_at_safe_boundary` and `_at_strong_boundary`.
unfoldable pub at_safe_boundary : SplitUnit → SplitUnit → Bool
at_safe_boundary previous current =
    if is_paragraph previous.element_type
      && (ends_with (codes ":") previous.text && is_list current.element_type)
    then false
    else not (ids_eq previous.element_ids current.element_ids) || ends_safely previous.element_type

unfoldable pub at_strong_boundary : SplitUnit → SplitUnit → Bool
at_strong_boundary previous current =
    is_heading current.element_type || not (hierarchy_eq previous.hierarchy current.hierarchy)

module _ (t : CaseTable) (p : SplitterProfile) where
  -- `flush`
  unfoldable pub flush : List SplitUnit → String → Bool → Result (List Group)
  flush [] reason forced = ok []
  flush (u ∷ us) reason forced = do
    raise_if (exceeds_hard p (u ∷ us)) hard_guard_violation
    ok (record { units = u ∷ us; reason = reason; forced = forced } ∷ [])

  -- Why the buffer ends before a unit, if it does.
  abbrev pub cut_before : SplitUnit → List SplitUnit → SplitUnit → Option (String × Bool)
  cut_before u us unit =
      if exceeds_hard p (u ∷ (us ++ unit ∷ []))
      then some ("HARD_MAX", true)
      else if exceeds_soft p (u ∷ (us ++ unit ∷ [])) && at_safe_boundary (last_unit u us) unit
      then some ("SOFT_MAX_SAFE_BOUNDARY", false)
      else if reaches_target p (u ∷ us) && at_strong_boundary (last_unit u us) unit
      then some ("STRUCTURAL_BOUNDARY", false)
      else none

  abbrev pub place_in :
      SplitUnit
      → List SplitUnit
      → SplitUnit
      → Option (String × Bool)
      → Result (List Group × List SplitUnit)
  place_in u us unit none = ok ([], u ∷ (us ++ unit ∷ []))
  place_in u us unit (some (reason, forced)) =
      flush (u ∷ us) reason forced >>= (λ groups. ok (groups, unit ∷ []))

  -- The end of a turn, behind the section boundary.
  unfoldable pub place : List SplitUnit → SplitUnit → Result (List Group × List SplitUnit)
  place [] unit = ok ([], unit ∷ [])
  place (u ∷ us) unit = place_in u us unit (cut_before u us unit)

  -- Does a heading end the section that the buffer holds?
  unfoldable pub ends_section : List SplitUnit → SplitUnit → Bool
  ends_section buffer unit =
      is_heading unit.element_type
      && (not (is_empty buffer) && (leb p.min_chars (chars buffer) || small_exception t buffer))

  abbrev pub open_section : Bool → List SplitUnit → SplitUnit → Result (List Group × List SplitUnit)
  open_section true buffer unit = flush buffer "SECTION_BOUNDARY" false >>= λ groups.
      place [] unit >>= λ r. ok (groups ++ r.0, r.1)
  open_section false buffer unit = place buffer unit

  -- A turn of the loop of `split` for one unit; the variable is `buffer`.
  unfoldable pub unit_turn : List SplitUnit → SplitUnit → Result (List Group × List SplitUnit)
  unit_turn buffer unit =
      if is_empty unit.text
      then ok ([], buffer)
      else (raise_if (exceeds_hard p (unit ∷ [])) unit_exceeds_hard_guard
          >> open_section (ends_section buffer unit) buffer unit)

  -- A group is small, and may be joined with its neighbour.
  abbrev pub is_small : Group → Bool
  is_small g = ltb (chars g.units) p.min_chars && not (small_exception t g.units)

  abbrev pub can_merge : Group → Group → Bool
  can_merge left right =
      compatible_small_merge left.units right.units
      && not (exceeds_hard p (left.units ++ right.units))

  abbrev pub merge : Group → Group → Group
  merge left right = record {
    units = left.units ++ right.units;
    reason = "SMALL_FRAGMENT_MERGE";
    forced = left.forced || right.forced;
  }

  -- A group that is not joined with the next: it joins the last of `out`, or is appended. `out` is in
  -- reverse.
  unfoldable pub settle_group : List Group → Group → List Group
  settle_group [] g = g ∷ []
  settle_group (last ∷ out) g =
      if is_small g && (not (small_exception t last.units) && can_merge last g)
      then merge last g ∷ out
      else g ∷ last ∷ out

  -- The `while` loop of `_consolidate_small_groups`.
  unfoldable pub consolidate_from : List Group → List Group → List Group
  consolidate_from out [] = reverse out
  consolidate_from out (g ∷ []) = reverse (settle_group out g)
  consolidate_from out (g ∷ h ∷ rest) =
      elim (is_small g && (not (small_exception t h.units) && can_merge g h)) [
        | true ↦ consolidate_from (merge g h ∷ out) rest
        | false ↦ consolidate_from (settle_group out g) (h ∷ rest)
      ]

  unfoldable pub consolidate_small_groups : List Group → List Group
  consolidate_small_groups groups =
      if ltb (length groups) 2 then groups else consolidate_from [] groups
