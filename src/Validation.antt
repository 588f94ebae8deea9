-- ===== src/Validation.antt =====
-- src/astra_indexator/astravector/validation.py: `validate_logical_blocks`, which accepts the blocks that
-- form one tree. The dictionary `by_id` has the blocks by their identifier in the order of the list.
pub mod Keys
pub mod Tree
pub mod Ordered
pub mod Rooted
use astra_indexator.Prelude.{
  ℕ, zero, suc, Bool, true, false, not, ◌&&◌, ◌||◌, List, [], ◌∷◌, Option, none, some, length, any,
  find, if◌then◌else◌,
}
use astra_indexator.Prelude.Int.{ℤ, pos, ltb_ℤ}
use astra_indexator.Text.{Codes, CaseTable, codes, codes_eq, is_empty, strip, upper}
use astra_indexator.Exec.{Result, ok, err, block_validation, other_exception}
use astra_indexator.Batching.{LogicalBlock, ◌>>=◌, same_order}

infixl 5 ◌>>◌
abbrev pub ◌>>◌ : {B : Type 0} → Result (Unit {0}) → Result B → Result B
m >> n = m >>= λ _. n

abbrev pub refuse_if : Bool → Result (Unit {0})
refuse_if true = err block_validation
refuse_if false = ok tt

unfoldable pub id_of : LogicalBlock → Codes
id_of b = strip (codes b.block_id)

unfoldable pub parent_id_of : LogicalBlock → Codes
parent_id_of b = strip (codes b.parent_block_id)

unfoldable pub is_document : CaseTable → LogicalBlock → Bool
is_document t b = codes_eq (upper t (strip (codes b.block_type))) (codes "DOCUMENT")

abbrev pub is_negative : LogicalBlock → Bool
is_negative b = ltb_ℤ b.order_index (pos 0)

-- The first loop. `by_id` and `order_indexes` are read off the blocks that have passed.
unfoldable pub check_blocks : List LogicalBlock → List LogicalBlock → Result (Unit {0})
check_blocks passed [] = ok tt
check_blocks passed (b ∷ bs) = do
  refuse_if (is_empty (id_of b))
  refuse_if (any (λ (a : LogicalBlock). codes_eq (id_of a) (id_of b)) passed)
  refuse_if (is_negative b)
  refuse_if (any (λ (a : LogicalBlock). same_order a b) passed)
  check_blocks (b ∷ passed) bs

unfoldable pub documents : CaseTable → List LogicalBlock → List LogicalBlock
documents t [] = []
documents t (b ∷ bs) = let rest = documents t bs in if is_document t b then b ∷ rest else rest

-- `by_id[key]`
unfoldable pub by_id : List LogicalBlock → Codes → Option LogicalBlock
by_id blocks key = find (λ (b : LogicalBlock). codes_eq (id_of b) key) blocks

abbrev pub is_none : Option LogicalBlock → Bool
is_none none = true
is_none (some b) = false

-- The second loop: every block but the root has a parent that is another block.
unfoldable pub check_parents : List LogicalBlock → Codes → List LogicalBlock → Result (Unit {0})
check_parents blocks root_id [] = ok tt
check_parents blocks root_id (b ∷ bs) = do
  refuse_if (
      not (codes_eq (id_of b) root_id)
      && (is_empty (parent_id_of b)
          || (codes_eq (parent_id_of b) (id_of b) || is_none (by_id blocks (parent_id_of b)))))
  check_parents blocks root_id bs

abbrev pub climb_from : (Codes → Result (Unit {0})) → Option LogicalBlock → Result (Unit {0})
climb_from rest none = err (other_exception "KeyError")
climb_from rest (some b) =
    if is_empty (parent_id_of b) then err block_validation else rest (parent_id_of b)

-- The `while` loop of the third loop, with fuel: the chain of parents, and the identifiers seen.
unfoldable pub follow : List LogicalBlock → Codes → ℕ → List Codes → Codes → Result (Unit {0})
follow blocks root_id zero seen current_id = err block_validation
follow blocks root_id (suc fuel) seen current_id =
    if codes_eq current_id root_id
    then ok tt
    else if any (codes_eq current_id) seen
    then err block_validation
    else climb_from (follow blocks root_id fuel (current_id ∷ seen)) (by_id blocks current_id)

unfoldable pub check_chains : List LogicalBlock → Codes → List LogicalBlock → Result (Unit {0})
check_chains blocks root_id [] = ok tt
check_chains blocks root_id (b ∷ bs) = do
  follow blocks root_id (suc (length blocks)) [] (id_of b)
  check_chains blocks root_id bs

abbrev pub check_root : List LogicalBlock → List LogicalBlock → Result (List LogicalBlock)
check_root blocks (root ∷ []) = do
  refuse_if (not (is_empty (parent_id_of root)))
  check_parents blocks (id_of root) blocks
  check_chains blocks (id_of root) blocks
  ok blocks
check_root blocks _ = err block_validation

-- An empty list has no DOCUMENT either.
unfoldable pub validate_logical_blocks : CaseTable → List LogicalBlock → Result (List LogicalBlock)
validate_logical_blocks t blocks = do
  refuse_if (is_empty blocks)
  check_blocks [] blocks
  check_root blocks (documents t blocks)
