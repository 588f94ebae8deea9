-- ===== src/Tests/Blocks.antt =====
-- A document with a section and a paragraph.
use astra_indexator.Prelude.{◌≡◌, ◌↔◌, refl, List, [], ◌∷◌, none, String}
use astra_indexator.Prelude.Int.{ℤ, pos}
use astra_indexator.Text.{strip, lstrip, is_space, codes_eq, upper}
use astra_indexator.Exec.{ok}
use astra_indexator.Batching.{LogicalBlock}
use astra_indexator.Tests.Ascii.{ascii}
use astra_indexator.Validation.{
  validate_logical_blocks, id_of, parent_id_of, is_document, check_blocks, documents, by_id,
  check_parents, follow, check_chains,
}
use astra_indexator.Validation.Rooted.{IsTree, validate_logical_blocks_iff}

abbrev block : String → String → String → ℤ → LogicalBlock
block id parent type order = record {
  block_id = id;
  parent_block_id = parent;
  block_type = type;
  text = "text";
  order_index = order;
  source_location = none;
  source_links = [];
  metadata = [];
}

-- A parent may stand behind its child.
abbrev small_tree : List LogicalBlock
small_tree =
    block "p" "s" "paragraph" (pos 2)
    ∷ block "s" " d " "section" (pos 1)
    ∷ block "d" "" "document" (pos 0)
    ∷ []

small_tree_accepted : validate_logical_blocks ascii small_tree ≡ ok small_tree
unfolding validate_logical_blocks id_of parent_id_of is_document check_blocks documents by_id
    check_parents follow check_chains strip lstrip is_space codes_eq upper
small_tree_accepted = refl

validate_logical_blocks_iff_example :
    (validate_logical_blocks ascii small_tree ≡ ok small_tree)
    ↔ ((small_tree ≡ small_tree) × IsTree ascii small_tree)
validate_logical_blocks_iff_example = validate_logical_blocks_iff ascii small_tree small_tree
