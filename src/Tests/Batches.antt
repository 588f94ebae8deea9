-- ===== src/Tests/Batches.antt =====
-- Blocks and limits on which the statements about batching.py are applied.
use mathlib.Core.List.{Permᴰ, flatten}
use astra_indexator.Prelude.{
  ℕ, ◌≡◌, refl, arith, List, [], ◌∷◌, none, some, String, All, length, map, true, false,
}
use astra_indexator.Prelude.Int.{pos}
use astra_indexator.Text.{Codes}
use astra_indexator.Exec.{Result, ok}
use astra_indexator.Batching.{
  LogicalBlock, PlannedBatch, Limits, sorted, plan, ordered, has_duplicates, key_ltb, partition,
  number_from,
}
use astra_indexator.Batching.Order.{plan-perm}
use astra_indexator.Batching.Partition.{IsBatch, Numbers, plan_lem}

abbrev pub block : String → ℕ → LogicalBlock
block block_id order_index = record {
  block_id = block_id;
  parent_block_id = "";
  block_type = "PARAGRAPH";
  text = "text";
  order_index = pos order_index;
  source_location = none;
  source_links = [];
  metadata = [];
}

-- Every block takes ten bytes, and a batch is hashed by its length.
abbrev ten_bytes : LogicalBlock → Result ℕ
ten_bytes _ = ok 10

abbrev by_length : List LogicalBlock → Result (Codes × ℕ)
by_length blocks = ok (length blocks ∷ [], 0)

abbrev two_blocks : Limits
two_blocks = record { max_blocks = 2; max_batch_bytes = some 100 }

abbrev three : List LogicalBlock
three = block "c" 2 ∷ block "a" 0 ∷ block "b" 1 ∷ []

abbrev swapped : List LogicalBlock
swapped = block "a" 0 ∷ block "c" 2 ∷ block "b" 1 ∷ []

plan-perm_example :
    plan ten_bytes by_length two_blocks three ≡ plan ten_bytes by_length two_blocks swapped
plan-perm_example = plan-perm ten_bytes by_length two_blocks three swapped ∣ Permᴰ.swap refl refl ∣₁

abbrev planned : List PlannedBatch
planned =
    record {
      batch_index = 0;
      blocks = block "a" 0 ∷ block "b" 1 ∷ [];
      is_last_batch = false;
      batch_content_hash = 2 ∷ [];
      serialized_bytes = 0;
    }
    ∷ record {
      batch_index = 1;
      blocks = block "c" 2 ∷ [];
      is_last_batch = true;
      batch_content_hash = 1 ∷ [];
      serialized_bytes = 0;
    }
    ∷ []

plan_lem_example :
    (flatten (map (λ b. b.blocks) planned) ≡ sorted three)
    × All (IsBatch ten_bytes two_blocks) (map (λ b. b.blocks) planned)
    × Numbers 2 0 planned
unfolding plan ordered has_duplicates sorted key_ltb partition number_from
plan_lem_example = plan_lem ten_bytes by_length two_blocks (omega arith) three planned refl
