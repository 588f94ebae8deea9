-- ===== src/Batching.antt =====
-- src/astra_indexator/astravector/batching.py: logical blocks into a stable sequence of batches.
-- The wire size of a block and the hash of a batch go through the protobuf messages that the build
-- generates and through SHA-256: they are the section's parameters, and may raise.
pub mod Order
pub mod Partition
use astra_indexator.Prelude.{
  ℕ, suc, ◌+◌, ◌-◌, ◌≡◌, Bool, true, false, not, ◌&&◌, ◌||◌, List, [], ◌∷◌, ◌++◌, Option, none,
  some, String, length, any, ltb, leb, ◌==◌, if◌then◌else◌, str_eq,
}
use astra_indexator.Prelude.Int.{ℤ, ltb_ℤ}
use astra_indexator.Text.{Codes, codes, is_empty}
use astra_indexator.Exec.{Result, ok, err, batch_planning}

-- The messages of astravector/contracts.py.
pub record SourceLocation : Type 0 where
  pub page_start : ℤ
  pub page_end : ℤ
  pub char_start : ℤ
  pub char_end : ℤ
  pub section_path : String
  pub heading : String
  pub table_id : String
  pub row_index : ℤ
  pub column_index : ℤ

pub record SourceLink : Type 0 where
  pub link_type : String
  pub url : String
  pub label : String
  pub mime_type : String
  pub requires_auth : Bool
  pub expires_at : String
  pub attributes : List (String × String)

pub record LogicalBlock : Type 0 where
  pub block_id : String
  pub parent_block_id : String
  pub block_type : String
  pub text : String
  pub order_index : ℤ
  pub source_location : Option SourceLocation
  pub source_links : List SourceLink
  pub metadata : List (String × String)

pub record PlannedBatch : Type 0 where
  pub batch_index : ℕ
  pub blocks : List LogicalBlock
  pub is_last_batch : Bool
  pub batch_content_hash : Codes
  pub serialized_bytes : ℕ

-- Python's order of texts, by code points.
unfoldable pub codes_ltb : Codes → Codes → Bool
codes_ltb s [] = false
codes_ltb [] (b ∷ t) = true
codes_ltb (a ∷ s) (b ∷ t) = let rest = codes_ltb s t in ltb a b || ((a == b) && rest)

-- The order of the keys `(order_index, block_id)`.
unfoldable pub key_ltb : LogicalBlock → LogicalBlock → Bool
key_ltb a b =
    ltb_ℤ a.order_index b.order_index
    || (not (ltb_ℤ b.order_index a.order_index) && codes_ltb (codes a.block_id) (codes b.block_id))

-- `sorted(blocks, key=…)`, which is stable.
unfoldable pub insert : LogicalBlock → List LogicalBlock → List LogicalBlock
insert a [] = a ∷ []
insert a (b ∷ bs) = let rest = insert a bs in if key_ltb b a then b ∷ rest else a ∷ b ∷ bs

unfoldable pub sorted : List LogicalBlock → List LogicalBlock
unfolding insert
sorted [] = []
sorted (b ∷ bs) = insert b (sorted bs)

-- `len(values) != len(set(values))`
unfoldable pub has_duplicates : (LogicalBlock → LogicalBlock → Bool) → List LogicalBlock → Bool
has_duplicates same [] = false
has_duplicates same (b ∷ bs) = any (same b) bs || has_duplicates same bs

abbrev pub same_id : LogicalBlock → LogicalBlock → Bool
same_id a b = str_eq a.block_id b.block_id

abbrev pub same_order : LogicalBlock → LogicalBlock → Bool
same_order a b = not (ltb_ℤ a.order_index b.order_index) && not (ltb_ℤ b.order_index a.order_index)

-- `_ordered`
unfoldable pub ordered : List LogicalBlock → Result (List LogicalBlock)
ordered blocks =
    if is_empty blocks
    then err batch_planning
    else if has_duplicates same_id (sorted blocks)
    then err batch_planning
    else if has_duplicates same_order (sorted blocks)
    then err batch_planning
    else ok (sorted blocks)

infixl 5 ◌>>=◌
abbrev pub ◌>>=◌ {ℓ κ} : {A : Type ℓ} {B : Type κ} → Result A → (A → Result B) → Result B
ok a >>= f = f a
err e >>= f = err e

pub record Limits : Type 0 where
  pub max_blocks : ℕ
  pub max_batch_bytes : Option ℕ

-- `max_batch_bytes is not None and n > max_batch_bytes`
abbrev pub over_bytes : Limits → ℕ → Bool
over_bytes limits n = elim limits.max_batch_bytes [ none ↦ false | some m ↦ ltb m n ]

module _ (wire_size : LogicalBlock → Result ℕ)
    (hash_batch : List LogicalBlock → Result (Codes × ℕ)) where
  -- The loop of `_partition`. `current` and its bytes are the batch being filled.
  unfoldable pub partition_from :
      Limits → List LogicalBlock → ℕ → List LogicalBlock → Result (List (List LogicalBlock))
  partition_from limits current bytes [] = ok (if is_empty current then [] else current ∷ [])
  partition_from limits current bytes (block ∷ rest) = elim (wire_size block) [
    | err e ↦ err e
    | ok size ↦ elim (over_bytes limits size) [
      | true ↦ err batch_planning
      | false ↦
          elim (leb limits.max_blocks (length current)
            || (not (is_empty current) && over_bytes limits (bytes + size))) [
              | true ↦ (do
                chunks ← partition_from limits (block ∷ []) size rest
                ok (current ∷ chunks))
              | false ↦ partition_from limits (current ++ block ∷ []) (bytes + size) rest
            ]
    ]
  ]

  unfoldable pub partition : Limits → List LogicalBlock → Result (List (List LogicalBlock))
  unfolding partition_from
  partition limits blocks = partition_from limits [] 0 blocks

  -- The loop of `plan` over the chunks, from a batch index on.
  unfoldable pub number_from : ℕ → ℕ → List (List LogicalBlock) → Result (List PlannedBatch)
  number_from total i [] = ok []
  number_from total i (chunk ∷ chunks) = do
    (hash, bytes) ← hash_batch chunk
    rest ← number_from total (suc i) chunks
    ok (
        record {
          batch_index = i;
          blocks = chunk;
          is_last_batch = suc i == total;
          batch_content_hash = hash;
          serialized_bytes = bytes;
        }
        ∷ rest)

  unfoldable pub plan : Limits → List LogicalBlock → Result (List PlannedBatch)
  plan limits blocks = do
    sequence ← ordered blocks
    chunks ← partition limits sequence
    number_from (length chunks) 0 chunks
