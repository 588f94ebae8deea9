-- ===== src/Batching/Partition.antt =====
-- What the batches of batching.py hold: every block once, in order, within the limits.
use mathlib.Core.List.{flatten, append_assoc, append-nil}
use astra_indexator.Prelude.{
  ℕ, suc, ◌+◌, ◌≡◌, ◌≤◌, ◌<◌, refl, sym, ap, subst, ◌∙◌, inl, inr, Bool, true, false, not, ◌&&◌,
  ◌||◌, List, [], ◌∷◌, ◌++◌, arith, length, length-append, leb, All, Bool-cases, map, ◌==◌,
}
use astra_indexator.Text.{Codes, is_empty}
use astra_indexator.Exec.{Result, ok, err, Result-cases}
use astra_indexator.Batching.{
  LogicalBlock, PlannedBatch, Limits, over_bytes, partition_from, partition, sorted, number_from,
  plan, ordered,
}

module _ (wire_size : LogicalBlock → Result ℕ) where
  abbrev size_of : LogicalBlock → ℕ
  size_of b = elim (wire_size b) [ ok n ↦ n | err _ ↦ 0 ]

  -- The bytes of a batch.
  abbrev pub total_size : List LogicalBlock → ℕ
  total_size [] = 0
  total_size (b ∷ bs) = size_of b + total_size bs

  total_size-append :
      (xs ys : List LogicalBlock) → total_size (xs ++ ys) ≡ total_size xs + total_size ys
  total_size-append [] ys = omega arith
  total_size-append (x ∷ xs) ys = omega (arith, total_size-append xs ys)

  -- A batch that AstraVector's limits admit.
  abbrev pub IsBatch : Limits → List LogicalBlock → Type 0
  IsBatch limits chunk =
      (is_empty chunk ≡ false)
      × (length chunk ≤ limits.max_blocks)
      × (over_bytes limits (total_size chunk) ≡ false)

-- Batches numbered from `i` up to `total`, of which the last one, and only it, is marked.
abbrev pub Numbers : ℕ → ℕ → List PlannedBatch → Type 0
Numbers total i [] = i ≡ total
Numbers total i (b ∷ bs) =
    (b.batch_index ≡ i) × (b.is_last_batch ≡ is_empty bs) × Numbers total (suc i) bs

module _ (wire_size : LogicalBlock → Result ℕ) (hash_batch : List LogicalBlock → Result (Codes × ℕ))
    (limits : Limits) (some_blocks : 0 < limits.max_blocks) where
  -- The batch being filled: within the limits, its bytes counted.
  abbrev IsFilling : List LogicalBlock → ℕ → Type 0
  IsFilling current bytes =
      (length current ≤ limits.max_blocks)
      × (bytes ≡ total_size wire_size current)
      × (over_bytes limits bytes ≡ false)

  abbrev Splits : List LogicalBlock → List (List LogicalBlock) → Type 0
  Splits blocks chunks = (flatten chunks ≡ blocks) × All (IsBatch wire_size limits) chunks

  last_batch :
      (current : List LogicalBlock) (bytes : ℕ) (chunks : List (List LogicalBlock))
      → IsFilling current bytes
      → partition_from wire_size hash_batch limits current bytes [] ≡ ok chunks
      → Splits current chunks
  unfolding partition_from flatten
  last_batch [] bytes chunks v h = let e : chunks ≡ [] = ground (arith, h) in rw e (refl, tt)
  last_batch (b ∷ bs) bytes chunks v h =
      let e : chunks ≡ (b ∷ bs) ∷ [] = ground (arith, h) in
      rw e (append-nil (b ∷ bs), ((refl, v.0, rw (← v.1) v.2), tt))

  -- The test that closes the batch being filled.
  abbrev is_full : List LogicalBlock → ℕ → ℕ → Bool
  is_full current bytes size =
      leb limits.max_blocks (length current)
      || (not (is_empty current) && over_bytes limits (bytes + size))

  full_nonempty :
      (current : List LogicalBlock) (bytes size : ℕ)
      → is_full current bytes size ≡ true
      → is_empty current ≡ false
  full_nonempty [] bytes size h = absurd (ground (arith, some_blocks, h))
  full_nonempty (b ∷ bs) bytes size h = refl

  room :
      (current : List LogicalBlock) (bytes size : ℕ) (block : LogicalBlock)
      → IsFilling current bytes
      → wire_size block ≡ ok size
      → over_bytes limits size ≡ false
      → is_full current bytes size ≡ false
      → IsFilling (current ++ block ∷ []) (bytes + size)
  room [] bytes size block v q fits more =
      let e : bytes + size ≡ size = omega arith in (some_blocks, ground (arith, q, v.1), rw e fits)
  room (c ∷ cs) bytes size block v q fits more = (
    ground (arith, more, length-append cs (block ∷ [])),
    ground (arith, q, v.1, total_size-append wire_size cs (block ∷ [])),
    ground (arith, more),
  )

  started :
      (size : ℕ) (block : LogicalBlock)
      → wire_size block ≡ ok size
      → over_bytes limits size ≡ false
      → IsFilling (block ∷ []) size
  started size block q fits = (some_blocks, ground (arith, q), fits)

  partition_from-Splits :
      (current : List LogicalBlock) (bytes : ℕ) (blocks : List LogicalBlock)
      (chunks : List (List LogicalBlock))
      → IsFilling current bytes
      → partition_from wire_size hash_batch limits current bytes blocks ≡ ok chunks
      → Splits (current ++ blocks) chunks
  unfolding partition_from flatten
  partition_from-Splits current bytes [] chunks v h =
      rw (append-nil current) (last_batch current bytes chunks v h)
  partition_from-Splits current bytes (block ∷ rest) chunks v h =
      elim (Result-cases (wire_size block)) [
        | inr (e, q) ↦ absurd (ground (arith, h, q))
        | inl (size, q) ↦ elim (Bool-cases (over_bytes limits size)) [
          | inl over ↦ absurd (ground (arith, h, q, over))
          | inr fits ↦ elim (Bool-cases (is_full current bytes size)) [
            | inr more ↦ rw (← append_assoc current (block ∷ []) rest) (
                partition_from-Splits (current ++ block ∷ []) (bytes + size) rest chunks
                  (room current bytes size block v q fits more) (ground (arith, h, q, fits, more)))
            | inl full ↦
                elim (Result-cases
                  (partition_from wire_size hash_batch limits (block ∷ []) size rest)) [
                    | inr (e, bad) ↦ absurd (ground (arith, h, q, fits, full, bad))
                    | inl (cs, good) ↦
                        let split =
                          partition_from-Splits (block ∷ []) size rest cs
                            (started size block q fits) good in
                        let e : chunks ≡ current ∷ cs = ground (arith, h, q, fits, full, good) in
                        rw e (
                          ap (λ l. current ++ l) split.0,
                          ((full_nonempty current bytes size full, v.0, rw (← v.1) v.2), split.1),
                        )
                  ]
          ]
        ]
      ]

  last_mark :
      (total i : ℕ) (rest : List PlannedBatch) (chunks : List (List LogicalBlock))
      → i + suc (length chunks) ≡ total
      → map (λ b. b.blocks) rest ≡ chunks
      → (suc i == total) ≡ is_empty rest
  last_mark total i [] chunks e m = ground (arith, ap length m)
  last_mark total i (b ∷ bs) chunks e m = ground (arith, ap length m)

  numbered : ℕ → ℕ → List LogicalBlock → Codes → ℕ → PlannedBatch
  numbered total i chunk hash bytes = record {
    batch_index = i;
    blocks = chunk;
    is_last_batch = suc i == total;
    batch_content_hash = hash;
    serialized_bytes = bytes;
  }

  number_from-Numbers :
      (total i : ℕ) (chunks : List (List LogicalBlock)) (batches : List PlannedBatch)
      → i + length chunks ≡ total
      → number_from wire_size hash_batch total i chunks ≡ ok batches
      → (map (λ b. b.blocks) batches ≡ chunks) × Numbers total i batches
  unfolding number_from numbered
  number_from-Numbers total i [] batches e h =
      let done : batches ≡ [] = ground (arith, h) in rw done (refl, ground arith)
  number_from-Numbers total i (chunk ∷ chunks) batches e h =
      elim (Result-cases (hash_batch chunk)) [
        | inr (x, q) ↦ absurd (ground (arith, h, q))
        | inl ((hash, bytes), q) ↦
            elim (Result-cases (number_from wire_size hash_batch total (suc i) chunks)) [
              | inr (x, bad) ↦ absurd (ground (arith, h, q, bad))
              | inl (rest, good) ↦
                  let tail = number_from-Numbers total (suc i) chunks rest (omega arith) good in
                  let done : batches ≡ numbered total i chunk hash bytes ∷ rest =
                    ground (arith, h, q, good) in
                  rw done (
                    ap (λ l. chunk ∷ l) tail.0,
                    (refl, last_mark total i rest chunks e tail.0, tail.1),
                  )
            ]
      ]

  fits_nothing : over_bytes limits 0 ≡ false
  fits_nothing = ground arith

  map-length :
      (f : PlannedBatch → List LogicalBlock) (batches : List PlannedBatch)
      → length (map f batches) ≡ length batches
  map-length f [] = refl
  map-length f (b ∷ bs) = ground (arith, map-length f bs)

  ordered-sorted :
      (blocks sequence : List LogicalBlock)
      → ordered blocks ≡ ok sequence
      → sequence ≡ sorted blocks
  unfolding ordered
  ordered-sorted blocks sequence h = ground (arith, h)

  -- A plan that is made holds every block exactly once, in the order of `(order_index, block_id)`:
  -- its batches have from 1 to `max_blocks` blocks and at most `max_batch_bytes` bytes, where that is
  -- configured, they are numbered from 0 without a gap, and the last one, and only it, is marked.
  -- The condition is that `max_blocks` is positive.
  pub plan_lem :
      (blocks : List LogicalBlock) (batches : List PlannedBatch)
      → plan wire_size hash_batch limits blocks ≡ ok batches
      → (flatten (map (λ b. b.blocks) batches) ≡ sorted blocks)
        × All (IsBatch wire_size limits) (map (λ b. b.blocks) batches)
        × Numbers (length batches) 0 batches
  unfolding plan partition
  plan_lem blocks batches h = elim (Result-cases (ordered blocks)) [
    | inr (x, bad) ↦ absurd (ground (arith, h, bad))
    | inl (sequence, good) ↦ elim (Result-cases (partition wire_size hash_batch limits sequence)) [
      | inr (x, bad) ↦ absurd (ground (arith, h, good, bad))
      | inl (chunks, split) ↦
          let (whole, admitted) =
            partition_from-Splits [] 0 sequence chunks (omega arith, refl, fits_nothing) split in
          let (same, marks) =
            number_from-Numbers (length chunks) 0 chunks batches (omega arith)
              (ground (arith, h, good, split)) in
          let count : length chunks ≡ length batches =
            ap length (sym same) ∙ map-length (λ b. b.blocks) batches in
          let total : flatten chunks ≡ sorted blocks =
            whole ∙ ordered-sorted blocks sequence good in
          (
            ap flatten same ∙ total,
            subst (All (IsBatch wire_size limits)) (sym same) admitted,
            subst (λ n. Numbers n 0 batches) count marks,
          )
    ]
  ]
