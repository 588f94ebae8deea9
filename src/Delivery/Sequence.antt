-- ===== src/Delivery/Sequence.antt =====
-- The checkpoint and the batch rows of delivery.py stay in sequence.
use astra_indexator.Prelude.{
  ℕ, ◌+◌, ◌≡◌, refl, subst, inl, inr, ◌⊎◌, Bool, true, false, ◌&&◌, List, [], ◌∷◌, Option, none,
  some, String, arith, find, leb, ltb, ◌==◌, if◌then◌else◌,
}
use astra_indexator.Prelude.Tables.{find_key, update_where, find_key-update_where}
use astra_indexator.Exec.{Error, ok, >>=-eq-ok, raise_if-eq-ok, raise_if, ◌>>=◌, ◌>>◌}
use astra_indexator.Database.{Checkpoint, Batch, Db}
use astra_indexator.Policy.{VectorStatus}
use astra_indexator.Delivery.{is_at, batch_at, is_accepted}
use astra_indexator.Checkpoints.{
  checkpoint_key, checkpoint_of, insert_checkpoint, new_checkpoint, checkpoint_for_update,
  write_checkpoint, ensure_checkpoint, bind_session, record_session_status, record_vector_status,
}

-- Whether the row of the batch `i` agrees with the durable next index.
abbrev pub placed : ℕ → ℕ → Option Batch → Bool
placed i next none = leb next i
placed i next (some b) = if is_accepted b.status then ltb i next else i == next

-- Whether the last accepted index is the one before the next.
abbrev pub follows : ℕ → Option ℕ → Bool
follows next none = next == 0
follows next (some l) = next == l + 1

abbrev pub Placed : Option Checkpoint → ℕ → Option Batch → Type 0
Placed none i b = b ≡ none
Placed (some c) i b =
    (placed i c.next_batch_index b ≡ true)
    × (follows c.next_batch_index c.last_accepted_batch_index ≡ true)

-- The delivery of a job at its batch `i`: without a checkpoint there is no batch row; with one, the
-- rows below `next_batch_index` are accepted, the row at it is prepared or missing, and none is
-- beyond it.
abbrev pub IsInSequence : ℕ → ℕ → Db → Type 0
IsInSequence job_id i db = Placed (checkpoint_of job_id db) i (batch_at job_id i db)

-- A change of the checkpoint that leaves its progress.
record Keeps (f : Checkpoint → Checkpoint) : Type 0 where
  same_job : (c : Checkpoint) → (f c).job_id ≡ c.job_id
  same_next : (c : Checkpoint) → (f c).next_batch_index ≡ c.next_batch_index
  same_last : (c : Checkpoint) → (f c).last_accepted_batch_index ≡ c.last_accepted_batch_index

pub checkpoint_for_update-ok :
    (job_id : ℕ) (c : Checkpoint) (db db' : Db)
    → checkpoint_for_update job_id db ≡ ok (c, db')
    → (checkpoint_of job_id db ≡ some c) × (db' ≡ db)
unfolding checkpoint_for_update
checkpoint_for_update-ok job_id c db db' h = ground (arith, h)

module _ (k i : ℕ) where
  Placed-Keeps :
      (f : Checkpoint → Checkpoint) (o : Option Checkpoint) (b : Option Batch) (hit : Bool)
      → Keeps f
      → Placed o i b
      → Placed (if hit then elim o [ none ↦ none | some c ↦ some (f c) ] else o) i b
  Placed-Keeps f none b true keeps v = v
  Placed-Keeps f o b false keeps v = v
  Placed-Keeps f (some c) b true keeps v = rw (keeps.same_next c, keeps.same_last c) v

  write_checkpoint-Keeps :
      (job_id : ℕ) (f : Checkpoint → Checkpoint) (db db' : Db)
      → Keeps f
      → write_checkpoint job_id f db ≡ ok (tt, db')
      → IsInSequence k i db
      → IsInSequence k i db'
  unfolding write_checkpoint
  write_checkpoint-Keeps job_id f db db' keeps h v =
      let e : db'
          ≡ record db { checkpoints = update_where (λ c. c.job_id == job_id) f db.checkpoints } =
        ground (arith, h) in
      rw (e, find_key-update_where checkpoint_key job_id k f db.checkpoints keeps.same_job)
        (Placed-Keeps f (checkpoint_of k db) (batch_at k i db) (k == job_id) keeps v)

  inserted : ℕ → Option ℕ → Option String → Db → Db
  inserted job_id session raw db = record db {
    checkpoints = new_checkpoint job_id session raw db.now ∷ db.checkpoints;
  }

  insert_checkpoint-ok :
      (job_id : ℕ) (session : Option ℕ) (raw : Option String) (db db' : Db)
      → insert_checkpoint job_id session raw db ≡ ok (tt, db')
      → (db' ≡ db) ⊎ ((checkpoint_of job_id db ≡ none) × (db' ≡ inserted job_id session raw db))
  unfolding insert_checkpoint inserted
  insert_checkpoint-ok job_id session raw db db' h = ground (arith, h)

  -- A new checkpoint starts at 0, before any row of the job is there.
  Placed-inserted :
      (job_id : ℕ) (session : Option ℕ) (raw : Option String) (db : Db) (hit : Bool)
      → (job_id == k) ≡ hit
      → checkpoint_of job_id db ≡ none
      → IsInSequence k i db
      → Placed
          (if hit then some (new_checkpoint job_id session raw db.now) else checkpoint_of k db)
          i
          (batch_at k i db)
  unfolding new_checkpoint
  Placed-inserted job_id session raw db false e gone v = v
  Placed-inserted job_id session raw db true e gone v =
      let same : job_id ≡ k = ground (arith, e) in
      let none_yet : checkpoint_of k db ≡ none = subst (λ n. checkpoint_of n db ≡ none) same gone in
      let no_row : batch_at k i db ≡ none = subst (λ o. Placed o i (batch_at k i db)) none_yet v in
      rw no_row (ground arith, refl)

  insert_checkpoint-keeps :
      (job_id : ℕ) (session : Option ℕ) (raw : Option String) (db db' : Db)
      → insert_checkpoint job_id session raw db ≡ ok (tt, db')
      → IsInSequence k i db
      → IsInSequence k i db'
  unfolding find_key inserted new_checkpoint
  insert_checkpoint-keeps job_id session raw db db' h v =
      elim (insert_checkpoint-ok job_id session raw db db' h) [
        | inl e ↦ rw e v
        | inr (gone, e) ↦ rw e (Placed-inserted job_id session raw db (job_id == k) refl gone v)
      ]

  pub find-update_where-at :
      (job_id index : ℕ) (f : Batch → Batch) (rows : List Batch)
      → ((b : Batch) → (f b).job_id ≡ b.job_id)
      → ((b : Batch) → (f b).batch_index ≡ b.batch_index)
      → find (is_at k i) (update_where (is_at job_id index) f rows) ≡ (
          if (k == job_id) && (i == index)
          then elim (find (is_at k i) rows) [ none ↦ none | some b ↦ some (f b) ]
          else find (is_at k i) rows)
  unfolding update_where
  find-update_where-at job_id index f [] same_job same_index = ground arith
  find-update_where-at job_id index f (b ∷ rows) same_job same_index = ground (
    arith,
    same_job b,
    same_index b,
    find-update_where-at job_id index f rows same_job same_index,
  )

  pub ensure_checkpoint-keeps :
      (job_id : ℕ) (c : Checkpoint) (db db' : Db)
      → ensure_checkpoint job_id db ≡ ok (c, db')
      → IsInSequence k i db
      → IsInSequence k i db'
  unfolding ensure_checkpoint
  ensure_checkpoint-keeps job_id c db db' h v =
      let (_, mid, put, read) =
        >>=-eq-ok (insert_checkpoint job_id none none) (λ _. checkpoint_for_update job_id) db h in
      rw ((checkpoint_for_update-ok job_id c mid db' read).1)
        (insert_checkpoint-keeps job_id none none db mid put v)

  -- The common tail: the checkpoint is read, tested, and written.
  guarded_write :
      (job_id : ℕ) (test : Checkpoint → Bool) (x : Error) (f : Checkpoint → Checkpoint)
      (db db' : Db)
      → Keeps f
      → (do c ← checkpoint_for_update job_id; raise_if (test c) x; write_checkpoint job_id f) db
        ≡ ok (tt, db')
      → IsInSequence k i db
      → IsInSequence k i db'
  guarded_write job_id test x f db db' keeps h v =
      let (c, mid, read, rest) =
        >>=-eq-ok (checkpoint_for_update job_id)
          (λ c. raise_if (test c) x >> write_checkpoint job_id f) db h in
      let (_, put) = raise_if-eq-ok (test c) x (write_checkpoint job_id f) mid rest in
      let same = (checkpoint_for_update-ok job_id c db mid read).1 in
      write_checkpoint-Keeps job_id f mid db' keeps put (rw same v)

  pub bind_session-keeps :
      (clock job_id session : ℕ) (raw : Option String) (db db' : Db)
      → bind_session clock job_id session raw db ≡ ok (tt, db')
      → IsInSequence k i db
      → IsInSequence k i db'
  unfolding bind_session
  bind_session-keeps clock job_id session raw db db' h v =
      let (_, mid, put, rest) = >>=-eq-ok (insert_checkpoint job_id (some session) raw) _ db h in
      guarded_write job_id _ _ _ mid db'
        (record { same_job = λ c. refl; same_next = λ c. refl; same_last = λ c. refl }) rest
        (insert_checkpoint-keeps job_id (some session) raw db mid put v)

  pub record_session_status-keeps :
      (clock job_id session : ℕ) (raw : String) (code message : Option String) (db db' : Db)
      → record_session_status clock job_id session raw code message db ≡ ok (tt, db')
      → IsInSequence k i db
      → IsInSequence k i db'
  unfolding record_session_status
  record_session_status-keeps clock job_id session raw code message db db' h v =
      guarded_write job_id _ _ _ db db'
        (record { same_job = λ c. refl; same_next = λ c. refl; same_last = λ c. refl }) h v

  pub record_vector_status-keeps :
      (clock job_id : ℕ) (status : VectorStatus) (db db' : Db)
      → record_vector_status clock job_id status db ≡ ok (tt, db')
      → IsInSequence k i db
      → IsInSequence k i db'
  unfolding record_vector_status
  record_vector_status-keeps clock job_id status db db' h v =
      guarded_write job_id _ _ _ db db'
        (record { same_job = λ c. refl; same_next = λ c. refl; same_last = λ c. refl }) h v
