-- ===== src/Persist/Once.antt =====
-- What the checkpoint keeps of a delivery is written once.
use astra_indexator.Prelude.{
  ℕ, ◌≡◌, refl, sym, ◌∙◌, subst, Bool, true, false, not, Option, none, some, String, arith, find,
  str_eq, ◌==◌, List,
}
use astra_indexator.Prelude.Tables.{find_key, update_where, find_key-update_where}
use astra_indexator.Exec.{
  Result, Tx, ok, err, delivery_integrity, lease_lost, raise_if, or_raise, ◌>>=◌, ◌>>◌,
}
use astra_indexator.Database.{Job, Checkpoint, Db}
use text.Mathlib.TextEquality.{eq_iff}
use astra_indexator.Claiming.{LeaseToken}
use astra_indexator.Coordinator.{fencing_predicate}
use astra_indexator.Append.{owned_then, assert_owned}
use astra_indexator.Checkpoints.{checkpoint_key, checkpoint_of, is_bound_to, write_checkpoint}
use astra_indexator.Persist.{
  other_text, other_number, with_final_hash, with_zone, persist_bound, persist_final_hash,
  persist_resolved_zone,
}

-- A write of the checkpoint that keeps its job.
pub record IsSetter (f : Checkpoint → Checkpoint) : Type 0 where
  pub same_job : (c : Checkpoint) → checkpoint_key (f c) ≡ checkpoint_key c

-- The checkpoint before and after a write.
pub record Written (job_id session_id : ℕ) (differs : Checkpoint → Bool)
    (f : Checkpoint → Checkpoint) (db db' : Db) : Type 0 where
  pub before : Checkpoint
  pub found : checkpoint_of job_id db ≡ some before
  pub bound : is_bound_to before.ingestion_session_id session_id ≡ true
  pub agrees : differs before ≡ false
  pub after : checkpoint_of job_id db' ≡ some (f before)

updated :
    (job_id : ℕ) (f : Checkpoint → Checkpoint) (rows : List Checkpoint) (c : Checkpoint)
    → IsSetter f
    → find_key checkpoint_key job_id rows ≡ some c
    → find_key checkpoint_key job_id (update_where (λ c. c.job_id == job_id) f rows) ≡ some (f c)
updated job_id f rows c setter e =
    let same : (job_id == job_id) ≡ true = ground arith in
    rw (find_key-update_where checkpoint_key job_id job_id f rows setter.same_job, same, e) refl

persist_bound-Written :
    (job_id session_id : ℕ) (differs : Checkpoint → Bool) (f : Checkpoint → Checkpoint)
    (db db' : Db)
    → IsSetter f
    → persist_bound job_id session_id differs f db ≡ ok (tt, db')
    → Written job_id session_id differs f db db'
unfolding persist_bound write_checkpoint
persist_bound-Written job_id session_id differs f db db' setter h =
    go (checkpoint_of job_id db) refl h
  where
    put : Db
    put = record db { checkpoints = update_where (λ c. c.job_id == job_id) f db.checkpoints }

    go :
        (o : Option Checkpoint)
        → checkpoint_of job_id db ≡ o
        → (or_raise o delivery_integrity >>= λ c.
              raise_if (not (is_bound_to c.ingestion_session_id session_id)) delivery_integrity
              >> (raise_if (differs c) delivery_integrity >> write_checkpoint job_id f))
            db
          ≡ ok (tt, db')
        → Written job_id session_id differs f db db'
    go none e k = cc
    go (some c) e k = tested (is_bound_to c.ingestion_session_id session_id) refl (differs c) refl k
      where
        tested :
            (x : Bool)
            → is_bound_to c.ingestion_session_id session_id ≡ x
            → (y : Bool) → differs c ≡ y
            → (raise_if (not x) delivery_integrity
                  >> (raise_if y delivery_integrity >> write_checkpoint job_id f))
                db
              ≡ ok (tt, db')
            → Written job_id session_id differs f db db'
        tested false i y j k = cc
        tested true i true j k = cc
        tested true i false j k =
            let there : put ≡ db' = cc in
            record {
              before = c;
              found = e;
              bound = i;
              agrees = j;
              after =
                  subst (λ d. checkpoint_of job_id d ≡ some (f c)) there
                    (updated job_id f db.checkpoints c setter e);
            }

fenced-ok :
    (token : LeaseToken) (m : Tx Db (Unit {0})) (db db' : Db)
    → owned_then token m db ≡ ok (tt, db')
    → m db ≡ ok (tt, db')
unfolding owned_then assert_owned
fenced-ok token m db db' h = go (find (fencing_predicate token db.now) db.jobs) refl h
  where
    fence : Option Job → Result (Unit {0} × Db)
    fence o = elim o as (λ _. Result (Unit {0} × Db)) [
      | none ↦ err lease_lost
      | some _ ↦ ok (tt, db)
    ]

    go :
        (o : Option Job)
        → find (fencing_predicate token db.now) db.jobs ≡ o
        → (elim (fence o) as (λ _. Result (Unit {0} × Db)) [ ok (_, d) ↦ m d | err e ↦ err e ])
          ≡ ok (tt, db')
        → m db ≡ ok (tt, db')
    go none e k = cc
    go (some j) e k = k

other_text-same : (o : Option String) (v w : String) → o ≡ some w → other_text o v ≡ false → v ≡ w
other_text-same none v w e h = cc
other_text-same (some s) v w e h =
    let here : s ≡ w = cc in sym ((eq_iff s v).0 (not_false (str_eq s v) h)) ∙ here
  where
    not_false : (b : Bool) → not b ≡ false → b ≡ true
    not_false b h = ground (arith, h)

other_number-same : (o : Option ℕ) (v w : ℕ) → o ≡ some w → other_number o v ≡ false → v ≡ w
other_number-same none v w e h = cc
other_number-same (some s) v w e h = let here : s ≡ w = cc in ground (arith, h, here)

abbrev pub final_hash_of : Option Checkpoint → Option String
final_hash_of none = none
final_hash_of (some c) = c.final_content_hash

abbrev pub zone_of : Option Checkpoint → Option ℕ
zone_of none = none
zone_of (some c) = c.resolved_access_zone_id

-- The final hash of a delivery is fixed by the first write that succeeds: it leaves the value in the
-- checkpoint, and another write, by whatever token of the job and for whatever session, on a database
-- whose checkpoint still has that value, succeeds only with the same value.
pub persist_final_hash_once :
    (token later : LeaseToken) (session other_session : ℕ) (value other_value : String)
    (db db' d d' : Db)
    → later.job_id ≡ token.job_id
    → persist_final_hash token session value db ≡ ok (tt, db')
    → final_hash_of (checkpoint_of token.job_id d) ≡ final_hash_of (checkpoint_of token.job_id db')
    → persist_final_hash later other_session other_value d ≡ ok (tt, d')
    → (final_hash_of (checkpoint_of token.job_id db') ≡ some value) × (other_value ≡ value)
unfolding persist_final_hash
persist_final_hash_once token later session other_session value other_value db db' d d' same_job h
      kept k =
    let one =
      persist_bound-Written token.job_id session (λ c. other_text c.final_content_hash value)
        (with_final_hash value) db db' (record { same_job = λ c. refl })
        (fenced-ok token _ db db' h) in
    let two =
      persist_bound-Written later.job_id other_session
        (λ c. other_text c.final_content_hash other_value) (with_final_hash other_value) d d'
        (record { same_job = λ c. refl }) (fenced-ok later _ d d' k) in
    let stored : final_hash_of (checkpoint_of token.job_id db') ≡ some value = rw one.after refl in
    let read : final_hash_of (checkpoint_of later.job_id d) ≡ some value =
      rw same_job (kept ∙ stored) in
    (
      stored,
      other_text-same two.before.final_content_hash other_value value
          (subst (λ o. final_hash_of o ≡ some value) two.found read) two.agrees,
    )

-- The zone of a delivery is fixed by the first write that succeeds: it leaves the value in the
-- checkpoint, and another write, by whatever token of the job and for whatever session, on a database
-- whose checkpoint still has that value, succeeds only with the same value.
pub persist_resolved_zone_once :
    (token later : LeaseToken) (session other_session : ℕ) (value other_value : ℕ)
    (db db' d d' : Db)
    → later.job_id ≡ token.job_id
    → persist_resolved_zone token session value db ≡ ok (tt, db')
    → zone_of (checkpoint_of token.job_id d) ≡ zone_of (checkpoint_of token.job_id db')
    → persist_resolved_zone later other_session other_value d ≡ ok (tt, d')
    → (zone_of (checkpoint_of token.job_id db') ≡ some value) × (other_value ≡ value)
unfolding persist_resolved_zone
persist_resolved_zone_once token later session other_session value other_value db db' d d' same_job
      h kept k =
    let one =
      persist_bound-Written token.job_id session (λ c. other_number c.resolved_access_zone_id value)
        (with_zone value) db db' (record { same_job = λ c. refl }) (fenced-ok token _ db db' h) in
    let two =
      persist_bound-Written later.job_id other_session
        (λ c. other_number c.resolved_access_zone_id other_value) (with_zone other_value) d d'
        (record { same_job = λ c. refl }) (fenced-ok later _ d d' k) in
    let stored : zone_of (checkpoint_of token.job_id db') ≡ some value = rw one.after refl in
    let read : zone_of (checkpoint_of later.job_id d) ≡ some value = rw same_job (kept ∙ stored) in
    (
      stored,
      other_number-same two.before.resolved_access_zone_id other_value value
          (subst (λ o. zone_of o ≡ some value) two.found read) two.agrees,
    )
