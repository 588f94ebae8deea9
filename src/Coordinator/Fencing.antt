-- ===== src/Coordinator/Fencing.antt =====
-- What the fence of coordinator.py lets a worker write: `heartbeat`, `advance_stage`, `complete`
-- and `schedule_retry`.
use astra_indexator.Prelude.{◌≡◌, refl, ◌∙◌, true, false, Option, none, some, String, arith}
use astra_indexator.Prelude.Int.{ℤ, pos, pos_part, ltb_ℤ, leb_ℤ}
use astra_indexator.Text.{is_blank}
use astra_indexator.Exec.{Tx, ok, err, lease_lost, value_error, raise_if, ◌>>◌, >>=-eq-ok}
use astra_indexator.Database.{Job, AttemptResult, was_completed, will_retry, Db}
use astra_indexator.Coordinator.{
  owns, update_fenced, finish_attempt, extended_row, heartbeat, advance_stage, completed_row,
  complete, retry_row, schedule_retry,
}
use astra_indexator.Claiming.{LeaseToken}
use astra_indexator.Coordinator.Rows.{
  HasKeys, owned, fenced_jobs, update_fenced_lem, job_of, job_of-fenced,
}

-- A token that does not own the lease of its job is refused with LeaseLostError by every mutation of
-- the coordinator, for all arguments that pass its checks.
pub stale_token_refused :
    (token : LeaseToken) (lease_seconds retry_after_seconds : ℤ) (stage : String)
    (error_code error_message : Option String) (db : Db)
    → HasKeys db
    → owned token db ≡ false
    → leb_ℤ lease_seconds (pos 0) ≡ false
    → is_blank stage ≡ false
    → ltb_ℤ retry_after_seconds (pos 0) ≡ false
    → (heartbeat token lease_seconds db ≡ err lease_lost)
      × (advance_stage token stage db ≡ err lease_lost)
      × (complete token db ≡ err lease_lost)
      × (schedule_retry token retry_after_seconds error_code error_message db ≡ err lease_lost)
unfolding heartbeat advance_stage complete schedule_retry
stale_token_refused token ls ra stage code message db v stale l b r = (
  ground (arith, update_fenced_lem token (extended_row (pos_part ls) db.now) db v),
  ground (
    arith,
    update_fenced_lem token
        (λ job. record job { processing_stage = some stage; updated_at = db.now }) db v,
  ),
  ground (arith, update_fenced_lem token (completed_row db.now) db v),
  ground (arith, update_fenced_lem token (retry_row (pos_part ra) code message db.now) db v),
)

-- A mutation that went through: the token owned the lease, and the rows of that job were rewritten.
pub record Rewrites (token : LeaseToken) (row : Job → Job) (db db' : Db) : Type 0 where
  pub was_owned : owned token db ≡ true
  pub rows : db'.jobs ≡ fenced_jobs token row db
  pub same_now : db'.now ≡ db.now
  pub keeps_id : (r : Job) → (row r).id ≡ r.id
  pub keeps_generation : (r : Job) → (row r).lease_generation ≡ r.lease_generation

pub heartbeat-Rewrites :
    (token : LeaseToken) (n : ℤ) (db db' : Db)
    → HasKeys db
    → heartbeat token n db ≡ ok (tt, db')
    → Rewrites token (extended_row (pos_part n) db.now) db db'
unfolding heartbeat extended_row
heartbeat-Rewrites token n db db' v h =
    let f : Job → Job = extended_row (pos_part n) db.now in
    let step = update_fenced_lem token f db v in
    record {
      was_owned = ground arith;
      rows = ground arith;
      same_now = ground arith;
      keeps_id = λ r. refl;
      keeps_generation = λ r. refl;
    }

pub advance_stage-Rewrites :
    (token : LeaseToken) (stage : String) (db db' : Db)
    → HasKeys db
    → advance_stage token stage db ≡ ok (tt, db')
    → Rewrites token
        (λ job. record job { processing_stage = some stage; updated_at = db.now })
        db
        db'
unfolding advance_stage
advance_stage-Rewrites token stage db db' v h =
    let f : Job → Job = λ job. record job { processing_stage = some stage; updated_at = db.now } in
    let step = update_fenced_lem token f db v in
    record {
      was_owned = ground arith;
      rows = ground arith;
      same_now = ground arith;
      keeps_id = λ r. refl;
      keeps_generation = λ r. refl;
    }

-- Closing an attempt leaves the jobs alone.
pub finish_attempt-jobs :
    (token : LeaseToken) (result : AttemptResult) (code message : Option String) (db db' : Db)
    → finish_attempt token result code message db ≡ ok (tt, db')
    → (db'.jobs ≡ db.jobs) × (db'.now ≡ db.now)
unfolding finish_attempt
finish_attempt-jobs token result code message db db' h = ground arith

-- A fenced update, then a closed attempt and an event: what `complete` and `schedule_retry` do.
finishing-Rewrites :
    (token : LeaseToken) (f : Job → Job) (result : AttemptResult) (code message : Option String)
    (log : Tx Db (Unit {0})) (db db' : Db)
    → ((r : Job) → (f r).id ≡ r.id)
    → ((r : Job) → (f r).lease_generation ≡ r.lease_generation)
    → ((d d' : Db) → log d ≡ ok (tt, d') → (d'.jobs ≡ d.jobs) × (d'.now ≡ d.now))
    → HasKeys db
    → (update_fenced token f >> (finish_attempt token result code message >> log)) db ≡ ok (tt, db')
    → Rewrites token f db db'
finishing-Rewrites token f result code message log db db' fid fgen flog v h =
    let (_, d1, h1, k1) = >>=-eq-ok (update_fenced token f) _ db h in
    let (_, d2, h2, k2) = >>=-eq-ok (finish_attempt token result code message) _ d1 k1 in
    let e1 = update_fenced_lem token f db v in
    let e2 = finish_attempt-jobs token result code message d1 d2 h2 in
    let e3 = flog d2 db' k2 in
    record {
      was_owned = ground (arith, e1, h1);
      rows = e3.0 ∙ e2.0 ∙ ground (arith, e1, h1);
      same_now = e3.1 ∙ e2.1 ∙ ground (arith, e1, h1);
      keeps_id = fid;
      keeps_generation = fgen;
    }

pub complete-Rewrites :
    (token : LeaseToken) (db db' : Db)
    → HasKeys db
    → complete token db ≡ ok (tt, db')
    → Rewrites token (completed_row db.now) db db'
unfolding complete
complete-Rewrites token db db' v h =
    finishing-Rewrites token (completed_row db.now) was_completed none none _ db db' (λ r. refl)
      (λ r. refl) (λ d d' e. ground arith) v h

pub schedule_retry-Rewrites :
    (token : LeaseToken) (n : ℤ) (code message : Option String) (db db' : Db)
    → HasKeys db
    → schedule_retry token n code message db ≡ ok (tt, db')
    → Rewrites token (retry_row (pos_part n) code message db.now) db db'
unfolding schedule_retry
schedule_retry-Rewrites token n code message db db' v h =
    let (_, d0, h0, k0) = >>=-eq-ok (raise_if (ltb_ℤ n (pos 0)) value_error) _ db h in
    let same : d0 ≡ db = ground (arith, h0) in
    finishing-Rewrites token (retry_row (pos_part n) code message db.now) will_retry code message _
      db db' (λ r. refl) (λ r. refl) (λ d d' e. ground arith) v (rw same at k0)

-- The row of the token's job, and every other row, behind such a mutation.
pub Rewrites-job_of :
    {token : LeaseToken} {row : Job → Job} {db db' : Db} (job : Job)
    → Rewrites token row db db'
    → job_of token.job_id db ≡ some job
    → (job_of token.job_id db' ≡ some (row job)) × (owns token db.now job ≡ true)
Rewrites-job_of {token} {row} {db} {db'} job w e =
    let own : owns token db.now job ≡ true = rw e at w.was_owned in
    (rw w.rows (ground (arith, job_of-fenced token row db token.job_id w.keeps_id)), own)
