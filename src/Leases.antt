-- ===== src/Leases.antt =====
-- Workers, producers and the clock on one database, as sequences of committed transactions: what
-- application/coordinator.py, application/retry_policy.py and persistence/repository.py may do in any order.
-- `issued` is the history of the lease tokens that `claim_next` has returned.
pub mod Exclusive
use astra_indexator.Prelude.{ℕ, ◌+◌, ◌≡◌, List, [], ◌∷◌, Option, none, some, String}
use astra_indexator.Prelude.Int.{ℤ}
use astra_indexator.Exec.{ok}
use astra_indexator.Database.{Job, Db}
use astra_indexator.Coordinator.{heartbeat, advance_stage, complete, schedule_retry}
use astra_indexator.Claiming.{LeaseToken, ClaimedJob, Locks, claim_next}
use astra_indexator.Coordinator.Rows.{job_of}
use astra_indexator.Inbox.{NewIndexationJob, create_or_get}
use astra_indexator.Failure.{FailureClass, BackoffConfig, FailureDecision, handle}

pub record World : Type 0 where
  pub db : Db
  pub issued : List LeaseToken

-- A committed transaction: its database, and the tokens known behind it.
abbrev pub Commits : World → World → Db → Type 0
Commits w w' db' = w' ≡ record w { db = db' }

pub data Step (w w' : World) : Type 0 where
  claims :
      (locks : Locks) (attempt_id : ℕ) (worker_id : String) (n : ℤ) (c : ClaimedJob) (db' : Db)
      → claim_next locks attempt_id worker_id n w.db ≡ ok (some c, db')
      → w' ≡ record { db = db'; issued = c.token ∷ w.issued }
      → Step w w'
  beats :
      (token : LeaseToken) (n : ℤ) (db' : Db)
      → heartbeat token n w.db ≡ ok (tt, db')
      → Commits w w' db'
      → Step w w'
  advances :
      (token : LeaseToken) (stage : String) (db' : Db)
      → advance_stage token stage w.db ≡ ok (tt, db')
      → Commits w w' db'
      → Step w w'
  completes :
      (token : LeaseToken) (db' : Db)
      → complete token w.db ≡ ok (tt, db')
      → Commits w w' db'
      → Step w w'
  retries :
      (token : LeaseToken) (n : ℤ) (code message : Option String) (db' : Db)
      → schedule_retry token n code message w.db ≡ ok (tt, db')
      → Commits w w' db'
      → Step w w'
  settles :
      (jittered : ℕ → LeaseToken → ℕ → ℤ) (config : BackoffConfig) (token : LeaseToken)
      (c : FailureClass) (code message : String) (d : FailureDecision) (db' : Db)
      → handle jittered config token c code message w.db ≡ ok (d, db')
      → Commits w w' db'
      → Step w w'
  submits :
      (id : ℕ) (command : NewIndexationJob) (job : Job) (db' : Db)
      → create_or_get id command w.db ≡ ok (job, db')
      → Commits w w' db'
      → Step w w'
  ticks : (n : ℕ) → Commits w w' (record w.db { now = w.db.now + n }) → Step w w'

pub data Reach (w : World) : World → Type 0 where
  here : Reach w w
  next : {u v : World} → Reach w u → Step u v → Reach w v
