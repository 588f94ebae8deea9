-- ===== src/Claiming.antt =====
-- src/astra_indexator/application/coordinator.py: which job `claim_next` selects, and what it writes.
-- A row lock held by another transaction is a parameter (`SKIP LOCKED` passes over such rows), and
-- so is the identifier that `uuid4()` returns.
use astra_indexator.Prelude.{
  ℕ, ◌+◌, Bool, true, false, not, ◌&&◌, ◌||◌, List, [], ◌∷◌, ◌++◌, Option, none, some, String, ltb,
  leb, ◌==◌, if◌then◌else◌,
}
use astra_indexator.Prelude.Int.{ℤ, pos, pos_part, ltb_ℤ, leb_ℤ}
use astra_indexator.Prelude.Tables.{update_where}
use astra_indexator.Text.{is_blank}
use astra_indexator.Exec.{Tx, value_error, pure, gets, modify, raise_if, ◌>>=◌, ◌>>◌}
use astra_indexator.Database.{
  processing, is_processing, is_pending, is_retry_wait, Job, lease_expired, Attempt, job_reclaimed,
  job_claimed, Event, Db, seconds, is_null,
}

pub record LeaseToken : Type 0 where
  pub job_id : ℕ
  pub worker_id : String
  pub lease_generation : ℕ
  pub attempt_id : ℕ

pub record ClaimedJob : Type 0 where
  pub token : LeaseToken
  pub document_id : ℕ
  pub document_version : ℕ
  pub access_zone_code : String
  pub source_uri : String
  pub processing_stage : Option String

-- `lease_until >= now()`, false when the lease is NULL.
abbrev pub at_least : Option ℕ → ℕ → Bool
at_least none now = false
at_least (some t) now = leb now t

-- `lease_until < now()`
abbrev pub before : Option ℕ → ℕ → Bool
before none now = false
before (some t) now = ltb t now

-- `next_retry_at IS NULL OR next_retry_at <= now()`
abbrev pub is_due : Option ℕ → ℕ → Bool
is_due none now = true
is_due (some t) now = leb t now

unfoldable pub runnable_state : ℕ → Job → Bool
runnable_state now job =
    is_pending job.status
    || ((is_retry_wait job.status && is_due job.next_retry_at now)
        || (is_processing job.status && before job.lease_until now))

unfoldable pub runnable : ℕ → Job → Bool
unfolding runnable_state
runnable now job =
    runnable_state now job && (not job.cancel_requested && ltb job.attempt_count job.max_attempts)

-- `ORDER BY priority DESC, created_at, id`: whether `a` comes before `b`.
unfoldable pub precedes : Job → Job → Bool
precedes a b =
    if ltb_ℤ b.priority a.priority
    then true
    else if ltb_ℤ a.priority b.priority
    then false
    else if ltb a.created_at b.created_at
    then true
    else if ltb b.created_at a.created_at
    then false
    else ltb a.id b.id

-- The first row of the ordered selection.
abbrev pub earlier : Job → Option Job → Job
earlier a none = a
earlier a (some b) = if precedes b a then b else a

unfoldable pub select_first : (Job → Bool) → List Job → Option Job
select_first p [] = none
select_first p (a ∷ rows) =
    let rest = select_first p rows in if p a then some (earlier a rest) else rest

-- The unfinished attempt of a job with the highest number, among the rows that are not locked.
abbrev later : Attempt → Option Attempt → Attempt
later a none = a
later a (some b) = if ltb a.attempt_number b.attempt_number then b else a

unfoldable pub open_attempt : (ℕ → Bool) → ℕ → List Attempt → Option Attempt
open_attempt locked job_id [] = none
open_attempt locked job_id (a ∷ rows) =
    let rest = open_attempt locked job_id rows in
    if (a.job_id == job_id) && (is_null a.finished_at && not (locked a.id))
    then some (later a rest)
    else rest

-- The previous attempt of a reclaimed job is closed as `LEASE_EXPIRED`.
unfoldable pub expire_attempt : ℕ → Option Attempt → List Attempt → List Attempt
expire_attempt now none rows = rows
expire_attempt now (some previous) rows =
    update_where (λ a. a.id == previous.id)
      (λ a. record a { finished_at = some now; result = some lease_expired }) rows

unfoldable pub claimed_row : String → ℕ → ℕ → Job → Job
claimed_row worker_id lease_seconds now job = record job {
  status = processing;
  worker_id = some worker_id;
  lease_generation = job.lease_generation + 1;
  lease_acquired_at = some now;
  lease_until = some (now + seconds lease_seconds);
  last_heartbeat_at = some now;
  attempt_count = job.attempt_count + 1;
  next_retry_at = none;
  updated_at = now;
}

unfoldable pub new_attempt : ℕ → String → ℕ → Job → Attempt
new_attempt attempt_id worker_id now job = record {
  id = attempt_id;
  job_id = job.id;
  attempt_number = job.attempt_count + 1;
  lease_generation = job.lease_generation + 1;
  worker_id = worker_id;
  started_at = now;
  finished_at = none;
  result = none;
  started_stage = job.processing_stage;
  finished_stage = none;
  error_code = none;
  error_message = none;
  processing_fingerprint = job.processing_fingerprint;
}

unfoldable pub claim_event : ℕ → String → ℕ → Job → Event
claim_event attempt_id worker_id now job = record {
  job_id = job.id;
  attempt_id = attempt_id;
  occurrence =
      if is_processing job.status
      then job_reclaimed worker_id job.lease_generation
      else job_claimed worker_id job.lease_generation;
  from_status = some job.status;
  to_status = some processing;
  processing_stage = job.processing_stage;
  lease_generation = job.lease_generation + 1;
  created_at = now;
}

unfoldable pub claim_token : ℕ → String → Job → LeaseToken
claim_token attempt_id worker_id job = record {
  job_id = job.id;
  worker_id = worker_id;
  lease_generation = job.lease_generation + 1;
  attempt_id = attempt_id;
}

unfoldable pub claimed_job : ℕ → String → Job → ClaimedJob
unfolding claim_token
claimed_job attempt_id worker_id job = record {
  token = claim_token attempt_id worker_id job;
  document_id = job.document_id;
  document_version = job.document_version;
  access_zone_code = job.access_zone_code;
  source_uri = job.source_uri;
  processing_stage = job.processing_stage;
}

-- What `claim_next` writes for the job that it selected.
unfoldable pub claim : (ℕ → Bool) → ℕ → String → ℕ → Job → Db → Db
unfolding claimed_row new_attempt claim_event open_attempt expire_attempt
claim attempt_locked attempt_id worker_id lease_seconds job db = record db {
  jobs = update_where (λ r. r.id == job.id) (claimed_row worker_id lease_seconds db.now) db.jobs;
  attempts =
      new_attempt attempt_id worker_id db.now job
      ∷ (if is_processing job.status
          then expire_attempt db.now (open_attempt attempt_locked job.id db.attempts) db.attempts
          else db.attempts);
  events = db.events ++ claim_event attempt_id worker_id db.now job ∷ [];
}

-- The rows that other transactions have locked while `claim_next` runs.
pub record Locks : Type 0 where
  pub job_locked : ℕ → Bool
  pub attempt_locked : ℕ → Bool

unfoldable pub selected : Locks → Db → Option Job
unfolding select_first runnable
selected locks db =
    select_first (λ job. runnable db.now job && not (locks.job_locked job.id)) db.jobs

unfoldable pub claim_selected : Locks → ℕ → String → ℕ → Option Job → Tx Db (Option ClaimedJob)
unfolding claim claimed_job
claim_selected locks attempt_id worker_id lease_seconds none = pure none
claim_selected locks attempt_id worker_id lease_seconds (some job) = do
  modify (claim locks.attempt_locked attempt_id worker_id lease_seconds job)
  pure (some (claimed_job attempt_id worker_id job))

unfoldable pub claim_next : Locks → ℕ → String → ℤ → Tx Db (Option ClaimedJob)
unfolding claim_selected
claim_next locks attempt_id worker_id lease_seconds = do
  raise_if (is_blank worker_id) value_error
  raise_if (leb_ℤ lease_seconds (pos 0)) value_error
  job ← gets (selected locks)
  claim_selected locks attempt_id worker_id (pos_part lease_seconds) job
