-- ===== src/Coordinator.antt =====
-- src/astra_indexator/application/coordinator.py: the lease fence, and the mutations behind it.
pub mod Rows
pub mod Claim
pub mod Fencing
use astra_indexator.Prelude.{
  ℕ, suc, ◌+◌, ◌≡◌, Bool, true, false, not, ◌&&◌, ◌||◌, List, [], ◌∷◌, ◌++◌, Option, none, some,
  String, ltb, leb, ◌==◌, if◌then◌else◌, str_eq,
}
use astra_indexator.Prelude.Int.{ℤ, pos, pos_part, ltb_ℤ, leb_ℤ}
use astra_indexator.Prelude.Tables.{update_where, count_where}
use astra_indexator.Text.{is_blank}
use astra_indexator.Exec.{
  Tx, ok, err, value_error, lease_lost, pure, gets, modify, raise_if, ◌>>=◌, ◌>>◌,
}
use astra_indexator.Database.{
  Status, pending, processing, retry_wait, completed, is_processing, is_pending, is_retry_wait, Job,
  AttemptResult, lease_expired, was_completed, will_retry, Attempt, Occurrence, job_reclaimed,
  job_claimed, processing_stage_changed, job_completed, retry_scheduled, Event, Db, seconds,
  holds_text, is_null, add_event,
}
use astra_indexator.Claiming.{
  LeaseToken, ClaimedJob, at_least, before, is_due, runnable_state, runnable, precedes, earlier,
  select_first, open_attempt, expire_attempt, claimed_row, new_attempt, claim_event, claim_token,
  claimed_job, claim, Locks, selected, claim_selected, claim_next,
}

-- The conditions of `_fencing_predicate` behind the job's identifier, with the status.
unfoldable pub owns : LeaseToken → ℕ → Job → Bool
owns token now job =
    holds_text job.worker_id token.worker_id
    && ((job.lease_generation == token.lease_generation)
        && (at_least job.lease_until now && is_processing job.status))

unfoldable pub fencing_predicate : LeaseToken → ℕ → Job → Bool
unfolding owns
fencing_predicate token now job = (job.id == token.job_id) && owns token now job

-- `_require_one(session, update(IndexationJob).where(fence).values(f))`
unfoldable pub update_fenced : LeaseToken → (Job → Job) → Tx Db (Unit {0})
unfolding fencing_predicate
update_fenced token f db =
    if count_where (fencing_predicate token db.now) db.jobs == 1
    then ok (tt, record db { jobs = update_where (fencing_predicate token db.now) f db.jobs })
    else err lease_lost

unfoldable pub open_of_token : LeaseToken → Attempt → Bool
open_of_token token a =
    (a.id == token.attempt_id)
    && ((a.job_id == token.job_id)
        && ((a.lease_generation == token.lease_generation) && is_null a.finished_at))

unfoldable pub finish_attempt :
    LeaseToken → AttemptResult → Option String → Option String → Tx Db (Unit {0})
unfolding open_of_token
finish_attempt token result error_code error_message db =
    if count_where (open_of_token token) db.attempts == 1
    then ok (
      tt,
      record db {
        attempts =
            update_where (open_of_token token)
              (λ a. record a {
                finished_at = some db.now;
                result = some result;
                error_code = error_code;
                error_message = error_message;
              })
              db.attempts;
      },
    )
    else err lease_lost

unfoldable pub extended_row : ℕ → ℕ → Job → Job
extended_row lease_seconds now job = record job {
  last_heartbeat_at = some now;
  lease_until = some (now + seconds lease_seconds);
  updated_at = now;
}

unfoldable pub heartbeat : LeaseToken → ℤ → Tx Db (Unit {0})
unfolding extended_row
heartbeat token lease_seconds = do
  raise_if (leb_ℤ lease_seconds (pos 0)) value_error
  now ← gets (λ db. db.now)
  update_fenced token (extended_row (pos_part lease_seconds) now)

token_event : LeaseToken → Occurrence → Option Status → Option String → ℕ → Event
token_event token occurrence to_status stage now = record {
  job_id = token.job_id;
  attempt_id = token.attempt_id;
  occurrence = occurrence;
  from_status = elim to_status [ none ↦ none | some _ ↦ some processing ];
  to_status = to_status;
  processing_stage = stage;
  lease_generation = token.lease_generation;
  created_at = now;
}

log_event : LeaseToken → Occurrence → Option Status → Option String → Tx Db (Unit {0})
unfolding token_event
log_event token occurrence to_status stage db =
    ok (tt, add_event (token_event token occurrence to_status stage db.now) db)

unfoldable pub advance_stage : LeaseToken → String → Tx Db (Unit {0})
unfolding log_event
advance_stage token stage = do
  raise_if (is_blank stage) value_error
  now ← gets (λ db. db.now)
  update_fenced token (λ job. record job { processing_stage = some stage; updated_at = now })
  log_event token (processing_stage_changed token.worker_id) none (some stage)

unfoldable pub completed_row : ℕ → Job → Job
completed_row now job = record job {
  status = completed;
  worker_id = none;
  lease_acquired_at = none;
  lease_until = none;
  last_heartbeat_at = none;
  completed_at = some now;
  updated_at = now;
}

unfoldable pub complete : LeaseToken → Tx Db (Unit {0})
unfolding log_event completed_row
complete token = do
  now ← gets (λ db. db.now)
  update_fenced token (completed_row now)
  finish_attempt token was_completed none none
  log_event token (job_completed token.worker_id) (some completed) none

unfoldable pub retry_row : ℕ → Option String → Option String → ℕ → Job → Job
retry_row retry_after_seconds error_code error_message now job = record job {
  status = retry_wait;
  worker_id = none;
  lease_acquired_at = none;
  lease_until = none;
  last_heartbeat_at = none;
  next_retry_at = some (now + seconds retry_after_seconds);
  last_error_code = error_code;
  last_error_message = error_message;
  updated_at = now;
}

unfoldable pub schedule_retry : LeaseToken → ℤ → Option String → Option String → Tx Db (Unit {0})
unfolding log_event retry_row
schedule_retry token retry_after_seconds error_code error_message = do
  raise_if (ltb_ℤ retry_after_seconds (pos 0)) value_error
  now ← gets (λ db. db.now)
  update_fenced token (retry_row (pos_part retry_after_seconds) error_code error_message now)
  finish_attempt token will_retry error_code error_message
  log_event token (retry_scheduled token.worker_id (pos_part retry_after_seconds)) (some retry_wait)
      none
