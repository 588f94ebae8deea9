-- ===== src/Failure/Outcome.antt =====
-- What `DurableFailureHandler.handle` does with a job.
use astra_indexator.Prelude.{
  ℕ, zero, suc, ◌+◌, ◌-◌, ◌*◌, ◌^◌, ◌≡◌, ◌≤◌, ◌⊎◌, inl, inr, refl, ap, ◌∙◌, Bool, true, false, ◌&&◌,
  none, some, String, arith, ltb, ◌==◌, if◌then◌else◌, find, Bool-cases, Option-cases,
}
use native.Mathlib.Nat.{pow-suc}
use astra_indexator.Prelude.Int.{ℤ, pos}
use astra_indexator.Prelude.Tables.{update_where, find_key-update_where, find-fenced, key-find_key}
use astra_indexator.Exec.{ok, >>=-eq-ok}
use astra_indexator.Database.{Status, Job, Db, retry_wait, failed, dead_letter}
use astra_indexator.Coordinator.{owns, fencing_predicate, retry_row, open_of_token, schedule_retry}
use astra_indexator.Claiming.{LeaseToken}
use astra_indexator.Coordinator.Fencing.{Rewrites, schedule_retry-Rewrites, Rewrites-job_of}
use astra_indexator.Coordinator.Rows.{job_key, job_of, HasKeys, owned, owned_row}
use astra_indexator.Failure.{
  FailureClass, ownership_lost, downstream_ambiguous, FailureAction, retry_later, reconcile,
  fail_job, send_to_dead_letter, abandon, BackoffConfig, IsConfig, FailureDecision, delay_seconds,
  is_retryable, terminal_row, terminate, retry_with, settle, handle,
}

-- The exponential delay before it is cut off.
abbrev raw_delay : ℕ → ℕ → ℕ
raw_delay base k = base * 2 ^ k

raw_delay-suc : (base k : ℕ) → raw_delay base (suc k) ≡ 2 * raw_delay base k
raw_delay-suc base k = rw (pow-suc 2 k) (grind arith)

base-le-raw_delay : (base k : ℕ) → base ≤ raw_delay base k
base-le-raw_delay base zero = omega arith
base-le-raw_delay base (suc k) = omega (arith, raw_delay-suc base k, base-le-raw_delay base k)

raw_delay_grows : (base n : ℕ) → raw_delay base (n - 1) ≤ raw_delay base (n + 1 - 1)
raw_delay_grows base zero = omega arith
raw_delay_grows base (suc k) =
    let e : suc k - 1 ≡ k = omega arith in
    let f : suc k + 1 - 1 ≡ suc k = omega arith in rw (e, f) (omega (arith, raw_delay-suc base k))

module _ (jittered : ℕ → LeaseToken → ℕ → ℤ) (config : BackoffConfig) where
  -- Whatever the jitter rounds to, the delay is at most the configured maximum.
  pub delay_seconds-le-max :
      (token : LeaseToken) (n : ℕ)
      → delay_seconds jittered config token n ≤ config.max_delay_seconds
  unfolding delay_seconds
  delay_seconds-le-max token n = ground arith

  -- Without jitter a retry waits at least the base delay, and the next one waits no less.
  pub delay_seconds_grows :
      (token : LeaseToken) (n : ℕ)
      → config.no_jitter ≡ true
      → IsConfig config
      → (config.base_delay_seconds ≤ delay_seconds jittered config token n)
        × (delay_seconds jittered config token n ≤ delay_seconds jittered config token (n + 1))
  unfolding delay_seconds
  delay_seconds_grows token n none_set v = ground (
    arith,
    base-le-raw_delay config.base_delay_seconds (n - 1),
    raw_delay_grows config.base_delay_seconds n,
  )

-- The status and the action for a failure of a class that the handler settles.
abbrev pub has_budget : FailureClass → Job → Bool
has_budget c job = is_retryable c && ltb job.attempt_count job.max_attempts

abbrev pub settled_status : FailureClass → Job → Status
settled_status c job =
    if has_budget c job then retry_wait else if is_retryable c then dead_letter else failed

abbrev pub settled_action : FailureClass → Job → FailureAction
settled_action c job =
    if has_budget c job
    then retry_later
    else if is_retryable c
    then send_to_dead_letter
    else fail_job

-- What a settled failure leaves behind, for the job that the token owned.
pub record Settles (token : LeaseToken) (c : FailureClass) (job : Job) (db db' : Db)
    (d : FailureDecision) : Type 0 where
  pub job' : Job
  pub row : job_of token.job_id db' ≡ some job'
  pub status : job'.status ≡ settled_status c job
  pub action : d.action ≡ settled_action c job
  pub released : (job'.worker_id ≡ none) × (job'.lease_until ≡ none)
  pub budget : (job'.attempt_count ≡ job.attempt_count) × (job'.max_attempts ≡ job.max_attempts)
  pub fenced_off : owned token db' ≡ false

-- A job without a worker is owned by nobody.
unowned :
    (token : LeaseToken) (now : ℕ) (job : Job) → job.worker_id ≡ none → owns token now job ≡ false
unfolding owns
unowned token now job e = ground arith

module _ (token : LeaseToken) (c : FailureClass) (code message : String) (job : Job) (db : Db) where
  retry_with-Settles :
      (delay : ℕ) (db' : Db) (d : FailureDecision)
      → HasKeys db
      → job_of token.job_id db ≡ some job
      → has_budget c job ≡ true
      → retry_with token c code message delay db ≡ ok (d, db')
      → Settles token c job db db' d
  unfolding retry_with retry_row
  retry_with-Settles delay db' d v row more h =
      let (_, db1, h1, k1) =
        >>=-eq-ok (schedule_retry token (pos delay) (some code) (some message)) _ db h in
      let w = schedule_retry-Rewrites token (pos delay) (some code) (some message) db db1 v h1 in
      let (row1, _) = Rewrites-job_of job w row in
      let same : db1 ≡ db' = ground (arith, k1) in
      let job2 : Job = retry_row delay (some code) (some message) db.now job in
      let row2 : job_of token.job_id db' ≡ some job2 = rw same at row1 in
      record {
        job' = job2;
        row = row2;
        status = rw more refl;
        action = rw more (ground (arith, k1));
        released = (refl, refl);
        budget = (refl, refl);
        fenced_off = ap (owned_row token db'.now) row2 ∙ unowned token db'.now job2 refl;
      }

  terminate-jobs :
      (db' : Db) (d : FailureDecision)
      → terminate token c code message job db ≡ ok (d, db')
      → (d.action ≡ (if is_retryable c then send_to_dead_letter else fail_job))
        × (db'.jobs
            ≡ update_where
                (λ r. r.id == job.id)
                (terminal_row (if is_retryable c then dead_letter else failed) code message db.now)
                db.jobs)
  unfolding terminate
  terminate-jobs db' d h = elim (Option-cases (find (open_of_token token) db.attempts)) [
    | inl e ↦ absurd (ground (arith, h, e))
    | inr (a, e) ↦ (ground (arith, h, e), ground (arith, h, e))
  ]

  terminate-Settles :
      (db' : Db) (d : FailureDecision)
      → job_of token.job_id db ≡ some job
      → has_budget c job ≡ false
      → terminate token c code message job db ≡ ok (d, db')
      → Settles token c job db db' d
  unfolding terminal_row
  terminate-Settles db' d row spent h =
      let (act, jobs) = terminate-jobs db' d h in
      let f : Job → Job =
        terminal_row (if is_retryable c then dead_letter else failed) code message db.now in
      let id_ = key-find_key job_key token.job_id db.jobs job row in
      let row2 : job_of token.job_id db' ≡ some (f job) =
        rw (jobs, find_key-update_where job_key job.id token.job_id f db.jobs (λ r. refl))
          (ground (arith, id_, row)) in
      record {
        job' = f job;
        row = row2;
        status = rw spent refl;
        action = rw spent act;
        released = (refl, refl);
        budget = (refl, refl);
        fenced_off = ap (owned_row token db'.now) row2 ∙ unowned token db'.now (f job) refl;
      }

-- The job that a transaction of the handler locks.
abbrev Locked : LeaseToken → Db → Job → Type 0
Locked token db job = (job_of token.job_id db ≡ some job) × (owns token db.now job ≡ true)

Locked-row :
    (token : LeaseToken) (db : Db) (job : Job)
    → HasKeys db
    → find (fencing_predicate token db.now) db.jobs ≡ some job
    → Locked token db job
unfolding fencing_predicate
Locked-row token db job v e =
    let found = find-fenced job_key token.job_id (owns token db.now) db.jobs v in
    elim (Option-cases (job_of token.job_id db)) [
      | inl n ↦ absurd (ground (arith, found, e, n))
      | inr (r, n) ↦ (ground (arith, found, e, n), ground (arith, found, e, n))
    ]

settle-Settles :
    (jittered : ℕ → LeaseToken → ℕ → ℤ) (config : BackoffConfig) (token : LeaseToken)
    (c : FailureClass) (code message : String) (db db' : Db) (d : FailureDecision)
    → HasKeys db
    → settle jittered config token c code message db ≡ ok (d, db')
    → (job : Job) × Locked token db job × Settles token c job db db' d
unfolding settle
settle-Settles jittered config token c code message db db' d v h =
    elim (Option-cases (find (fencing_predicate token db.now) db.jobs)) [
      | inl e ↦ absurd (ground (arith, h, e))
      | inr (job, e) ↦
          let (row, own) = Locked-row token db job v e in
          elim (Bool-cases (has_budget c job)) [
            | inl more ↦ (
              job,
              (row, own),
              retry_with-Settles token c code message job db
                  (delay_seconds jittered config token job.attempt_count) db' d v row more
                  (ground (arith, h, e, more)),
            )
            | inr spent ↦ (
              job,
              (row, own),
              terminate-Settles token c code message job db db' d row spent
                  (ground (arith, h, e, spent)),
            )
          ]
    ]

-- How the transaction of the handler writes the jobs: by a retry, or by a terminal row.
pub data Writes (token : LeaseToken) (db db' : Db) : Type 0 where
  retried :
      (n : ℕ) (code message : String)
      → Rewrites token (retry_row n (some code) (some message) db.now) db db'
      → Writes token db db'
  terminated :
      (k : ℕ) (s : Status) (code message : String)
      → db'.jobs ≡ update_where (λ r. r.id == k) (terminal_row s code message db.now) db.jobs
      → Writes token db db'

retry_with-Writes :
    (token : LeaseToken) (c : FailureClass) (code message : String) (delay : ℕ) (db db' : Db)
    (d : FailureDecision)
    → HasKeys db
    → retry_with token c code message delay db ≡ ok (d, db')
    → Writes token db db'
unfolding retry_with
retry_with-Writes token c code message delay db db' d v h =
    let (_, db1, h1, k1) =
      >>=-eq-ok (schedule_retry token (pos delay) (some code) (some message)) _ db h in
    let w = schedule_retry-Rewrites token (pos delay) (some code) (some message) db db1 v h1 in
    let same : db1 ≡ db' = ground (arith, k1) in retried delay code message (rw same at w)

settle-Writes :
    (jittered : ℕ → LeaseToken → ℕ → ℤ) (config : BackoffConfig) (token : LeaseToken)
    (c : FailureClass) (code message : String) (db db' : Db) (d : FailureDecision)
    → HasKeys db
    → settle jittered config token c code message db ≡ ok (d, db')
    → Writes token db db'
unfolding settle
settle-Writes jittered config token c code message db db' d v h =
    elim (Option-cases (find (fencing_predicate token db.now) db.jobs)) [
      | inl e ↦ absurd (ground (arith, h, e))
      | inr (job, e) ↦ elim (Bool-cases (has_budget c job)) [
        | inl more ↦
            retry_with-Writes token c code message
              (delay_seconds jittered config token job.attempt_count) db db' d v
              (ground (arith, h, e, more))
        | inr spent ↦
            terminated job.id _ code message
              (terminate-jobs token c code message job db db' d (ground (arith, h, e, spent))).1
      ]
    ]

-- Where `handle` commits, it kept the database or wrote it so.
pub handle-Writes :
    (jittered : ℕ → LeaseToken → ℕ → ℤ) (config : BackoffConfig) (token : LeaseToken)
    (c : FailureClass) (code message : String) (db db' : Db) (d : FailureDecision)
    → HasKeys db
    → handle jittered config token c code message db ≡ ok (d, db')
    → (db' ≡ db) ⊎ Writes token db db'
unfolding handle
handle-Writes jittered config token ownership_lost code message db db' d v h =
    inl (ground (arith, h))
handle-Writes jittered config token downstream_ambiguous code message db db' d v h =
    inl (ground (arith, h))
handle-Writes jittered config token c code message db db' d v h =
    inr (settle-Writes jittered config token c code message db db' d v h)

-- What `handle` has done, by the class of the failure.
abbrev pub Handled : LeaseToken → FailureClass → Db → Db → FailureDecision → Type 0
Handled token ownership_lost db db' d = (db' ≡ db) × (d.action ≡ abandon)
Handled token downstream_ambiguous db db' d = (db' ≡ db) × (d.action ≡ reconcile)
Handled token c db db' d = (job : Job) × Locked token db job × Settles token c job db db' d

-- A failure of lost ownership is abandoned and an ambiguous one is left to reconciliation, and both
-- leave the database as it was. Any other class takes the job that the token owns out of PROCESSING:
-- to RETRY_WAIT if the class is retryable and fewer than `max_attempts` attempts were made, to
-- DEAD_LETTER if it is retryable and none is left, and to FAILED otherwise; the action reported is
-- that one, the worker and the lease are released, the attempt counts stay, and the token no longer
-- owns the job.
pub handle_lem :
    (jittered : ℕ → LeaseToken → ℕ → ℤ) (config : BackoffConfig) (token : LeaseToken)
    (c : FailureClass) (code message : String) (db db' : Db) (d : FailureDecision)
    → HasKeys db
    → handle jittered config token c code message db ≡ ok (d, db')
    → Handled token c db db' d
unfolding handle
handle_lem jittered config token ownership_lost code message db db' d v h =
    (ground (arith, h), ground (arith, h))
handle_lem jittered config token downstream_ambiguous code message db db' d v h =
    (ground (arith, h), ground (arith, h))
handle_lem jittered config token c code message db db' d v h =
    settle-Settles jittered config token c code message db db' d v h
