-- ===== src/Coordinator/Claim.antt =====
-- What `JobCoordinator.claim_next` selects and what it writes.
use astra_indexator.Prelude.{
  ℕ, ◌≡◌, refl, ap, subst, ◌∙◌, ◌≢◌, Bool, true, false, not, inl, inr, ◌&&◌, List, [], ◌∷◌, Option,
  none, some, String, arith, ◌==◌, if◌then◌else◌, Option-cases, All, All-map,
}
use text.Mathlib.TextPositions.{eq_refl}
use astra_indexator.Prelude.Int.{ℤ, pos_part}
use astra_indexator.Prelude.Tables.{find_key, IsKeyed, find_key-update_where, update_where-IsKeyed}
use astra_indexator.Exec.{ok}
use astra_indexator.Database.{Job, Db}
use astra_indexator.Coordinator.{owns}
use astra_indexator.Claiming.{
  ClaimedJob, claim_token, runnable, precedes, earlier, select_first, claimed_row, claim,
  claimed_job, Locks, selected, claim_next,
}
use astra_indexator.Coordinator.Rows.{job_key, job_of, HasKeys, owned_row, owned}

precedes_asymm : (a b : Job) → precedes b a ≡ true → precedes a b ≡ false
unfolding precedes
precedes_asymm a b h = ground arith

-- What does not precede `b` does not precede `a`, if `b` does not.
not_precedes_trans :
    (x b a : Job) → precedes x b ≡ false → precedes b a ≡ false → precedes x a ≡ false
unfolding precedes
not_precedes_trans x b a h k = ground arith

-- Every row that passes the test comes at or behind `b`.
abbrev pub IsFirst : (Job → Bool) → Job → Job → Type 0
IsFirst p b a = (p a && precedes a b) ≡ false

precedes_irrefl : (a : Job) → precedes a a ≡ false
unfolding precedes
precedes_irrefl a = ground arith

-- A selection: the first of the rows that pass, or none because no row passes.
abbrev pub IsBest : (Job → Bool) → List Job → Option Job → Type 0
IsBest p rows none = All (λ a. p a ≡ false) rows
IsBest p rows (some b) = (p b ≡ true) × All (IsFirst p b) rows

-- A row that comes first keeps its place before a row `b` that does not precede it.
IsFirst-of_All :
    (p : Job → Bool) (a : Job) (rows : List Job)
    → All (λ x. p x ≡ false) rows
    → All (IsFirst p a) rows
IsFirst-of_All p a rows h = All-map (λ x. p x ≡ false) (IsFirst p a) rows (λ x out. rw out) h

IsFirst-behind :
    (p : Job → Bool) (a b : Job) (rows : List Job)
    → precedes b a ≡ false
    → All (IsFirst p b) rows
    → All (IsFirst p a) rows
IsFirst-behind p a b rows k h =
    All-map (IsFirst p b) (IsFirst p a) rows (λ x first. ground (arith, not_precedes_trans x b a)) h

IsBest-step :
    (p : Job → Bool) (a : Job) (rows : List Job) (o : Option Job) (hit : Bool)
    → p a ≡ hit
    → IsBest p rows o
    → IsBest p (a ∷ rows) (if hit then some (earlier a o) else o)
IsBest-step p a rows none true e best =
    (e, (ground (arith, precedes_irrefl a), IsFirst-of_All p a rows best))
IsBest-step p a rows none false e best = (e, best)
IsBest-step p a rows (some b) false e best = (best.0, (rw e, best.1))
IsBest-step p a rows (some b) true e best = chosen (precedes b a) refl
  where
    chosen : (k : Bool) → precedes b a ≡ k → IsBest p (a ∷ rows) (some (if k then b else a))
    chosen true k = (best.0, (ground (arith, precedes_asymm a b), best.1))
    chosen false k = (e, (ground (arith, precedes_irrefl a), IsFirst-behind p a b rows k best.1))

pub select_first-IsBest : (p : Job → Bool) (rows : List Job) → IsBest p rows (select_first p rows)
unfolding select_first
select_first-IsBest p [] = tt
select_first-IsBest p (a ∷ rows) =
    IsBest-step p a rows (select_first p rows) (p a) refl (select_first-IsBest p rows)

-- The selected row is the row that its key finds.
found_step :
    (a : Job) (rows : List Job) (o : Option Job) (hit : Bool) (b : Job)
    → find_key job_key a.id rows ≡ none
    → ((c : Job) → o ≡ some c → find_key job_key c.id rows ≡ some c)
    → (if hit then some (earlier a o) else o) ≡ some b
    → find_key job_key b.id (a ∷ rows) ≡ some b
unfolding find_key
found_step a rows none true b new rest e = ground arith
found_step a rows none false b new rest e = cc
found_step a rows (some c) false b new rest e = ground (arith, rest c refl)
found_step a rows (some c) true b new rest e = ground (arith, rest c refl)

pub find_key-select_first :
    (p : Job → Bool) (rows : List Job) (b : Job)
    → IsKeyed job_key rows
    → select_first p rows ≡ some b
    → find_key job_key b.id rows ≡ some b
unfolding select_first
find_key-select_first p [] b v e = cc
find_key-select_first p (a ∷ rows) b v e =
    found_step a rows (select_first p rows) (p a) b v.0
      (λ c h. find_key-select_first p rows c v.1 h) e

-- The rows that `claim_next` may select.
abbrev pub claimable : Locks → Db → Job → Bool
claimable locks db job = runnable db.now job && not (locks.job_locked job.id)

pub claim_next-some :
    (locks : Locks) (attempt_id : ℕ) (worker_id : String) (lease_seconds : ℤ) (db db' : Db)
    (c : ClaimedJob)
    → claim_next locks attempt_id worker_id lease_seconds db ≡ ok (some c, db')
    → (job : Job) × (selected locks db ≡ some job)
      × (c ≡ claimed_job attempt_id worker_id job)
      × (db' ≡ claim locks.attempt_locked attempt_id worker_id (pos_part lease_seconds) job db)
unfolding claim_next
claim_next-some locks attempt_id worker_id lease_seconds db db' c h =
    elim (Option-cases (selected locks db)) [
      | inl e ↦ ground arith
      | inr (job, e) ↦ (job, e, ground arith, ground arith)
    ]

pub claim_next-none :
    (locks : Locks) (attempt_id : ℕ) (worker_id : String) (lease_seconds : ℤ) (db db' : Db)
    → claim_next locks attempt_id worker_id lease_seconds db ≡ ok (none, db')
    → (selected locks db ≡ none) × (db' ≡ db)
unfolding claim_next
claim_next-none locks attempt_id worker_id lease_seconds db db' h = ground arith

-- What `claim_next` returns and leaves behind. With a job: one that may be claimed and that no
-- other such job precedes, whose token then owns the lease; no other row changes.
abbrev pub Claims : Locks → ℕ → String → Db → Db → Option ClaimedJob → Type 0
Claims locks attempt_id worker_id db db' none =
    All (λ a. claimable locks db a ≡ false) db.jobs × (db' ≡ db)
Claims locks attempt_id worker_id db db' (some c) =
    (job : Job) × (claimable locks db job ≡ true)
    × All (IsFirst (claimable locks db) job) db.jobs
    × (c ≡ claimed_job attempt_id worker_id job)
    × (owned c.token db' ≡ true)
    × ((j : ℕ) → j ≢ job.id → job_of j db' ≡ job_of j db)

claimed_row-id :
    (worker_id : String) (n now : ℕ) (r : Job) → (claimed_row worker_id n now r).id ≡ r.id
unfolding claimed_row
claimed_row-id worker_id n now r = refl

-- The rows behind a claim.
pub job_of-claim :
    (locked : ℕ → Bool) (attempt_id : ℕ) (worker_id : String) (n : ℕ) (job : Job) (db : Db) (j : ℕ)
    → HasKeys db
    → job_of job.id db ≡ some job
    → job_of j (claim locked attempt_id worker_id n job db)
      ≡ (if j == job.id then some (claimed_row worker_id n db.now job) else job_of j db)
unfolding claim
job_of-claim locked attempt_id worker_id n job db j v e =
    rw
      (find_key-update_where job_key job.id j (claimed_row worker_id n db.now) db.jobs
        (claimed_row-id worker_id n db.now))
      (ground arith)

pub claim-HasKeys :
    (locked : ℕ → Bool) (attempt_id : ℕ) (worker_id : String) (n : ℕ) (job : Job) (db : Db)
    → HasKeys db
    → HasKeys (claim locked attempt_id worker_id n job db)
unfolding claim
claim-HasKeys locked attempt_id worker_id n job db v =
    update_where-IsKeyed job_key (λ r. r.id == job.id) (claimed_row worker_id n db.now) db.jobs
      (claimed_row-id worker_id n db.now) v

owns-claimed_row :
    (attempt_id : ℕ) (worker_id : String) (n now : ℕ) (job : Job)
    → owns (claim_token attempt_id worker_id job) now (claimed_row worker_id n now job) ≡ true
unfolding owns claimed_row claim_token
owns-claimed_row attempt_id worker_id n now job = ground (arith, eq_refl worker_id)

-- The row of the claimed job.
pub job_of-claim_self :
    (locked : ℕ → Bool) (attempt_id : ℕ) (worker_id : String) (n : ℕ) (job : Job) (db : Db)
    → HasKeys db
    → job_of job.id db ≡ some job
    → job_of job.id (claim locked attempt_id worker_id n job db)
      ≡ some (claimed_row worker_id n db.now job)
job_of-claim_self locked attempt_id worker_id n job db v e =
    ground (arith, job_of-claim locked attempt_id worker_id n job db job.id v e)

-- The token of a claim owns the lease that the claim wrote.
pub owned-claim :
    (locked : ℕ → Bool) (attempt_id : ℕ) (worker_id : String) (n : ℕ) (job : Job) (db : Db)
    → HasKeys db
    → job_of job.id db ≡ some job
    → owned (claim_token attempt_id worker_id job) (claim locked attempt_id worker_id n job db)
      ≡ true
unfolding claim claim_token
owned-claim locked attempt_id worker_id n job db v e =
    ap (owned_row (claim_token attempt_id worker_id job) db.now)
      (job_of-claim_self locked attempt_id worker_id n job db v e)
    ∙ owns-claimed_row attempt_id worker_id n db.now job

-- `claim_next` takes a job that may be claimed (runnable, not locked) and that no other such job
-- precedes in the order `priority DESC, created_at, id`; the token that it returns owns the lease
-- behind the claim, and no other job's row changes. It returns no job only where none may be
-- claimed, and then the database is as it was.
pub claim_next_lem :
    (locks : Locks) (attempt_id : ℕ) (worker_id : String) (lease_seconds : ℤ) (db db' : Db)
    (found : Option ClaimedJob)
    → HasKeys db
    → claim_next locks attempt_id worker_id lease_seconds db ≡ ok (found, db')
    → Claims locks attempt_id worker_id db db' found
unfolding selected claimed_job
claim_next_lem locks attempt_id worker_id lease_seconds db db' none v h =
    let (e, same) = claim_next-none locks attempt_id worker_id lease_seconds db db' h in
    (
      subst (IsBest (claimable locks db) db.jobs) e
          (select_first-IsBest (claimable locks db) db.jobs),
      same,
    )
claim_next_lem locks attempt_id worker_id lease_seconds db db' (some c) v h =
    let (job, e, token, after) =
      claim_next-some locks attempt_id worker_id lease_seconds db db' c h in
    let best : IsBest (claimable locks db) db.jobs (some job) =
      subst (IsBest (claimable locks db) db.jobs) e
        (select_first-IsBest (claimable locks db) db.jobs) in
    let row = find_key-select_first (claimable locks db) db.jobs job v e in
    let n = pos_part lease_seconds in
    (
      job,
      best.0,
      best.1,
      token,
      rw (token, after) (owned-claim locks.attempt_locked attempt_id worker_id n job db v row),
      (λ j other. rw after (
          ground (arith, job_of-claim locks.attempt_locked attempt_id worker_id n job db j v row))),
    )
