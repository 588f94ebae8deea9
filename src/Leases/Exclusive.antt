-- ===== src/Leases/Exclusive.antt =====
-- At most one lease token of a job passes the fence, whatever workers, producers and the clock do.
use astra_indexator.Prelude.{
  ℕ, ◌+◌, ◌≡◌, ◌≤◌, inl, inr, refl, sym, ap, ◌∙◌, Bool, true, ◌&&◌, List, [], ◌∷◌, Option, none,
  some, String, arith, ◌==◌, if◌then◌else◌, All, All-map, Option-cases, Bool-cases,
}
use astra_indexator.Prelude.Int.{ℤ, pos_part}
use astra_indexator.Prelude.Tables.{
  find_key, count_where, find_key-update_where, update_where-IsKeyed,
}
use astra_indexator.Exec.{ok}
use astra_indexator.Database.{Job, Db}
use astra_indexator.Coordinator.{owns}
use astra_indexator.Claiming.{
  LeaseToken, ClaimedJob, Locks, claim, claimed_row, claim_next, claim_token, claimed_job, selected,
}
use astra_indexator.Coordinator.Rows.{
  job_key, job_of, HasKeys, owned, job_of-fenced, fenced_jobs-IsKeyed,
}
use astra_indexator.Coordinator.Claim.{
  claimable, claim_next-some, find_key-select_first, job_of-claim, claim-HasKeys,
}
use astra_indexator.Coordinator.Fencing.{
  Rewrites, heartbeat-Rewrites, advance_stage-Rewrites, complete-Rewrites, schedule_retry-Rewrites,
}
use astra_indexator.Inbox.{new_row}
use astra_indexator.Inbox.Insertion.{create_or_get-Inserts}
use astra_indexator.Failure.{terminal_row}
use astra_indexator.Failure.Outcome.{Writes, retried, terminated, handle-Writes}
use astra_indexator.Leases.{
  World, Step, claims, beats, advances, completes, retries, settles, submits, ticks, Reach, here,
  next,
}

-- The lease generation of a job, 0 where there is no such job.
abbrev row_generation : Option Job → ℕ
row_generation none = 0
row_generation (some job) = job.lease_generation

abbrev generation : ℕ → Db → ℕ
generation k db = row_generation (job_of k db)

-- A step that neither claims nor loses a row.
record Keeps (db db' : Db) : Type 0 where
  keyed : HasKeys db'
  same : (k : ℕ) → generation k db' ≡ generation k db

Rewrites-Keeps :
    {token : LeaseToken} {row : Job → Job} {db db' : Db}
    → HasKeys db
    → Rewrites token row db db'
    → Keeps db db'
Rewrites-Keeps {token} {row} {db} {db'} v w = record {
  keyed = rw w.rows (fenced_jobs-IsKeyed token row db w.keeps_id v);
  same = λ k. rw (w.rows, job_of-fenced token row db k w.keeps_id) (kept k (job_of k db));
}
  where
    kept :
        (k : ℕ) (o : Option Job)
        → row_generation (
            if k == token.job_id
            then elim o [ none ↦ none | some r ↦ some (if owns token db.now r then row r else r) ]
            else o)
          ≡ row_generation o
    kept k none = ground arith
    kept k (some r) = ground (arith, w.keeps_generation r)

Writes-Keeps : {token : LeaseToken} {db db' : Db} → HasKeys db → Writes token db db' → Keeps db db'
unfolding terminal_row
Writes-Keeps v (retried n code message w) = Rewrites-Keeps v w
Writes-Keeps {db = db} v (terminated k s code message e) = record {
  keyed = rw e (
      update_where-IsKeyed job_key (λ r. r.id == k) (terminal_row s code message db.now) db.jobs
        (λ r. refl) v);
  same = λ j.
      rw
        (
          e,
          find_key-update_where job_key k j (terminal_row s code message db.now) db.jobs
              (λ r. refl),
        )
        (kept j (job_of j db));
}
  where
    kept :
        (j : ℕ) (o : Option Job)
        → row_generation (
            if j == k
            then elim o [ none ↦ none | some r ↦ some (terminal_row s code message db.now r) ]
            else o)
          ≡ row_generation o
    kept j none = ground arith
    kept j (some r) = ground arith

-- Two tokens for one claim of one job.
abbrev SameLease : LeaseToken → LeaseToken → Type 0
SameLease t u = (t.job_id ≡ u.job_id) × (t.lease_generation ≡ u.lease_generation)

abbrev Distinct : List LeaseToken → Type 0
Distinct [] = Unit
Distinct (t ∷ ts) = All (λ u. ¬ SameLease t u) ts × Distinct ts

abbrev IsIssued : Db → LeaseToken → Type 0
IsIssued db t = t.lease_generation ≤ generation t.job_id db

-- No token is ahead of its job, and no two are for one generation.
record Inv (w : World) : Type 0 where
  keyed : HasKeys w.db
  bounded : All (IsIssued w.db) w.issued
  distinct : Distinct w.issued

keep_Inv : {w w' : World} → Inv w → Keeps w.db w'.db → w'.issued ≡ w.issued → Inv w'
keep_Inv {w} {w'} v k e = record {
  keyed = k.keyed;
  bounded = rw e (
      All-map (IsIssued w.db) (IsIssued w'.db) w.issued (λ t h. omega (arith, k.same t.job_id))
        v.bounded);
  distinct = rw e v.distinct;
}

commit_Inv :
    {w w' : World} {db' : Db} → Inv w → Keeps w.db db' → w' ≡ record w { db = db' } → Inv w'
commit_Inv {w} {w'} {db'} v k e = rw e (keep_Inv {w = w} {w' = record w { db = db' }} v k refl)

-- A claim raises the generation of its job by one.
generation-claim :
    (locked : ℕ → Bool) (attempt_id : ℕ) (worker_id : String) (n : ℕ) (job : Job) (db : Db) (k : ℕ)
    → HasKeys db
    → job_of job.id db ≡ some job
    → generation k (claim locked attempt_id worker_id n job db)
      ≡ (if k == job.id then job.lease_generation + 1 else generation k db)
unfolding claimed_row
generation-claim locked attempt_id worker_id n job db k v e =
    ap row_generation (job_of-claim locked attempt_id worker_id n job db k v e) ∙ ground arith

claim-Inv :
    (locked : ℕ → Bool) (attempt_id : ℕ) (worker_id : String) (n : ℕ) (job : Job) (w : World)
    → Inv w
    → job_of job.id w.db ≡ some job
    → Inv (record {
      db = claim locked attempt_id worker_id n job w.db;
      issued = claim_token attempt_id worker_id job ∷ w.issued;
    })
unfolding claim_token
claim-Inv locked attempt_id worker_id n job w v e = record {
  keyed = claim-HasKeys locked attempt_id worker_id n job w.db v.keyed;
  bounded = (
    ground (arith, raised job.id),
    All-map (IsIssued w.db) (IsIssued (claim locked attempt_id worker_id n job w.db)) w.issued
        (λ t h. ground (arith, raised t.job_id, same_job t.job_id)) v.bounded,
  );
  distinct = (
    All-map (IsIssued w.db) (λ t. ¬ SameLease (claim_token attempt_id worker_id job) t) w.issued
        (λ t h s. omega (arith, same_job t.job_id (sym s.0), s.1)) v.bounded,
    v.distinct,
  );
}
  where
    raised :
        (k : ℕ)
        → generation k (claim locked attempt_id worker_id n job w.db)
          ≡ (if k == job.id then job.lease_generation + 1 else generation k w.db)
    raised k = generation-claim locked attempt_id worker_id n job w.db k v.keyed e

    same_job : (k : ℕ) → k ≡ job.id → generation k w.db ≡ job.lease_generation
    same_job k h = rw h (ap row_generation e)

step-claims :
    (locks : Locks) (attempt_id : ℕ) (worker_id : String) (n : ℤ) (c : ClaimedJob) (w : World)
    (db' : Db)
    → Inv w
    → claim_next locks attempt_id worker_id n w.db ≡ ok (some c, db')
    → Inv (record { db = db'; issued = c.token ∷ w.issued })
unfolding selected claimed_job
step-claims locks attempt_id worker_id n c w db' v h =
    let (job, e, token, after) = claim_next-some locks attempt_id worker_id n w.db db' c h in
    let row = find_key-select_first (claimable locks w.db) w.db.jobs job v.keyed e in
    rw (token, after) (claim-Inv locks.attempt_locked attempt_id worker_id (pos_part n) job w v row)

submit-Keeps :
    (job : Job) (db : Db)
    → HasKeys db
    → job_of job.id db ≡ none
    → job.lease_generation ≡ 0
    → Keeps db (record db { jobs = job ∷ db.jobs })
unfolding find_key
submit-Keeps job db v new zero_generation = record {
  keyed = (new, v);
  same = λ k. elim (Bool-cases (job.id == k)) [
    | inl hit ↦ ground (arith, hit)
    | inr miss ↦ ground (arith, miss)
  ];
}

-- Every transaction keeps the invariant.
Step-Inv : {w w' : World} → Step w w' → Inv w → Inv w'
unfolding new_row
Step-Inv {w} (claims locks a worker n c db' h e) v = rw e (step-claims locks a worker n c w db' v h)
Step-Inv {w} {w'} (beats t n db' h e) v =
    commit_Inv {w = w} {w' = w'} v
      (Rewrites-Keeps v.keyed (heartbeat-Rewrites t n w.db db' v.keyed h)) e
Step-Inv {w} {w'} (advances t stage db' h e) v =
    commit_Inv {w = w} {w' = w'} v
      (Rewrites-Keeps v.keyed (advance_stage-Rewrites t stage w.db db' v.keyed h)) e
Step-Inv {w} {w'} (completes t db' h e) v =
    commit_Inv {w = w} {w' = w'} v (Rewrites-Keeps v.keyed (complete-Rewrites t w.db db' v.keyed h))
      e
Step-Inv {w} {w'} (retries t n code message db' h e) v =
    commit_Inv {w = w} {w' = w'} v
      (Rewrites-Keeps v.keyed (schedule_retry-Rewrites t n code message w.db db' v.keyed h)) e
Step-Inv {w} {w'} (settles jit config t c code message d db' h e) v =
    elim (handle-Writes jit config t c code message w.db db' d v.keyed h) [
      | inl same ↦ rw (e, same) v
      | inr writes ↦ commit_Inv {w = w} {w' = w'} v (Writes-Keeps v.keyed writes) e
    ]
Step-Inv {w} {w'} (submits id command job db' h e) v =
    elim (create_or_get-Inserts id command w.db db' job h) [
      | inl same ↦ rw (e, same) v
      | inr (new, put) ↦
          commit_Inv {w = w} {w' = w'} v
            (rw put (submit-Keeps (new_row id w.db.now command) w.db v.keyed new refl)) e
    ]
Step-Inv {w} {w'} (ticks n e) v =
    commit_Inv {w = w} {w' = w'} v (record { keyed = v.keyed; same = λ k. refl }) e

Reach-Inv : {w w' : World} → Inv w → Reach w w' → Inv w'
Reach-Inv v here = v
Reach-Inv v (next r s) = Step-Inv s (Reach-Inv v r)

-- The tokens of one job that pass the fence now.
abbrev pub passes : ℕ → Db → LeaseToken → Bool
passes k db t = (t.job_id == k) && owned t db

owned-generation :
    (t : LeaseToken) (db : Db) → owned t db ≡ true → generation t.job_id db ≡ t.lease_generation
unfolding owns
owned-generation t db h = elim (Option-cases (job_of t.job_id db)) [
  | inl n ↦ ground (arith, h, n)
  | inr (job, e) ↦ ground (arith, h, e)
]

no_other :
    (k : ℕ) (db : Db) (t : LeaseToken) (ts : List LeaseToken)
    → All (λ u. ¬ SameLease t u) ts
    → passes k db t ≡ true
    → count_where (passes k db) ts ≡ 0
unfolding count_where
no_other k db t [] h p = refl
no_other k db t (u ∷ ts) h p = elim (Bool-cases (passes k db u)) [
  | inl q ↦ absurd (
      h.0
        (ground (arith, p, q), ground (arith, p, q, owned-generation t db, owned-generation u db)))
  | inr q ↦ ground (arith, q, no_other k db t ts h.1 p)
]

at_most_one :
    (k : ℕ) (db : Db) (ts : List LeaseToken) → Distinct ts → count_where (passes k db) ts ≤ 1
unfolding count_where
at_most_one k db [] d = omega arith
at_most_one k db (t ∷ ts) d = elim (Bool-cases (passes k db t)) [
  | inl p ↦ ground (arith, p, no_other k db t ts d.0 p)
  | inr p ↦ ground (arith, p, at_most_one k db ts d.1)
]

-- Start with a database whose jobs have distinct identifiers and no token issued. Whatever claims,
-- heartbeats, stage changes, completions, retries, failures, submissions and passing of time follow,
-- at most one of all tokens issued so far for a job passes the lease fence.
pub lease_exclusive :
    (db : Db) (w : World) (k : ℕ)
    → HasKeys db
    → Reach (record { db = db; issued = [] }) w
    → count_where (passes k w.db) w.issued ≤ 1
lease_exclusive db w k v r =
    at_most_one k w.db w.issued
      (Reach-Inv {w = record { db = db; issued = [] }} {w' = w}
        (record { keyed = v; bounded = tt; distinct = tt }) r).distinct
