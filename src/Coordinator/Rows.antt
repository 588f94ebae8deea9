-- ===== src/Coordinator/Rows.antt =====
-- The fenced statements of coordinator.py on a table with a primary key.
use astra_indexator.Prelude.{
  ℕ, ◌≡◌, refl, Bool, false, inl, inr, List, Option, none, some, ◌==◌, if◌then◌else◌, Bool-cases,
}
use astra_indexator.Prelude.Tables.{
  update_where, find_key, IsKeyed, fenced, count_where-fenced, find_key-update_fenced,
  update_where-IsKeyed,
}
use astra_indexator.Exec.{ok, err, lease_lost}
use astra_indexator.Database.{Job, Db}
use astra_indexator.Coordinator.{owns, update_fenced}
use astra_indexator.Claiming.{LeaseToken}

abbrev pub job_key : Job → ℕ
job_key job = job.id

abbrev pub job_of : ℕ → Db → Option Job
job_of k db = find_key job_key k db.jobs

abbrev pub HasKeys : Db → Type 0
HasKeys db = IsKeyed job_key db.jobs

abbrev pub owned_row : LeaseToken → ℕ → Option Job → Bool
owned_row token now none = false
owned_row token now (some job) = owns token now job

-- Whether the token still owns the processing lease of its job.
abbrev pub owned : LeaseToken → Db → Bool
owned token db = owned_row token db.now (job_of token.job_id db)

abbrev pub fenced_jobs : LeaseToken → (Job → Job) → Db → List Job
fenced_jobs token f db = update_where (fenced job_key token.job_id (owns token db.now)) f db.jobs

count_row :
    (o : Option Job) (token : LeaseToken) (now : ℕ)
    → ((elim o [ none ↦ 0 | some r ↦ if owns token now r then 1 else 0 ]) == 1)
      ≡ owned_row token now o
count_row none token now = refl
count_row (some r) token now = elim (Bool-cases (owns token now r)) [ inl h ↦ rw h | inr h ↦ rw h ]

-- A fenced update runs when the token owns the lease, and raises LeaseLostError otherwise.
pub update_fenced_lem :
    (token : LeaseToken) (f : Job → Job) (db : Db)
    → HasKeys db
    → update_fenced token f db ≡ (
        if owned token db
        then ok (tt, record db { jobs = fenced_jobs token f db })
        else err lease_lost)
unfolding update_fenced
update_fenced_lem token f db v =
    rw (count_where-fenced job_key token.job_id (owns token db.now) db.jobs v)
      (rw (count_row (job_of token.job_id db) token db.now) refl)

-- The row of a job behind a fenced update.
pub job_of-fenced :
    (token : LeaseToken) (f : Job → Job) (db : Db) (j : ℕ)
    → ((r : Job) → (f r).id ≡ r.id)
    → find_key job_key j (fenced_jobs token f db) ≡ (
        if j == token.job_id
        then elim (job_of j db) [
          | none ↦ none
          | some r ↦ some (if owns token db.now r then f r else r)
        ]
        else job_of j db)
job_of-fenced token f db j keep =
    find_key-update_fenced job_key token.job_id (owns token db.now) f j db.jobs keep

pub fenced_jobs-IsKeyed :
    (token : LeaseToken) (f : Job → Job) (db : Db)
    → ((r : Job) → (f r).id ≡ r.id)
    → HasKeys db
    → IsKeyed job_key (fenced_jobs token f db)
fenced_jobs-IsKeyed token f db keep v =
    update_where-IsKeyed job_key (fenced job_key token.job_id (owns token db.now)) f db.jobs keep v
