-- ===== src/Inbox/Insertion.antt =====
-- What a successful `create_or_get` of repository.py writes.
use astra_indexator.Prelude.{
  ℕ, ◌≡◌, refl, ◌⊎◌, inl, inr, Bool, false, ◌||◌, List, [], ◌∷◌, Option, none, some, arith, find,
  any, ◌==◌,
}
use astra_indexator.Prelude.Tables.{find_key}
use astra_indexator.Exec.{ok}
use astra_indexator.Database.{Job, Db}
use astra_indexator.Coordinator.Rows.{job_key, job_of}
use astra_indexator.Inbox.{
  NewIndexationJob, same_version, is_request, new_row, insert_job, get_or_insert, create_or_get,
}

-- An identifier that no row has is not found.
free_key :
    (id : ℕ) (other : Job → Bool) (rows : List Job)
    → any (λ job. (job.id == id) || other job) rows ≡ false
    → find_key job_key id rows ≡ none
unfolding find_key
free_key id other [] h = refl
free_key id other (job ∷ rows) h = ground (arith, h, free_key id other rows)

-- Nothing, or a row under an identifier that was free.
abbrev pub Inserts : ℕ → NewIndexationJob → Db → Db → Type 0
Inserts id command db db' =
    (db' ≡ db)
    ⊎ ((job_of id db ≡ none) × (db' ≡ record db { jobs = new_row id db.now command ∷ db.jobs }))

insert_job-Inserts :
    (id : ℕ) (command : NewIndexationJob) (db db' : Db) (job : Job)
    → insert_job id command db ≡ ok (job, db')
    → Inserts id command db db'
unfolding insert_job
insert_job-Inserts id command db db' job h =
    inr (free_key id (same_version command) db.jobs (ground (arith, h)), ground (arith, h))

get_or_insert-Inserts :
    (id : ℕ) (command : NewIndexationJob) (o : Option Job) (db db' : Db) (job : Job)
    → get_or_insert id command o db ≡ ok (job, db')
    → Inserts id command db db'
unfolding get_or_insert
get_or_insert-Inserts id command none db db' job h = insert_job-Inserts id command db db' job h
get_or_insert-Inserts id command (some row) db db' job h = inl (ground (arith, h))

pub create_or_get-Inserts :
    (id : ℕ) (command : NewIndexationJob) (db db' : Db) (job : Job)
    → create_or_get id command db ≡ ok (job, db')
    → Inserts id command db db'
unfolding create_or_get
create_or_get-Inserts id command db db' job h =
    get_or_insert-Inserts id command (find (is_request command.producer_request_id) db.jobs) db db'
      job (ground (arith, h))
