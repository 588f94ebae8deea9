-- ===== src/Inbox/Idempotent.antt =====
-- `create_or_get` of repository.py is idempotent by producer request.
use astra_indexator.Prelude.{ℕ, ◌≡◌, refl, false, ◌∷◌, Option, none, some, arith, find}
use astra_indexator.Exec.{ok}
use astra_indexator.Database.{Job, Db}
use astra_indexator.Inbox.{
  NewIndexationJob, breaks_constraint, is_request, new_row, insert_job, get_or_insert,
  create_or_get,
}

-- The row that is returned is the one that the request finds.
get_or_insert-found :
    (id : ℕ) (command : NewIndexationJob) (o : Option Job) (db db' : Db) (job : Job)
    → find (is_request command.producer_request_id) db.jobs ≡ o
    → get_or_insert id command o db ≡ ok (job, db')
    → find (is_request command.producer_request_id) db'.jobs ≡ some job
unfolding get_or_insert insert_job new_row
get_or_insert-found id command none db db' job e h =
    let put : db' ≡ record db { jobs = new_row id db.now command ∷ db.jobs } = ground (arith, h) in
    let one : job ≡ new_row id db.now command = ground (arith, h) in rw (put, one) (ground arith)
get_or_insert-found id command (some row) db db' job e h =
    let put : db' ≡ db = ground (arith, h) in
    let one : job ≡ row = ground (arith, h) in rw (put, one) e

create_or_get-found :
    (id : ℕ) (command : NewIndexationJob) (db db' : Db) (job : Job)
    → create_or_get id command db ≡ ok (job, db')
    → find (is_request command.producer_request_id) db'.jobs ≡ some job
unfolding create_or_get
create_or_get-found id command db db' job h =
    get_or_insert-found id command (find (is_request command.producer_request_id) db.jobs) db db'
      job refl (ground (arith, h))

-- A second submission of a request, with whatever else it says and a fresh identifier, returns the
-- job that the first one returned and changes nothing. The conditions are that the first succeeds,
-- that both name the same request, and that the second breaks no constraint of the table.
pub create_or_get_idempotent :
    (id other_id : ℕ) (command other : NewIndexationJob) (db db' : Db) (job : Job)
    → create_or_get id command db ≡ ok (job, db')
    → other.producer_request_id ≡ command.producer_request_id
    → breaks_constraint other ≡ false
    → create_or_get other_id other db' ≡ ok (job, db')
unfolding create_or_get get_or_insert
create_or_get_idempotent id other_id command other db db' job h same fits =
    let there : find (is_request other.producer_request_id) db'.jobs ≡ some job =
      rw same (create_or_get-found id command db db' job h) in
    rw fits (rw there refl)
