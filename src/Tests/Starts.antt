-- ===== src/Tests/Starts.antt =====
-- A delivery of a claimed job that has no session yet.
use astra_indexator.Prelude.{[], refl, String}
use astra_indexator.Prelude.Int.{pos}
use astra_indexator.Exec.{Result, ok}
use astra_indexator.Tests.Jobs.{token, claimed_db, new_job}
use astra_indexator.Checkpoints.{checkpoint_of}
use astra_indexator.Start.{
  DeliveryInput, StartCommand, StartResult, World, session_of, ensure_session,
}
use astra_indexator.Start.Once.{Ensures, ensure_session_lem}

abbrev input : DeliveryInput
input = record { blocks = 3; source_file_name = ""; metadata = [] }

abbrev source_hash : String
source_hash = "0123456789abcdef0123456789abcdef0123456789abcdef0123456789abcdef"

abbrev starts_9000 : StartCommand → World → Result StartResult
starts_9000 command w = ok (record { ingestion_session_id = 9000; raw_status = "ACTIVE" })

abbrev starting_world : World
starting_world = record { db = claimed_db; turn = 0; starts = [] }

ensure_session_lem_example :
    Ensures
      (λ w. w.db)
      (λ w. w.turn)
      starts_9000
      (token 1)
      (pos 1000000)
      (pos 1000)
      new_job
      input
      source_hash
      (session_of (checkpoint_of new_job.id claimed_db))
      (ensure_session
        (λ w. w.db)
        (λ w. w.turn)
        starts_9000
        (token 1)
        (pos 1000000)
        (pos 1000)
        new_job
        input
        source_hash
        starting_world).0
      (ensure_session
        (λ w. w.db)
        (λ w. w.turn)
        starts_9000
        (token 1)
        (pos 1000000)
        (pos 1000)
        new_job
        input
        source_hash
        starting_world).1.starts
ensure_session_lem_example =
    ensure_session_lem (λ w. w.db) (λ w. w.turn) starts_9000 (token 1) (pos 1000000) (pos 1000)
      new_job input source_hash starting_world refl
