-- ===== src/Tests/Aborts.antt =====
-- Witnesses on the runs of Abort.
use astra_indexator.Prelude.{◌≡◌, ◌≤◌, true, [], refl}
use astra_indexator.Exec.{ok, err, transport}
use astra_indexator.Policy.{aborted, IngestionStatus}
use astra_indexator.Tests.Deliveries.{bound_db}
use astra_indexator.Tests.Runners.{completed_status}
use astra_indexator.Abort.{Port, World, abort}
use astra_indexator.Abort.Calls.{aborts, queries, never_blind}
use astra_indexator.Abort.Bounds.{Answers, abort_lem}

abbrev aborted_status : IngestionStatus
aborted_status = record completed_status { raw_status = "ABORTED"; state = aborted }

-- The answer of the Abort is lost, and the status query shows ABORTED.
abbrev lost_abort : Port
lost_abort = record {
  environment = λ w. w.db;
  clock = λ w. w.turn;
  abort_rpc = λ _ w. err (transport "DEADLINE_EXCEEDED" "timeout");
  status_rpc = λ w. ok aborted_status;
}

abbrev aborting_world : World
aborting_world = record { db = bound_db; turn = 0; calls = [] }

abort_lem_example :
    Answers 9000
      (abort lost_abort 7 9000 3 10 "stop" aborting_world).0
      (abort lost_abort 7 9000 3 10 "stop" aborting_world).1.calls
    × (never_blind (abort lost_abort 7 9000 3 10 "stop" aborting_world).1.calls ≡ true)
    × (aborts (abort lost_abort 7 9000 3 10 "stop" aborting_world).1.calls ≤ 3)
    × (queries (abort lost_abort 7 9000 3 10 "stop" aborting_world).1.calls ≤ 13)
abort_lem_example = abort_lem lost_abort 7 9000 3 10 "stop" aborting_world refl
