-- ===== src/Tests/Runners.antt =====
-- A Finalize whose answer is lost, and a document that becomes searchable.
use astra_indexator.Prelude.{◌≡◌, ◌≢◌, ◌≤◌, refl, arith, List, [], ◌∷◌, none, some, true}
use astra_indexator.Prelude.Int.{pos}
use astra_indexator.Prelude.Tables.{find_key, update_where}
use astra_indexator.Text.{codes_eq, upper, strip, is_space}
use astra_indexator.Checkpoints.{bind_session, record_session_status}
use astra_indexator.Exec.{ok, err, transport}
use astra_indexator.Policy.{IngestionStatus, finalizing, completed, require_searchable, normalize}
use astra_indexator.Tests.Ascii.{ascii}
use astra_indexator.Tests.Deliveries.{bound_db}
use astra_indexator.Tests.Statuses.{active_status}
use astra_indexator.Finalize
use astra_indexator.Finalize.{finalize, reconciled_completed}
use astra_indexator.Finalize.Calls.{finalizes, queries, never_blind}
use astra_indexator.Finalize.Bounds.{finalize_lem}
use astra_indexator.Finalize.Evidence.{Sound, finalize-Sound}
use astra_indexator.Wait
use astra_indexator.Wait.{wait_until_ready}
use astra_indexator.Wait.Bounds.{Waits, wait_until_ready_lem}

abbrev pub completed_status : IngestionStatus
completed_status = record {
  ingestion_session_id = 9000;
  raw_status = "COMPLETED";
  state = completed;
  received_batches = pos 1;
  received_blocks = pos 1;
  received_bytes = pos 20;
  expires_at = "";
  error_code = "";
  error_message = "";
}

abbrev finalizing_status : IngestionStatus
finalizing_status = record completed_status { raw_status = "FINALIZING"; state = finalizing }

-- The first status query shows FINALIZING, and the later ones COMPLETED.
abbrev status_after : List Finalize.Call → IngestionStatus
status_after (Finalize.saw_status _ ∷ _) = completed_status
status_after _ = finalizing_status

abbrev lost_answer : Finalize.Port
lost_answer = record {
  environment = λ w. w.db;
  clock = λ w. w.turn;
  finalize_rpc = λ w. err (transport "DEADLINE_EXCEEDED" "timeout");
  status_rpc = λ w. ok (status_after w.calls);
  vector_rpc = λ _ _ _ w. ok active_status;
}

abbrev finalize_request : Finalize.Request
finalize_request = record {
  job_id = 7;
  ingestion_session_id = 9000;
  final_content_hash = "hash";
  access_zone_id = some 4;
  document_id = 700;
  document_version = 1;
}

abbrev bound_world : Finalize.World
bound_world = record { db = bound_db; turn = 0; calls = [] }

finalize_lem_example :
    ((finalize ascii lost_answer finalize_request 3 10 bound_world).0 ≢ ok none)
    × (never_blind (finalize ascii lost_answer finalize_request 3 10 bound_world).1.calls ≡ true)
    × (finalizes (finalize ascii lost_answer finalize_request 3 10 bound_world).1.calls ≤ 3)
    × (queries (finalize ascii lost_answer finalize_request 3 10 bound_world).1.calls ≤ 13)
finalize_lem_example = finalize_lem ascii lost_answer finalize_request 3 10 bound_world refl

abbrev searchable_port : Wait.Port
searchable_port = record {
  environment = λ w. w.db;
  clock = λ w. w.turn;
  vector_rpc = λ w. ok active_status;
}

abbrev waiting_world : Wait.World
waiting_world = record { db = bound_db; turn = 0; queried = 0 }

wait_until_ready_lem_example :
    Waits ascii searchable_port require_searchable 7 9000 20 20
      (wait_until_ready ascii searchable_port require_searchable 7 9000 20 none waiting_world)
wait_until_ready_lem_example =
    wait_until_ready_lem ascii searchable_port require_searchable 7 9000 20 none waiting_world
      (omega arith) refl

finalize-Sound_example :
    Sound lost_answer finalize_request
      (reconciled_completed completed_status active_status)
      (finalize ascii lost_answer finalize_request 3 10 bound_world).1.calls
unfolding finalize find_key bind_session update_where Finalize.round Finalize.call_finalize
    Finalize.is_ambiguous codes_eq normalize upper strip is_space Finalize.observe_status
    Finalize.query_status Finalize.record_status record_session_status Finalize.query_vector
finalize-Sound_example =
    finalize-Sound ascii lost_answer finalize_request 3 10 bound_world
      (finalize ascii lost_answer finalize_request 3 10 bound_world).1
      (reconciled_completed completed_status active_status) refl
