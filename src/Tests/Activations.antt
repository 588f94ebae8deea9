-- ===== src/Tests/Activations.antt =====
-- Witnesses on the activation of a document version.
use astra_indexator.Prelude.{refl, arith, [], none, true, false}
use astra_indexator.Exec.{ok, err, transport}
use astra_indexator.Policy.{VectorStatus}
use astra_indexator.Tests.Ascii.{ascii}
use astra_indexator.Database.{Db}
use astra_indexator.Checkpoints.{bind_session}
use astra_indexator.Tests.Jobs.{token, claimed_db}
use astra_indexator.Tests.Deliveries.{db_of}
use astra_indexator.Tests.Statuses.{active_status}
use astra_indexator.Wait
use astra_indexator.Activation.{World, activate_until_searchable}
use astra_indexator.Activation.Safe.{Safe, first_wait, activate_until_searchable-Safe}

abbrev ready_status : VectorStatus
ready_status = record active_status {
  raw_state = "READY_TO_ACTIVATE";
  searchable = false;
  ready_to_activate = true;
  document_status = "READY";
}

abbrev owned_db : Db
owned_db = db_of (bind_session 50 7 9000 none claimed_db)

-- The answer of the activation is lost, and the document is found searchable.
abbrev activating_port : Wait.Port
activating_port = record {
  environment = λ w. w.db;
  clock = λ w. w.turn;
  vector_rpc = λ w. ok active_status;
}

abbrev activating_world : World
activating_world = record {
  waiting = record { db = owned_db; turn = 0; queried = 0 };
  activations = [];
}

activate_until_searchable-Safe_example :
    Safe ascii activating_port
      (λ w. err (transport "UNAVAILABLE" "lost"))
      (token 1)
      9000
      20
      (first_wait ascii activating_port
        (λ w. err (transport "UNAVAILABLE" "lost"))
        (token 1)
        9000
        20
        ready_status
        activating_world.waiting).0
      39
      (activate_until_searchable ascii activating_port
        (λ w. err (transport "UNAVAILABLE" "lost"))
        (token 1)
        9000
        20
        ready_status
        activating_world)
activate_until_searchable-Safe_example =
    activate_until_searchable-Safe ascii activating_port (λ w. err (transport "UNAVAILABLE" "lost"))
      (token 1) 9000 20 ready_status activating_world refl refl (omega arith)
