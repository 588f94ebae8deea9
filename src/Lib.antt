-- ===== src/Lib.antt =====
-- A model of AstraIndexator: the worker that claims indexation jobs from PostgreSQL, turns documents
-- into logical blocks, and delivers them to AstraVector in batches, with the theorems that make its
-- job leases and its delivery correct.
--
-- The parts and their files (paths below src/astra_indexator):
-- - Prelude: names of the libraries, Boolean tests, lists, signed integers, and tables with a key.
-- - Text: Python's str methods that the program calls, over code points. Exec: the exceptions, and the
--   two ways to run database code: `Tx`, one transaction, rolled back by an exception, and `Run`
--   (Exec.Run), a method that commits several transactions and calls AstraVector between them.
-- - Database: persistence/models.py, the tables as lists of rows.
-- - Inbox: persistence/repository.py, `create_or_get`, with the zone code of domain/contracts.py.
-- - Intent: domain/delivery_intent.py, a producer's payload as one access zone and one time to live.
-- - Claiming: the selection of application/coordinator.py and `claim_next`. Coordinator: its lease fence
--   and the mutations behind it. `heartbeat`, `advance_stage`, `complete` and `schedule_retry` are the
--   methods of JobCoordinator; `update_fenced` is `_require_one` of a fenced UPDATE, `finish_attempt` is
--   `_finish_attempt`.
-- - Failure: application/retry_policy.py. `delay_seconds`, `classify_exception` and `handle`.
-- - Leases: every interleaving of the transactions of these parts, as sequences of steps.
-- - Policy: astravector/policy.py and the messages of astravector/contracts.py that it reads.
-- - Batching: astravector/batching.py. `plan`, `partition`, `ordered`.
-- - Checkpoints: the checkpoint of persistence/delivery.py, with `normalize_sha256_hex` of
--   astravector/canonical_hash.py. Delivery: its batch rows, `prepare_batch` and `mark_accepted`.
-- - Append: application/durable_append_delivery.py, the lease fence and the loop over the batches.
-- - Start: application/delivery_identity.py, and `_ensure_session` of
--   application/astravector_delivery_coordinator.py, which is `ensure_session`.
--   Persist: its writes of the fingerprint, the final hash and the zone.
-- - Finalize: application/finalize_reconciliation.py. `finalize` is the method, `round` one turn of its
--   loop. Wait: application/vector_readiness.py, `wait_until_ready`.
-- - Abort: application/abort_reconciliation.py. `abort` is the method, `round` one turn of its loop, and
--   `resolve_observed` is `_resolve_observed`.
-- - Activation: application/vector_activation.py, the activation between two waits for the vectors.
-- - Execution: application/delivery_execution.py, a delivery turn and what its exceptions lead to.
-- - Validation: astravector/validation.py, `validate_logical_blocks`, and the tree of blocks that it accepts.
-- - Splitter: splitter/service.py, from the elements of a document to logical fragments. Chunks cuts texts
--   that are too long, Units makes the units of an element (`_text_units`, `_table_units`,
--   `_iter_units`), Groups is the loop of `split` and the joining of small groups, Fragments the rest
--   of `split`, Sentence splitter/sentence.py, and Service a splitter with its profile. Loop has the
--   rules of the loop that they share, Solid the text without its white space.
-- - Tests: concrete rows, batches and statuses to which the theorems are applied.
--
-- How they interact: the splitter works on a document alone. Inbox, Claiming, Coordinator and
-- Failure write the job table that the fence of Append reads; Append runs the operations of
-- Checkpoints and Delivery, each in its own transaction, with the batches that Batching planned, and
-- calls AstraVector in between; Policy classifies what AstraVector answers.
--
-- Bounds and fuel: the loops run over lists, but for the three `while True` loops. Those of
-- `finalize` and `abort` have fuel for `max_attempts + max_polls + 1` rounds and that of
-- `wait_until_ready` for `max_polls + 1`; all are shown to end before. The loops `while polls <
-- max_active_polls` and over the parents of a block are bounded by the polls that are left and by
-- the number of blocks. The loop of `_split_unicode` has a turn for every character of its text and
-- one for its end, which is shown to be enough. The counters are Python integers and PostgreSQL
-- INTEGER or BIGINT columns, which are taken as unbounded numbers, and the lengths of VARCHAR
-- columns are not modelled: a row that PostgreSQL refuses for its size is inserted in the model.
-- Times are whole microseconds, the resolution of PostgreSQL.
--
-- Outside the model: SQL is taken at the level of rows, at READ COMMITTED with the row locks that
-- the code takes, so one transaction is one step; a lock held elsewhere is a parameter of
-- `claim_next`. SHA-256, the protobuf messages, the float arithmetic of the jitter and Unicode's
-- case table are parameters. Parsing, OCR, acquisition, storage, configuration and the gRPC adapter
-- are I/O or calls of libraries and are not modelled; normalization, the prepared artifacts and the
-- rest of the delivery coordinator are not modelled. Regular expressions over Unicode's properties,
-- ICU's break iterators and the JSON of a profile are parameters of the splitter, and ICU is taken
-- as installed.
pub mod Prelude
pub mod Text
pub mod Exec
pub mod Database
pub mod Claiming
pub mod Coordinator
pub mod Splitter
pub mod Policy
pub mod Failure
pub mod Leases
pub mod Batching
pub mod Validation
pub mod Abort
pub mod Activation
pub mod Intent
pub mod Start
pub mod Persist
pub mod Checkpoints
pub mod Delivery
pub mod Append
pub mod Finalize
pub mod Wait
pub mod Execution
pub mod Inbox
pub mod Tests
