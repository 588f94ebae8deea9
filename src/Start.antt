-- ===== src/Start.antt =====
-- src/astra_indexator/application/delivery_identity.py, and `_ensure_session` of
-- application/astravector_delivery_coordinator.py: the session of a delivery is the one of the
-- checkpoint, or is started behind the lease window and bound. AstraVector's answer is the parameter
-- `start_rpc`; `environment` is what other transactions do before one of this worker.
pub mod Once
use astra_indexator.Prelude.{
  ℕ, suc, Bool, true, false, not, List, [], ◌∷◌, Option, none, some, String, length, if◌then◌else◌,
  str_eq, ◌==◌,
}
use astra_indexator.Prelude.Int.{ℤ}
use astra_indexator.Text.{codes, is_empty}
use astra_indexator.Exec.{Error, Result, ok, err, value_error, Tx}
use astra_indexator.Exec.Run.{Run, return, ◌>>=◌, ◌>>◌}
use astra_indexator.Database.{Job, Checkpoint, Db}
use astra_indexator.Claiming.{LeaseToken}
use astra_indexator.Coordinator.{advance_stage}
use astra_indexator.Checkpoints.{checkpoint_of, is_sha256, bind_session}
use astra_indexator.Append.{owned_then, assert_safe_rpc_window}

-- `DeliveryIdentityError`, a ValueError.
abbrev pub identity_error : Error
identity_error = value_error

unfoldable pub require_source_sha256 : Option String → Result String
require_source_sha256 none = err identity_error
require_source_sha256 (some s) = if is_sha256 (codes s) then ok s else err identity_error

abbrev same_hash : String → Result String → Result String
same_hash durable (err e) = err e
same_hash durable (ok payload) =
    if not (str_eq payload durable) then err identity_error else ok durable

-- The hash of the payload, where it is given and not blank, has to be the durable one.
abbrev compared : Option String → Result String → Result String
compared payload_hash (err e) = err e
compared none (ok durable) = ok durable
compared (some h) (ok durable) =
    if is_empty (codes h) then ok durable else same_hash durable (require_source_sha256 (some h))

unfoldable pub resolve_verified_source_sha256 : Option String → Option String → Result String
resolve_verified_source_sha256 durable_hash payload_hash =
    compared payload_hash (require_source_sha256 durable_hash)

-- The key's text, by its parts.
pub record IdempotencyKey : Type 0 where
  pub document_id : ℕ
  pub document_version : ℕ
  pub digest : String

abbrev key_of : ℕ → ℕ → Result String → Result IdempotencyKey
key_of document_id document_version (err e) = err e
key_of document_id document_version (ok digest) =
    ok (record { document_id = document_id; document_version = document_version; digest = digest })

unfoldable pub start_idempotency_key : ℕ → ℕ → String → Result IdempotencyKey
start_idempotency_key document_id document_version source_sha256 =
    if document_version == 0
    then err identity_error
    else key_of document_id document_version (require_source_sha256 (some source_sha256))

-- What of the delivery's input `_ensure_session` reads.
pub record DeliveryInput : Type 0 where
  pub blocks : ℕ
  pub source_file_name : String
  pub metadata : List (String × String)

-- `access_zone_id` is always None.
pub record StartCommand : Type 0 where
  pub access_zone_code : String
  pub document_id : ℕ
  pub document_version : ℕ
  pub source_uri : String
  pub file_name : String
  pub content_hash : String
  pub idempotency_key : IdempotencyKey
  pub total_bytes_estimate : ℕ
  pub total_blocks_estimate : ℕ
  pub total_pages_estimate : ℕ
  pub metadata : List (String × String)
  pub ttl_days : ℕ

abbrev or_zero : Option ℕ → ℕ
or_zero none = 0
or_zero (some n) = n

-- `a or b` on texts
abbrev or_text : String → String → String
or_text a b = if is_empty (codes a) then b else a

abbrev or_blank : Option String → String
or_blank none = ""
or_blank (some s) = s

unfoldable pub start_command : Job → DeliveryInput → String → IdempotencyKey → StartCommand
start_command job payload source_sha256 key = record {
  access_zone_code = job.access_zone_code;
  document_id = job.document_id;
  document_version = job.document_version;
  source_uri = job.source_uri;
  file_name = or_text payload.source_file_name (or_text (or_blank job.source_file_name) "document");
  content_hash = source_sha256;
  idempotency_key = key;
  total_bytes_estimate = or_zero job.source_size_bytes;
  total_blocks_estimate = payload.blocks;
  total_pages_estimate = 0;
  metadata = payload.metadata;
  ttl_days = or_zero job.requested_ttl_days;
}

pub record StartResult : Type 0 where
  pub ingestion_session_id : ℕ
  pub raw_status : String

-- A Start that was sent, with its answer and the database that the transaction before it left.
pub record Sent : Type 0 where
  pub command : StartCommand
  pub reply : Result StartResult
  pub db : Db

pub record World : Type 0 where
  pub db : Db
  pub turn : ℕ
  pub starts : List Sent

abbrev pub session_of : Option Checkpoint → Option ℕ
session_of none = none
session_of (some c) = c.ingestion_session_id

abbrev pub committed {κ} : {A : Type κ} → (World → Db) → World → Result (A × Db) → Result A × World
committed environment w (ok (a, db)) = (ok a, record w { db = db; turn = suc w.turn })
committed environment w (err e) = (err e, record w { db = environment w; turn = suc w.turn })

module _ (environment : World → Db) (clock : World → ℕ)
    (start_rpc : StartCommand → World → Result StartResult) (token : LeaseToken)
    (rpc_deadline safety_margin : ℤ) where
  abbrev pub transaction {κ} : {A : Type κ} → (World → Tx Db A) → Run World A
  transaction m w = committed environment w (m w (environment w))

  unfoldable pub call_start : StartCommand → Run World StartResult
  call_start command w = (
    start_rpc command w,
    record w {
      starts = record { command = command; reply = start_rpc command w; db = w.db } ∷ w.starts;
    },
  )

  -- `start_idempotency_key`, whose error is raised.
  abbrev pub with_key : Job → String → Run World IdempotencyKey
  with_key job source_sha256 w =
      (start_idempotency_key job.document_id job.document_version source_sha256, w)

  unfoldable pub bind_started : Job → StartResult → Run World ℕ
  bind_started job started = do
    transaction (λ w.
        owned_then token
          (bind_session (clock w) job.id started.ingestion_session_id (some started.raw_status)))
    return started.ingestion_session_id

  unfoldable pub start_with : Job → StartCommand → Run World ℕ
  start_with job command = do
    transaction (λ w. assert_safe_rpc_window token rpc_deadline safety_margin)
    started ← call_start command
    bind_started job started

  unfoldable pub start_session : Job → DeliveryInput → String → Run World ℕ
  start_session job payload source_sha256 = do
    transaction (λ w. advance_stage token "ASTRAVECTOR_START")
    key ← with_key job source_sha256
    start_with job (start_command job payload source_sha256 key)

  abbrev pub session_or_start : Job → DeliveryInput → String → Option ℕ → Run World ℕ
  session_or_start job payload source_sha256 (some session) = return session
  session_or_start job payload source_sha256 none = start_session job payload source_sha256

  -- `_ensure_session`
  unfoldable pub ensure_session : Job → DeliveryInput → String → Run World ℕ
  ensure_session job payload source_sha256 = do
    found ←
        transaction (λ w. owned_then token (λ db. ok (session_of (checkpoint_of job.id db), db)))
    session_or_start job payload source_sha256 found
