-- ===== src/Persist.antt =====
-- src/astra_indexator/application/astravector_delivery_coordinator.py: the three values of a delivery
-- that its checkpoint keeps from their first write on: `_persist_delivery_compatibility`,
-- `_persist_final_hash` and `_persist_resolved_zone`, each one transaction behind the lease fence.
pub mod Once
use astra_indexator.Prelude.{ℕ, Bool, true, false, not, Option, none, some, String, str_eq, ◌==◌}
use astra_indexator.Exec.{
  Result, ok, err, Tx, delivery_integrity, gets, raise_if, or_raise, ◌>>=◌, ◌>>◌,
}
use astra_indexator.Database.{Checkpoint, Db}
use astra_indexator.Claiming.{LeaseToken}
use astra_indexator.Append.{owned_then}
use astra_indexator.Checkpoints.{checkpoint_of, is_bound_to, ensure_checkpoint, write_checkpoint}

-- `stored is not None and stored != value`
abbrev pub other_text : Option String → String → Bool
other_text none value = false
other_text (some stored) value = not (str_eq stored value)

abbrev pub other_number : Option ℕ → ℕ → Bool
other_number none value = false
other_number (some stored) value = not (stored == value)

abbrev pub with_fingerprint : String → Checkpoint → Checkpoint
with_fingerprint v c = record c { delivery_compatibility_sha256 = some v }

abbrev pub with_final_hash : String → Checkpoint → Checkpoint
with_final_hash v c = record c { final_content_hash = some v }

abbrev pub with_zone : ℕ → Checkpoint → Checkpoint
with_zone v c = record c { resolved_access_zone_id = some v }

-- What the last two share: the checkpoint of this session, with a value that is not another one.
unfoldable pub persist_bound :
    ℕ → ℕ → (Checkpoint → Bool) → (Checkpoint → Checkpoint) → Tx Db (Unit {0})
persist_bound job_id session_id differs f = do
  row ← gets (checkpoint_of job_id)
  checkpoint ← or_raise row delivery_integrity
  raise_if (not (is_bound_to checkpoint.ingestion_session_id session_id)) delivery_integrity
  raise_if (differs checkpoint) delivery_integrity
  write_checkpoint job_id f

unfoldable pub persist_final_hash : LeaseToken → ℕ → String → Tx Db (Unit {0})
persist_final_hash token session_id final_hash = owned_then token (
    persist_bound token.job_id session_id (λ c. other_text c.final_content_hash final_hash)
      (with_final_hash final_hash))

unfoldable pub persist_resolved_zone : LeaseToken → ℕ → ℕ → Tx Db (Unit {0})
persist_resolved_zone token session_id zone_id = owned_then token (
    persist_bound token.job_id session_id (λ c. other_number c.resolved_access_zone_id zone_id)
      (with_zone zone_id))

unfoldable pub persist_delivery_compatibility : LeaseToken → String → Tx Db (Unit {0})
persist_delivery_compatibility token fingerprint = owned_then token (do
  checkpoint ← ensure_checkpoint token.job_id
  raise_if (other_text checkpoint.delivery_compatibility_sha256 fingerprint) delivery_integrity
  write_checkpoint token.job_id (with_fingerprint fingerprint))
