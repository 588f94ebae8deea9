-- ===== src/Tests/Persisted.antt =====
-- A final hash and a zone that are written twice.
use astra_indexator.Prelude.{◌≡◌, refl, some, none, String, ℕ}
use astra_indexator.Database.{Db}
use astra_indexator.Checkpoints.{checkpoint_of, bind_session}
use astra_indexator.Tests.Jobs.{token, claimed_db}
use astra_indexator.Tests.Deliveries.{db_of}
use astra_indexator.Append.{owned_then}
use astra_indexator.Prelude.Tables.{find_key, update_where}
use astra_indexator.Claiming.{claim_next, selected}
use astra_indexator.Text.{is_blank}
use astra_indexator.Coordinator.{fencing_predicate}
use astra_indexator.Persist.{persist_bound, persist_final_hash, persist_resolved_zone}
use astra_indexator.Persist.Once.{
  final_hash_of, zone_of, persist_final_hash_once, persist_resolved_zone_once,
}

abbrev final : String
final = "final"

abbrev zone : ℕ
zone = 4

abbrev session_db : Db
session_db = db_of (bind_session 50 7 9000 none claimed_db)

abbrev hashed_db : Db
hashed_db = db_of (persist_final_hash (token 1) 9000 final session_db)

abbrev zoned_db : Db
zoned_db = db_of (persist_resolved_zone (token 1) 9000 zone session_db)

persist_final_hash_once_example :
    (final_hash_of (checkpoint_of 7 hashed_db) ≡ some final) × (final ≡ final)
unfolding persist_final_hash owned_then bind_session find_key claim_next is_blank selected
    update_where fencing_predicate persist_bound
persist_final_hash_once_example =
    persist_final_hash_once (token 1) (token 1) 9000 9000 final final session_db hashed_db hashed_db
      hashed_db refl refl refl refl

persist_resolved_zone_once_example :
    (zone_of (checkpoint_of 7 zoned_db) ≡ some zone) × (zone ≡ zone)
unfolding persist_resolved_zone owned_then bind_session find_key claim_next is_blank selected
    update_where fencing_predicate persist_bound
persist_resolved_zone_once_example =
    persist_resolved_zone_once (token 1) (token 1) 9000 9000 zone zone session_db zoned_db zoned_db
      zoned_db refl refl refl refl
