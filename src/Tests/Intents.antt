-- ===== src/Tests/Intents.antt =====
-- A payload that names one access zone twice, and has no time to live.
use astra_indexator.Prelude.{◌≡◌, ◌↔◌, [], ◌∷◌, none, some, str_eq, if◌then◌else◌}
use astra_indexator.Exec.{ok}
use astra_indexator.Intent.{str, sequence, Payload, DeliveryIntent, normalize_delivery_intent}
use astra_indexator.Intent.Exact.{States, normalize_delivery_intent_iff}

abbrev zone_twice : Payload
zone_twice key =
    if str_eq key "accessZoneCode"
    then some (str "0100")
    else if str_eq key "accessZoneCodes"
    then some (sequence (some "0100" ∷ some "0100" ∷ []))
    else none

abbrev inherited : DeliveryIntent
inherited = record { access_zone_code = "0100"; ttl_days = 0 }

normalize_delivery_intent_iff_example :
    (normalize_delivery_intent zone_twice ≡ ok inherited) ↔ States zone_twice inherited
normalize_delivery_intent_iff_example = normalize_delivery_intent_iff zone_twice inherited
