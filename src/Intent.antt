-- ===== src/Intent.antt =====
-- src/astra_indexator/domain/delivery_intent.py with the intents of domain/contracts.py: a producer's
-- payload becomes one access zone and one time to live. A payload is the function from its keys.
pub mod Codes
pub mod Selector
pub mod Exact
use astra_indexator.Prelude.{
  ℕ, Bool, true, false, not, ◌||◌, List, [], ◌∷◌, Option, none, some, String, if◌then◌else◌, str_eq,
}
use astra_indexator.Prelude.Int.{ℤ, pos, negsuc}
use astra_indexator.Exec.{Error, Result, ok, err, value_error}
use astra_indexator.Batching.{◌>>=◌}
use astra_indexator.Inbox.{is_access_zone_code}

-- A value of a payload. An element of a sequence is `none` where it is not a str.
pub data Value : Type 0 where
  null : Value
  str : String → Value
  boolean : Bool → Value
  integer : ℤ → Value
  sequence : List (Option String) → Value
  other : Value

abbrev pub Payload : Type 0
Payload = String → Option Value

-- `payload.get(key, default)`
abbrev pub or_default : Value → Option Value → Value
or_default d none = d
or_default d (some v) = v

abbrev pub get : Payload → String → Value
get payload key = or_default null (payload key)

-- `DeliveryIntentValidationError`, a ValueError.
abbrev pub invalid_intent : Error
invalid_intent = value_error

pub record DeliveryIntent : Type 0 where
  pub access_zone_code : String
  pub ttl_days : ℕ

abbrev pub is_null : Value → Bool
is_null null = true
is_null (str s) = false
is_null (boolean b) = false
is_null (integer n) = false
is_null (sequence es) = false
is_null other = false

-- `_zone_code` on a str, or on anything else.
unfoldable pub zone_code : Option String → Result String
zone_code none = err invalid_intent
zone_code (some s) = if is_access_zone_code s then ok s else err invalid_intent

unfoldable pub singular_code : Value → Result (Option String)
singular_code null = ok none
singular_code (str s) = do c ← zone_code (some s); ok (some c)
singular_code (boolean b) = err invalid_intent
singular_code (integer n) = err invalid_intent
singular_code (sequence es) = err invalid_intent
singular_code other = err invalid_intent

-- `[parser(value) for value in plural]`
unfoldable pub zone_codes : List (Option String) → Result (List String)
zone_codes [] = ok []
zone_codes (e ∷ es) = do c ← zone_code e; cs ← zone_codes es; ok (c ∷ cs)

unfoldable pub plural_codes : Value → Result (List String)
unfolding zone_codes
plural_codes null = ok []
plural_codes (str s) = err invalid_intent
plural_codes (boolean b) = err invalid_intent
plural_codes (integer n) = err invalid_intent
plural_codes (sequence es) = zone_codes es
plural_codes other = err invalid_intent

unfoldable pub without : String → List String → List String
without c [] = []
without c (d ∷ ds) = let rest = without c ds in if str_eq d c then rest else d ∷ rest

-- `list(dict.fromkeys(values))`
unfoldable pub distinct_codes : List String → List String
unfolding without
distinct_codes [] = []
distinct_codes (c ∷ cs) = c ∷ without c (distinct_codes cs)

-- The end of `_normalize_selector`.
unfoldable pub select : Option String → List String → Result (Option String)
select single (c ∷ d ∷ ds) = err invalid_intent
select none [] = ok none
select none (c ∷ []) = ok (some c)
select (some s) [] = ok (some s)
select (some s) (c ∷ []) = if not (str_eq s c) then err invalid_intent else ok (some s)

unfoldable pub normalize_selector : Value → Value → Result (Option String)
normalize_selector singular plural = do
  single ← singular_code singular
  values ← plural_codes plural
  select single (distinct_codes values)

abbrev pub required : Option String → Result String
required none = err invalid_intent
required (some c) = ok c

-- The time to live: `isinstance(True, int)` holds, so a bool is refused by name.
unfoldable pub ttl_of : Value → Result ℕ
ttl_of (integer (pos n)) = ok n
ttl_of (integer (negsuc n)) = err invalid_intent
ttl_of null = err invalid_intent
ttl_of (str s) = err invalid_intent
ttl_of (boolean b) = err invalid_intent
ttl_of (sequence es) = err invalid_intent
ttl_of other = err invalid_intent

abbrev pub refuse_if : Bool → Result (Unit {0})
refuse_if true = err invalid_intent
refuse_if false = ok tt

unfoldable pub normalize_delivery_intent : Payload → Result DeliveryIntent
normalize_delivery_intent payload = do
  _ ←
      refuse_if
        (not (is_null (get payload "accessZoneId")) || not (is_null (get payload "accessZoneIds")))
  selected ← normalize_selector (get payload "accessZoneCode") (get payload "accessZoneCodes")
  zone ← required selected
  ttl ← ttl_of (or_default (integer (pos 0)) (payload "ttlDays"))
  ok (record { access_zone_code = zone; ttl_days = ttl })
