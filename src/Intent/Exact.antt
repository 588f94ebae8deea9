-- ===== src/Intent/Exact.antt =====
-- Which payloads `normalize_delivery_intent` takes, and as what.
use astra_indexator.Prelude.{
  ℕ, ◌≡◌, ◌↔◌, refl, ap, subst, Bool, true, false, not, ◌||◌, Option, none, some, String,
}
use astra_indexator.Prelude.Int.{pos, negsuc}
use astra_indexator.Exec.{Result, ok, err}
use astra_indexator.Batching.{◌>>=◌}
use astra_indexator.Intent.{
  Value, null, str, boolean, integer, sequence, other, Payload, get, or_default, DeliveryIntent,
  is_null, normalize_selector, required, ttl_of, refuse_if, normalize_delivery_intent,
}
use astra_indexator.Intent.Selector.{Selects, normalize_selector_iff}

-- A payload that states an intent.
pub record States (payload : Payload) (intent : DeliveryIntent) : Type 0 where
  pub no_identifier : get payload "accessZoneId" ≡ null
  pub no_identifiers : get payload "accessZoneIds" ≡ null
  pub zone :
      Selects intent.access_zone_code (get payload "accessZoneCode") (get payload "accessZoneCodes")
  pub ttl : or_default (integer (pos 0)) (payload "ttlDays") ≡ integer (pos intent.ttl_days)

is_null-null : (v : Value) → is_null v ≡ true → v ≡ null
is_null-null null h = refl
is_null-null (str s) h = cc
is_null-null (boolean b) h = cc
is_null-null (integer n) h = cc
is_null-null (sequence es) h = cc
is_null-null other h = cc

ttl_of-ok : (v : Value) (n : ℕ) → ttl_of v ≡ ok n → v ≡ integer (pos n)
unfolding ttl_of
ttl_of-ok (integer (pos m)) n h = let same : m ≡ n = cc in ap (λ k. integer (pos k)) same
ttl_of-ok (integer (negsuc m)) n h = cc
ttl_of-ok null n h = cc
ttl_of-ok (str s) n h = cc
ttl_of-ok (boolean b) n h = cc
ttl_of-ok (sequence es) n h = cc
ttl_of-ok other n h = cc

stated :
    (payload : Payload) (intent : DeliveryIntent)
    → States payload intent
    → normalize_delivery_intent payload ≡ ok intent
unfolding normalize_delivery_intent ttl_of
stated payload intent s =
    rw (s.no_identifier, s.no_identifiers)
      (rw ((normalize_selector_iff intent.access_zone_code _ _).1 s.zone) (rw s.ttl refl))

read :
    (payload : Payload) (intent : DeliveryIntent)
    → normalize_delivery_intent payload ≡ ok intent
    → States payload intent
unfolding normalize_delivery_intent
read payload intent h =
    first (is_null (get payload "accessZoneId")) refl (is_null (get payload "accessZoneIds")) refl h
  where
    Rest : Result (Option String) → Result DeliveryIntent
    Rest r = r >>= λ selected. required selected >>= λ zone.
        ttl_of (or_default (integer (pos 0)) (payload "ttlDays")) >>= λ ttl.
        ok (record { access_zone_code = zone; ttl_days = ttl })

    last :
        get payload "accessZoneId" ≡ null
        → get payload "accessZoneIds" ≡ null
        → (r : Result (Option String))
        → normalize_selector (get payload "accessZoneCode") (get payload "accessZoneCodes") ≡ r
        → (n : Result ℕ) → ttl_of (or_default (integer (pos 0)) (payload "ttlDays")) ≡ n
        → (r >>= λ selected. required selected >>= λ zone.
            n >>= λ ttl. ok (record { access_zone_code = zone; ttl_days = ttl }))
          ≡ ok intent
        → States payload intent
    last a b (err x) k n l h = cc
    last a b (ok none) k n l h = cc
    last a b (ok (some z)) k (err x) l h = cc
    last a b (ok (some z)) k (ok m) l h =
        let made : DeliveryIntent = record { access_zone_code = z; ttl_days = m } in
        let same : made ≡ intent = cc in
        subst (States payload) same (record {
          no_identifier = a;
          no_identifiers = b;
          zone = (normalize_selector_iff z _ _).0 k;
          ttl = ttl_of-ok _ m l;
        })

    first :
        (x : Bool)
        → is_null (get payload "accessZoneId") ≡ x
        → (y : Bool) → is_null (get payload "accessZoneIds") ≡ y
        → (refuse_if (not x || not y) >>= λ _.
            Rest
              (normalize_selector (get payload "accessZoneCode") (get payload "accessZoneCodes")))
          ≡ ok intent
        → States payload intent
    first false a y b h = cc
    first true a false b h = cc
    first true a true b h = last (is_null-null _ a) (is_null-null _ b) _ refl _ refl h

-- A payload becomes an intent exactly where it states it: it has no access zone identifier, every
-- access zone code in it, be it singular or in the array, is the one of the intent, there is at least
-- one, it has four ASCII digits, and the time to live is the integer of the intent, which is not
-- negative, or absent where the intent has 0.
pub normalize_delivery_intent_iff :
    (payload : Payload) (intent : DeliveryIntent)
    → (normalize_delivery_intent payload ≡ ok intent) ↔ States payload intent
normalize_delivery_intent_iff payload intent = (read payload intent, stated payload intent)
