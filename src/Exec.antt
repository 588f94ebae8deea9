-- ===== src/Exec.antt =====
-- What may be raised, and the two ways in which the program runs database code.
-- A `Tx` is the body of one `with session.begin()` block: what it wrote is rolled back when it
-- raises, so an error carries no state. A `Run` (Exec/Run.antt) is a method that opens several such
-- blocks and calls AstraVector between them: what earlier blocks committed stays when a later one
-- raises.
pub mod Run
use astra_indexator.Prelude.{
  ◌≡◌, refl, ap, ◌⊎◌, inl, inr, Bool, true, false, Option, none, some, String,
}

-- The exception classes. Messages are kept only where the program reads them back.
pub data Error : Type 0 where
  -- built in
  value_error type_error runtime_error : Error
  -- application/coordinator.py and application/durable_append_delivery.py
  lease_lost rpc_window_too_short : Error
  -- persistence/delivery.py
  delivery_integrity delivery_sequence : Error
  -- astravector/batching.py and astravector/validation.py
  batch_planning block_validation : Error
  -- astravector/policy.py
  readiness_integrity : Error
  -- AstraVectorTransportError(code, message)
  transport : String → String → Error
  -- application/finalize_reconciliation.py
  finalize_terminal finalize_identity_unavailable finalize_pending : Error
  -- application/abort_reconciliation.py
  abort_conflict abort_pending : Error
  -- application/vector_readiness.py and application/vector_activation.py
  readiness_pending readiness_terminal activation_pending : Error
  -- application/astravector_delivery_coordinator.py
  delivery_recovery_gap : Error
  -- any other exception class
  other_exception : String → Error

pub data Result {ℓ} (A : Type ℓ) : Type ℓ where
  ok : A → Result A
  err : Error → Result A

abbrev pub Tx {ℓ κ} : Type ℓ → Type κ → Type (ℓ ⊔ κ)
Tx S A = S → Result (A × S)

module _ {ℓ} {S : Type ℓ} where
  abbrev pub pure {κ} : {A : Type κ} → A → Tx S A
  pure a s = ok (a, s)

  abbrev pub raise {κ} : {A : Type κ} → Error → Tx S A
  raise e s = err e

  abbrev pub gets {κ} : {A : Type κ} → (S → A) → Tx S A
  gets f s = ok (f s, s)

  abbrev pub modify : (S → S) → Tx S (Unit {0})
  modify f s = ok (tt, f s)

  abbrev pub raise_if : Bool → Error → Tx S (Unit {0})
  raise_if true e s = err e
  raise_if false e s = ok (tt, s)

  abbrev pub or_raise {κ} : {A : Type κ} → Option A → Error → Tx S A
  or_raise none e s = err e
  or_raise (some a) e s = ok (a, s)

  infixl 5 ◌>>=◌ ◌>>◌
  abbrev pub ◌>>=◌ {κ μ} : {A : Type κ} {B : Type μ} → Tx S A → (A → Tx S B) → Tx S B
  ◌>>=◌ m f s = elim (m s) [ ok (a, s') ↦ f a s' | err e ↦ err e ]

  abbrev pub ◌>>◌ {κ} : {B : Type κ} → Tx S (Unit {0}) → Tx S B → Tx S B
  m >> n = m >>= λ _. n

-- Inversion of a successful step.
pub >>=-eq-ok {ℓ κ μ} :
    {S : Type ℓ} {A : Type κ} {B : Type μ} (m : Tx S A) (f : A → Tx S B) (s : S) {b : B} {t : S}
    → (m >>= f) s ≡ ok (b, t)
    → (a : A) × (s' : S) × (m s ≡ ok (a, s')) × (f a s' ≡ ok (b, t))
>>=-eq-ok {S} {A} {B} m f s {b} {t} h = go (m s) refl h
  where
    go :
        (r : Result (A × S))
        → m s ≡ r
        → (elim r [ ok (a, s') ↦ f a s' | err e ↦ err e ]) ≡ ok (b, t)
        → (a : A) × (s' : S) × (m s ≡ ok (a, s')) × (f a s' ≡ ok (b, t))
    go (ok (a, s')) e k = (a, s', e, k)
    go (err x) e k = cc

-- The result of a step whose first action is known.
pub >>=-ok {ℓ κ μ} :
    {S : Type ℓ} {A : Type κ} {B : Type μ} (m : Tx S A) (f : A → Tx S B) (s : S) {a : A} {s' : S}
    → m s ≡ ok (a, s')
    → (m >>= f) s ≡ f a s'
>>=-ok m f s e = ap (λ r. elim r [ ok (a, s') ↦ f a s' | err x ↦ err x ]) e

pub >>=-err {ℓ κ μ} :
    {S : Type ℓ} {A : Type κ} {B : Type μ} (m : Tx S A) (f : A → Tx S B) (s : S) {x : Error}
    → m s ≡ err x
    → (m >>= f) s ≡ err x
>>=-err m f s e = ap (λ r. elim r [ ok (a, s') ↦ f a s' | err x ↦ err x ]) e

pub raise_if-eq-ok {ℓ κ} :
    {S : Type ℓ} {B : Type κ} (b : Bool) (x : Error) (m : Tx S B) (s : S) {r : B × S}
    → (raise_if b x >> m) s ≡ ok r
    → (b ≡ false) × (m s ≡ ok r)
raise_if-eq-ok true x m s h = cc
raise_if-eq-ok false x m s h = (refl, h)

pub Result-cases {ℓ} :
    {A : Type ℓ} (r : Result A) → ((a : A) × (r ≡ ok a)) ⊎ ((e : Error) × (r ≡ err e))
Result-cases (ok a) = inl (a, refl)
Result-cases (err e) = inr (e, refl)
