-- ===== src/Exec/Run.antt =====
-- Methods that commit several transactions and call AstraVector between them.
use astra_indexator.Prelude.{Bool, true, false, Option, none, some}
use astra_indexator.Exec.{Error, Result, ok, err}

abbrev pub Run {ℓ κ} : Type ℓ → Type κ → Type (ℓ ⊔ κ)
Run W A = W → Result A × W

module _ {ℓ} {W : Type ℓ} where
  abbrev pub return {κ} : {A : Type κ} → A → Run W A
  return a w = (ok a, w)

  abbrev pub fail {κ} : {A : Type κ} → Error → Run W A
  fail e w = (err e, w)

  abbrev pub fail_if : Bool → Error → Run W (Unit {0})
  fail_if true e w = (err e, w)
  fail_if false e w = (ok tt, w)

  abbrev pub from_option {κ} : {A : Type κ} → Option A → Error → Run W A
  from_option none e w = (err e, w)
  from_option (some a) e w = (ok a, w)

  abbrev pub and_then {κ μ} :
      {A : Type κ} {B : Type μ} → Result A × W → (A → Run W B) → Result B × W
  and_then (ok a, w) f = f a w
  and_then (err e, w) f = (err e, w)

  infixl 5 ◌>>=◌ ◌>>◌
  abbrev pub ◌>>=◌ {κ μ} : {A : Type κ} {B : Type μ} → Run W A → (A → Run W B) → Run W B
  ◌>>=◌ m f w = and_then (m w) f

  abbrev pub ◌>>◌ {κ} : {B : Type κ} → Run W (Unit {0}) → Run W B → Run W B
  m >> n = m >>= λ _. n

-- A predicate on worlds that a run keeps, whatever it returns.
abbrev pub Keeps {ℓ κ μ} : {W : Type ℓ} {A : Type κ} → (W → Type μ) → Run W A → Type (ℓ ⊔ μ)
Keeps {W} P m = (w : W) → P w → P (m w).1

pub and_then-Keeps {ℓ κ ν μ} :
    {W : Type ℓ} {A : Type κ} {B : Type ν} (P : W → Type μ) (f : A → Run W B) (r : Result A × W)
    → ((a : A) → Keeps P (f a))
    → P r.1
    → P (and_then r f).1
and_then-Keeps P f (ok a, w) keep v = keep a w v
and_then-Keeps P f (err x, w) keep v = v

pub >>=-Keeps {ℓ κ ν μ} :
    {W : Type ℓ} {A : Type κ} {B : Type ν} (P : W → Type μ) (m : Run W A) (f : A → Run W B)
    → Keeps P m
    → ((a : A) → Keeps P (f a))
    → Keeps P (m >>= f)
>>=-Keeps P m f keep_m keep_f w v = and_then-Keeps P f (m w) keep_f (keep_m w v)

pub fail_if-Keeps {ℓ μ} :
    {W : Type ℓ} (P : W → Type μ) (b : Bool) (x : Error) → Keeps P (fail_if {W = W} b x)
fail_if-Keeps P true x w v = v
fail_if-Keeps P false x w v = v
