-- ===== src/Finalize/Calls.antt =====
-- Counts of the calls that a Finalize makes, and when one of them is blind.
use astra_indexator.Prelude.{
  ℕ, suc, ◌≡◌, refl, Bool, true, ◌&&◌, List, [], ◌∷◌, Option, none, some, arith, ◌==◌,
}
use astra_indexator.Policy.{
  active, finalizing, completed, failed, aborted, expired, unknown, IngestionStatus,
}
use astra_indexator.Finalize.{Call, called_finalize, saw_status, status_failed}

abbrev pub finalizes : List Call → ℕ
finalizes [] = 0
finalizes (called_finalize ∷ cs) = suc (finalizes cs)
finalizes (saw_status _ ∷ cs) = finalizes cs
finalizes (status_failed ∷ cs) = finalizes cs

abbrev pub queries : List Call → ℕ
queries [] = 0
queries (called_finalize ∷ cs) = queries cs
queries (saw_status _ ∷ cs) = suc (queries cs)
queries (status_failed ∷ cs) = suc (queries cs)

-- A Finalize may go out when none did before, or when the session was just seen ACTIVE.
abbrev pub may_finalize : List Call → Bool
may_finalize [] = true
may_finalize (saw_status active ∷ cs) = true
may_finalize (c ∷ cs) = finalizes (c ∷ cs) == 0

abbrev pub never_blind : List Call → Bool
never_blind [] = true
never_blind (called_finalize ∷ cs) = may_finalize cs && never_blind cs
never_blind (saw_status _ ∷ cs) = never_blind cs
never_blind (status_failed ∷ cs) = never_blind cs

abbrev pub Last : Option IngestionStatus → List Call → Type 0
Last none calls = finalizes calls ≡ 0
Last (some s) calls = (rest : List Call) × (calls ≡ saw_status s.state ∷ rest)

pub fresh_may_finalize : (calls : List Call) → finalizes calls ≡ 0 → may_finalize calls ≡ true
fresh_may_finalize [] h = refl
fresh_may_finalize (called_finalize ∷ cs) h = absurd (ground (arith, h))
fresh_may_finalize (saw_status active ∷ cs) h = refl
fresh_may_finalize (saw_status finalizing ∷ cs) h = ground (arith, h)
fresh_may_finalize (saw_status completed ∷ cs) h = ground (arith, h)
fresh_may_finalize (saw_status failed ∷ cs) h = ground (arith, h)
fresh_may_finalize (saw_status aborted ∷ cs) h = ground (arith, h)
fresh_may_finalize (saw_status expired ∷ cs) h = ground (arith, h)
fresh_may_finalize (saw_status unknown ∷ cs) h = ground (arith, h)
fresh_may_finalize (status_failed ∷ cs) h = ground (arith, h)
