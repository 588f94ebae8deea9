-- ===== src/Abort/Calls.antt =====
-- The calls that an Abort makes, and what its outcome rests on.
use astra_indexator.Prelude.{
  ℕ, suc, ◌≡◌, Bool, true, false, ◌&&◌, ◌||◌, List, [], ◌∷◌, Option, none, some, ◌==◌,
}
use astra_indexator.Exec.{Result, ok, err}
use astra_indexator.Policy.{
  SessionState, active, finalizing, completed, failed, aborted, expired, unknown, IngestionStatus,
}
use astra_indexator.Abort.{
  Call, called_abort, queried, AbortOutcome, AbortResolution, direct_ack, reconciled_aborted,
  already_terminal,
}

abbrev pub aborts : List Call → ℕ
aborts [] = 0
aborts (called_abort _ ∷ cs) = suc (aborts cs)
aborts (queried _ ∷ cs) = aborts cs

abbrev pub queries : List Call → ℕ
queries [] = 0
queries (called_abort _ ∷ cs) = queries cs
queries (queried _ ∷ cs) = suc (queries cs)

abbrev pub shown_by : Result IngestionStatus → Option IngestionStatus
shown_by (ok s) = some s
shown_by (err e) = none

abbrev pub last_answer : List Call → Option IngestionStatus
last_answer [] = none
last_answer (called_abort r ∷ cs) = shown_by r
last_answer (queried r ∷ cs) = shown_by r

abbrev pub last_is_query : List Call → Bool
last_is_query [] = false
last_is_query (called_abort r ∷ cs) = false
last_is_query (queried r ∷ cs) = true

abbrev pub is_active : SessionState → Bool
is_active active = true
is_active finalizing = false
is_active completed = false
is_active failed = false
is_active aborted = false
is_active expired = false
is_active unknown = false

abbrev pub is_over : SessionState → Bool
is_over active = false
is_over finalizing = false
is_over completed = false
is_over failed = true
is_over aborted = false
is_over expired = true
is_over unknown = false

abbrev pub shows_active : Option IngestionStatus → Bool
shows_active none = false
shows_active (some s) = is_active s.state

-- An Abort may go out when none did before, or when a query just showed the session ACTIVE.
abbrev pub may_abort : List Call → Bool
may_abort cs = (aborts cs == 0) || (last_is_query cs && shows_active (last_answer cs))

abbrev pub never_blind : List Call → Bool
never_blind [] = true
never_blind (called_abort _ ∷ cs) = may_abort cs && never_blind cs
never_blind (queried _ ∷ cs) = never_blind cs

-- The last call, a query if `query`, showed status `s` of the session.
pub record Shows (session_id : ℕ) (query : Bool) (s : IngestionStatus) (calls : List Call)
    : Type 0 where
  pub answered : last_answer calls ≡ some s
  pub by_query : last_is_query calls ≡ query
  pub same_session : s.ingestion_session_id ≡ session_id

-- The state and the call behind a resolution.
abbrev pub Resolves : ℕ → AbortResolution → IngestionStatus → List Call → Type 0
Resolves session_id direct_ack s calls = (s.state ≡ aborted) × Shows session_id false s calls
Resolves session_id reconciled_aborted s calls = (s.state ≡ aborted) × Shows session_id true s calls
Resolves session_id already_terminal s calls =
    (is_over s.state ≡ true) × ((query : Bool) × Shows session_id query s calls)

abbrev pub Sound : ℕ → AbortOutcome → List Call → Type 0
Sound session_id o calls = Resolves session_id o.resolution o.status calls

abbrev pub Last : ℕ → Option IngestionStatus → List Call → Type 0
Last session_id none calls = aborts calls ≡ 0
Last session_id (some s) calls = Shows session_id true s calls
