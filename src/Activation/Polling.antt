-- ===== src/Activation/Polling.antt =====
-- The loop of `_wait_for_active` polls as often as configured, and returns only on evidence.
use astra_indexator.Prelude.{
  ℕ, zero, suc, ◌+◌, ◌≡◌, ◌≤◌, refl, subst, Bool, true, false, Option, none, some, arith,
}
use astra_indexator.Text.{CaseTable}
use astra_indexator.Exec.{Result, ok, err}
use astra_indexator.Exec.Run.{Run, and_then, ◌>>=◌, ◌>>◌}
use astra_indexator.Database.{Db}
use astra_indexator.Claiming.{LeaseToken}
use astra_indexator.Append.{assert_owned}
use astra_indexator.Policy.{
  VectorStatus, require_searchable, Disposition, searchable, wait, ready_to_activate, terminal,
  ReadinessDecision, evaluate_vector_readiness,
}
use astra_indexator.Policy.Readiness.{IsSynchronised, evaluate_vector_readiness-IsSynchronised}
use astra_indexator.Checkpoints.{record_vector_status}
use astra_indexator.Wait
use astra_indexator.Wait.{Ready, query_vector, record_status, decide, first_status, committed}
use astra_indexator.Activation.{
  World, ActivationResult, is_searchable, own_lease, settle_active, active_loop, wait_for_active,
}

-- The status shows a document that is searchable and completely synchronised.
abbrev pub Searchable : Ready → Type 0
Searchable o = (o.decision.disposition ≡ searchable) × IsSynchronised o.status

-- The end of a run with at most `bound` queries.
abbrev pub Polls : ℕ → Result Ready × Wait.World → Type 0
Polls bound (err e, w) = w.queried ≤ bound
Polls bound (ok o, w) = (w.queried ≤ bound) × Searchable o

-- The queries of `left` rounds.
abbrev pub budget : ℕ → Option VectorStatus → ℕ
budget left none = left
budget zero (some s) = zero
budget (suc left) (some s) = left

pub is_searchable-eq : (d : Disposition) → is_searchable d ≡ true → d ≡ searchable
is_searchable-eq searchable h = refl
is_searchable-eq wait h = cc
is_searchable-eq ready_to_activate h = cc
is_searchable-eq terminal h = cc

module _ (t : CaseTable) (port : Wait.Port) (activate_rpc : World → Result ActivationResult)
    (token : LeaseToken) (session max_polls : ℕ) where
  settle_active-Polls :
      (bound : ℕ) (s : VectorStatus) (polls : ℕ) (d : ReadinessDecision)
      (rest : Run Wait.World Ready) (w : Wait.World)
      → evaluate_vector_readiness t s require_searchable ≡ ok d
      → w.queried ≤ bound
      → Polls bound (rest w)
      → Polls bound (
          settle_active t port activate_rpc token session max_polls s polls d rest
            (is_searchable d.disposition)
            w)
  settle_active-Polls bound s polls d rest w h few more = go (is_searchable d.disposition) refl
    where
      go :
          (x : Bool)
          → is_searchable d.disposition ≡ x
          → Polls bound
              (settle_active t port activate_rpc token session max_polls s polls d rest x w)
      go false e = more
      go true e =
          let here = is_searchable-eq d.disposition e in
          (
            few,
            (
              here,
              evaluate_vector_readiness-IsSynchronised t s require_searchable d h (rw here refl),
            ),
          )

  -- A round behind the fence, on a status that was seen.
  noted-Polls :
      (bound : ℕ) (s : VectorStatus) (polls : ℕ) (rest : Run Wait.World Ready) (w : Wait.World)
      → w.queried ≤ bound
      → ((w' : Wait.World) → w'.queried ≡ w.queried → Polls bound (rest w'))
      → Polls bound (
          (record_status t port require_searchable token.job_id session max_polls s
              >> (decide t port require_searchable token.job_id session max_polls s >>= λ d.
                  settle_active t port activate_rpc token session max_polls s polls d rest
                    (is_searchable d.disposition)))
            w)
  unfolding record_status decide
  noted-Polls bound s polls rest w few more =
      noted (record_vector_status (port.clock w) token.job_id s (port.environment w))
    where
      decided :
          (w' : Wait.World) (r : Result ReadinessDecision)
          → w'.queried ≡ w.queried
          → evaluate_vector_readiness t s require_searchable ≡ r
          → Polls bound (
              and_then
                (r, w')
                (λ d.
                  settle_active t port activate_rpc token session max_polls s polls d rest
                    (is_searchable d.disposition)))
      decided w' (err x) same e = omega (arith, few, same)
      decided w' (ok d) same e =
          settle_active-Polls bound s polls d rest w' e (omega (arith, few, same)) (more w' same)

      noted :
          (r : Result (Unit {0} × Db))
          → Polls bound (
              and_then (committed port.environment w r) (λ _.
                decide t port require_searchable token.job_id session max_polls s >>= λ d.
                settle_active t port activate_rpc token session max_polls s polls d rest
                  (is_searchable d.disposition)))
      noted (err x) = few
      noted (ok (_, db)) = decided (record w { db = db; turn = suc w.turn }) _ refl refl

  weaken :
      (few bound : ℕ) (o : Result Ready × Wait.World) → few ≤ bound → Polls few o → Polls bound o
  weaken few bound (err e, w) fits v = omega (arith, v, fits)
  weaken few bound (ok o, w) fits v = (omega (arith, v.0, fits), v.1)

  -- The later rounds, from a world with `q` queries.
  abbrev Later : ℕ → ℕ → ℕ → Type 0
  Later left polls q =
      (s : VectorStatus) (w : Wait.World)
      → w.queried ≡ q
      → Polls (q + left)
          (active_loop t port activate_rpc token session max_polls left (suc polls) none (some s) w)

  -- The rest of a round, behind the fence.
  abbrev fenced : ℕ → ℕ → Option VectorStatus → Run Wait.World Ready
  fenced left polls status =
      first_status t port require_searchable token.job_id session max_polls status >>= λ s.
      record_status t port require_searchable token.job_id session max_polls s
      >> (decide t port require_searchable token.job_id session max_polls s >>= λ d.
          settle_active t port activate_rpc token session max_polls s (suc polls) d
            (active_loop t port activate_rpc token session max_polls left (suc polls) none (some s))
            (is_searchable d.disposition))

  fenced-Polls :
      (left polls : ℕ) (status : Option VectorStatus) (w : Wait.World)
      → ((q : ℕ) → Later left polls q)
      → Polls (w.queried + budget (suc left) status) (fenced left polls status w)
  unfolding first_status query_vector
  fenced-Polls left polls (some s) w later =
      noted-Polls (w.queried + left) s (suc polls) _ w (omega arith)
        (λ w' same. later w.queried s w' same)
  fenced-Polls left polls none w later = asked (port.vector_rpc w)
    where
      after : Wait.World
      after = record w { queried = suc w.queried }

      asked :
          (r : Result VectorStatus)
          → Polls (w.queried + suc left) (
              and_then
                (r, after)
                (λ s.
                  record_status t port require_searchable token.job_id session max_polls s
                  >> (decide t port require_searchable token.job_id session max_polls s >>= λ d.
                      settle_active t port activate_rpc token session max_polls s
                        (suc polls)
                        d
                        (active_loop t port activate_rpc token session max_polls left
                          (suc polls)
                          none
                          (some s))
                        (is_searchable d.disposition))))
      asked (err x) = omega arith
      asked (ok s) =
          noted-Polls (w.queried + suc left) s (suc polls) _ after (omega arith) (λ w' same.
            weaken (suc w.queried + left) (w.queried + suc left) _ (omega arith)
              (later (suc w.queried) s w' same))

  round-Polls :
      (left polls : ℕ) (status : Option VectorStatus) (w : Wait.World) (r : Result (Unit {0} × Db))
      → ((q : ℕ) → Later left polls q)
      → Polls
          (w.queried + budget (suc left) status)
          (and_then (committed port.environment w r) (λ _. fenced left polls status))
  round-Polls left polls status w (err x) later = omega arith
  round-Polls left polls status w (ok (_, db)) later =
      fenced-Polls left polls status (record w { db = db; turn = suc w.turn }) later

  active_loop-Polls :
      (left polls : ℕ) (status last : Option VectorStatus) (w : Wait.World)
      → Polls
          (w.queried + budget left status)
          (active_loop t port activate_rpc token session max_polls left polls status last w)
  unfolding active_loop own_lease
  active_loop-Polls zero polls status none w = omega arith
  active_loop-Polls zero polls status (some last) w = omega arith
  active_loop-Polls (suc left) polls status last w =
      round-Polls left polls status w (assert_owned token (port.environment w)) (λ q s w' same.
        subst
          (λ n. Polls (n + left) (
            active_loop t port activate_rpc token session max_polls left (suc polls) none (some s)
              w'))
          same (active_loop-Polls left (suc polls) none (some s) w'))

  pub wait_for_active-Polls :
      (initial : Option VectorStatus) (w : Wait.World)
      → Polls
          (w.queried + budget max_polls initial)
          (wait_for_active t port activate_rpc token session max_polls initial w)
  unfolding wait_for_active
  wait_for_active-Polls initial w = active_loop-Polls max_polls 0 initial none w
