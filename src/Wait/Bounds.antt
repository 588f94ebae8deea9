-- ===== src/Wait/Bounds.antt =====
-- The readiness loop ends, polls at most as often as configured, and returns only on evidence.
use astra_indexator.Prelude.{
  ℕ, zero, suc, ◌+◌, ◌-◌, ◌≡◌, ◌≤◌, ◌<◌, refl, subst, Bool, true, false, Option, none, some, arith,
  leb,
}
use astra_indexator.Text.{CaseTable}
use astra_indexator.Exec.{Result, ok, err, readiness_pending}
use astra_indexator.Exec.Run.{Run, return, fail_if, and_then, ◌>>=◌, ◌>>◌}
use astra_indexator.Database.{Db}
use astra_indexator.Policy.{
  VectorStatus, ActivationReadinessPolicy, Disposition, wait, ready_to_activate, searchable,
  terminal, ReadinessDecision, evaluate_vector_readiness,
}
use astra_indexator.Policy.Readiness.{
  is_ready, IsSynchronised, evaluate_vector_readiness-IsSynchronised,
}
use astra_indexator.Checkpoints.{record_vector_status}
use astra_indexator.Wait.{
  Ready, Progress, done, again, World, Port, committed, query_vector, record_status, assert_session,
  decide, conclude, round, loop, first_status, wait_until_ready,
}

module _ (t : CaseTable) (port : Port) (policy : ActivationReadinessPolicy)
    (job_id session max_polls : ℕ) where
  -- An outcome on evidence: its status was evaluated as ready, and is completely synchronised.
  abbrev pub Evidence : Ready → Type 0
  Evidence o =
      (evaluate_vector_readiness t o.status policy ≡ ok o.decision)
      × (is_ready o.decision.disposition ≡ true)
      × IsSynchronised o.status

  -- The end of a round, which began with `q` queries.
  abbrev Ends : ℕ → ℕ → Result Progress × World → Type 0
  Ends polls q (err e, w) = w.queried ≤ q + (max_polls - polls)
  Ends polls q (ok (done o), w) = (w.queried ≡ q) × Evidence o
  Ends polls q (ok (again s), w) = (w.queried ≡ suc q) × (polls < max_polls)

  conclude-Ends :
      (s : VectorStatus) (polls : ℕ) (d : ReadinessDecision) (e : Disposition) (w : World)
      → d.disposition ≡ e
      → evaluate_vector_readiness t s policy ≡ ok d
      → Ends polls w.queried (conclude t port policy job_id session max_polls s polls d e w)
  unfolding conclude query_vector
  conclude-Ends s polls d searchable w e h =
      let ready : is_ready d.disposition ≡ true = rw e refl in
      (refl, (h, ready, evaluate_vector_readiness-IsSynchronised t s policy d h ready))
  conclude-Ends s polls d ready_to_activate w e h =
      let ready : is_ready d.disposition ≡ true = rw e refl in
      (refl, (h, ready, evaluate_vector_readiness-IsSynchronised t s policy d h ready))
  conclude-Ends s polls d terminal w e h = omega arith
  conclude-Ends s polls d wait w e h = go (leb max_polls polls) refl
    where
      asked :
          (r : Result VectorStatus)
          → polls < max_polls
          → Ends polls w.queried
              (and_then (r, record w { queried = suc w.queried }) (λ s'. return (again s')))
      asked (ok s') more = (refl, more)
      asked (err x) more = omega (arith, more)

      go :
          (x : Bool)
          → leb max_polls polls ≡ x
          → Ends polls w.queried (
              (fail_if x readiness_pending
                  >> (query_vector t port policy job_id session max_polls >>= λ s'.
                      return (again s')))
                w)
      go true k = omega arith
      go false k = asked (port.vector_rpc w) (ground (arith, k))

  round-Ends :
      (s : VectorStatus) (polls : ℕ) (w : World)
      → Ends polls w.queried (round t port policy job_id session max_polls s polls w)
  unfolding round record_status decide
  round-Ends s polls w = noted (record_vector_status (port.clock w) job_id s (port.environment w))
    where
      decided :
          (w' : World) (r : Result ReadinessDecision)
          → w'.queried ≡ w.queried
          → evaluate_vector_readiness t s policy ≡ r
          → Ends polls w.queried (
              and_then
                (r, w')
                (λ d. conclude t port policy job_id session max_polls s polls d d.disposition))
      decided w' (err x) same e = omega (arith, same)
      decided w' (ok d) same e =
          subst
            (λ q.
              Ends polls q
                (conclude t port policy job_id session max_polls s polls d d.disposition w'))
            same (conclude-Ends s polls d d.disposition w' refl e)

      noted :
          (r : Result (Unit {0} × Db))
          → Ends polls w.queried (
              and_then (committed port.environment w r) (λ _.
                decide t port policy job_id session max_polls s >>= λ d.
                conclude t port policy job_id session max_polls s polls d d.disposition))
      noted (err x) = omega arith
      noted (ok (_, db)) =
          decided (record w { db = db; turn = suc w.turn }) (evaluate_vector_readiness t s policy)
            refl refl

  -- The end of the loop, which began with `q` queries and `polls` polls.
  abbrev Finishes : ℕ → ℕ → Result (Option Ready) × World → Type 0
  Finishes polls q (err e, w) = w.queried ≤ q + (max_polls - suc polls)
  Finishes polls q (ok none, w) = ⊥
  Finishes polls q (ok (some o), w) = (w.queried ≤ q + (max_polls - suc polls)) × Evidence o

  abbrev goes_on : ℕ → ℕ → Progress → Run World (Option Ready)
  goes_on fuel polls (done o) = return (some o)
  goes_on fuel polls (again s) = loop t port policy job_id session max_polls fuel (suc polls) s

  later_Finishes :
      (polls q : ℕ) (o : Result (Option Ready) × World)
      → suc polls < max_polls
      → Finishes (suc polls) (suc q) o
      → Finishes polls q o
  later_Finishes polls q (err x, w) more few = omega (arith, more, few)
  later_Finishes polls q (ok none, w) more few = few
  later_Finishes polls q (ok (some o), w) more few = (omega (arith, more, few.0), few.1)

  goes_on-Finishes :
      (fuel polls q : ℕ) (o : Result Progress × World)
      → Ends (suc polls) q o
      → max_polls < suc fuel + polls
      → ((s : VectorStatus) (w : World)
          → max_polls < fuel + suc polls
          → suc polls ≤ max_polls
          → Finishes
              (suc polls)
              w.queried
              (loop t port policy job_id session max_polls fuel (suc polls) s w))
      → Finishes polls q (and_then o (goes_on fuel polls))
  goes_on-Finishes fuel polls q (err x, w) few enough recur = few
  goes_on-Finishes fuel polls q (ok (done o), w) (same, evidence) enough recur =
      (omega (arith, same), evidence)
  goes_on-Finishes fuel polls q (ok (again s), w) (same, more) enough recur =
      later_Finishes polls q _ more (
        subst
          (λ n.
            Finishes (suc polls) n
              (loop t port policy job_id session max_polls fuel (suc polls) s w))
          same (recur s w (omega (arith, enough)) (omega (arith, more))))

  loop-Finishes :
      (fuel polls : ℕ) (s : VectorStatus) (w : World)
      → max_polls < fuel + polls
      → polls ≤ max_polls
      → Finishes polls w.queried (loop t port policy job_id session max_polls fuel polls s w)
  unfolding loop
  loop-Finishes zero polls s w enough fits = absurd (omega (arith, enough, fits))
  loop-Finishes (suc fuel) polls s w enough fits =
      goes_on-Finishes fuel polls w.queried
        (round t port policy job_id session max_polls s (suc polls) w) (round-Ends s (suc polls) w)
        enough (loop-Finishes fuel (suc polls))

  -- The end of `wait_until_ready`, with at most `bound` queries.
  abbrev pub Waits : ℕ → Result (Option Ready) × World → Type 0
  Waits bound (err e, w) = w.queried ≤ bound
  Waits bound (ok none, w) = ⊥
  Waits bound (ok (some o), w) = (w.queried ≤ bound) × Evidence o

  abbrev pub first_queries : Option VectorStatus → ℕ
  first_queries none = max_polls
  first_queries (some s) = max_polls - 1

  started :
      (bound : ℕ) (s : VectorStatus) (w : World)
      → 0 < max_polls
      → w.queried + (max_polls - 1) ≤ bound
      → Waits bound (loop t port policy job_id session max_polls (suc max_polls) 0 s w)
  started bound s w positive few =
      weaken _ (loop-Finishes (suc max_polls) 0 s w (omega arith) (omega arith))
    where
      weaken : (o : Result (Option Ready) × World) → Finishes 0 w.queried o → Waits bound o
      weaken (err x, w') v = omega (arith, v, few)
      weaken (ok none, w') v = v
      weaken (ok (some o), w') v = (omega (arith, v.0, few), v.1)

  -- Whatever AstraVector answers and whatever other transactions do, `wait_until_ready` returns or
  -- raises before its fuel is used up, and queries the status at most `max_polls` times, or
  -- `max_polls - 1` times where the caller gives the first status; what it returns was evaluated as
  -- ready and is completely synchronised. The conditions are that `max_polls` is positive and that no
  -- query is recorded at the start.
  pub wait_until_ready_lem :
      (initial : Option VectorStatus) (w : World)
      → 0 < max_polls
      → w.queried ≡ 0
      → Waits
          (first_queries initial)
          (wait_until_ready t port policy job_id session max_polls initial w)
  unfolding wait_until_ready assert_session first_status query_vector
  wait_until_ready_lem initial w positive none_yet =
      go (assert_session t port policy job_id session max_polls w).0
    where
      after : World
      after = record w { db = port.environment w; turn = suc w.turn }

      asked :
          (r : Result VectorStatus)
          → Waits max_polls (
              and_then
                (r, record after { queried = suc after.queried })
                (λ s. loop t port policy job_id session max_polls (suc max_polls) 0 s))
      asked (ok s) =
          started max_polls s (record after { queried = suc after.queried }) positive
            (omega (arith, none_yet, positive))
      asked (err x) = omega (arith, none_yet, positive)

      begun :
          (initial : Option VectorStatus)
          → Waits (first_queries initial) (
              (first_status t port policy job_id session max_polls initial >>= λ s.
              loop t port policy job_id session max_polls (suc max_polls) 0 s)
                after)
      begun none = asked (port.vector_rpc after)
      begun (some s) = started (max_polls - 1) s after positive (omega (arith, none_yet))

      nothing : (initial : Option VectorStatus) → after.queried ≤ first_queries initial
      nothing none = omega (arith, none_yet)
      nothing (some s) = omega (arith, none_yet)

      go :
          (r : Result (Unit {0}))
          → Waits (first_queries initial) (
              and_then
                (r, after)
                (λ _. first_status t port policy job_id session max_polls initial >>= λ s.
                  loop t port policy job_id session max_polls (suc max_polls) 0 s))
      go (ok _) = begun initial
      go (err x) = nothing initial
