-- ===== src/Abort/Counts.antt =====
-- The counters of the loop of `abort`, and what a query of the status does to them.
use astra_indexator.Prelude.{
  ℕ, suc, ◌+◌, ◌-◌, ◌≡◌, ◌≤◌, ◌<◌, refl, sym, ap, subst, Bool, true, false, not, List, ◌∷◌, some,
  arith, ◌==◌,
}
use astra_indexator.Exec.{Result, ok, err, delivery_integrity}
use astra_indexator.Exec.Run.{return, fail_if, and_then, ◌>>◌}
use astra_indexator.Database.{Db}
use astra_indexator.Policy.{IngestionStatus}
use astra_indexator.Abort.Calls.{aborts, queries, never_blind, Last, Shows, Sound}
use astra_indexator.Abort.{
  Call, queried, World, Progress, done, again, Port, committed, query_status, record_status,
  observe_status,
}

module _ (port : Port) (job_id session_id max_attempts max_polls : ℕ) where
  -- What the loop knows of the calls so far, with its counters.
  pub record Counted (attempts polls : ℕ) (calls : List Call) : Type 0 where
    pub not_blind : never_blind calls ≡ true
    pub all_aborts : aborts calls ≡ attempts
    pub all_queries : queries calls ≡ polls
    pub few_attempts : attempts ≤ max_attempts
    pub few_polls : polls ≤ attempts + max_polls

  -- The calls at the end.
  pub record Bounded (calls : List Call) : Type 0 where
    pub safe : never_blind calls ≡ true
    pub few_aborts : aborts calls ≤ max_attempts
    pub few_queries : queries calls ≤ max_attempts + max_polls

  abbrev pub rank : ℕ → ℕ → ℕ
  rank attempts polls = (max_attempts - attempts) + (max_polls - polls)

  pub Counted-Bounded : (a p : ℕ) (calls : List Call) → Counted a p calls → Bounded calls
  Counted-Bounded a p calls v = record {
    safe = v.not_blind;
    few_aborts = omega (arith, v.all_aborts, v.few_attempts);
    few_queries = omega (arith, v.all_queries, v.few_polls, v.few_attempts);
  }

  -- The end of a round that began at rank `r`.
  abbrev pub Ends : ℕ → Result Progress × World → Type 0
  Ends r (err e, w) = Bounded w.calls
  Ends r (ok (done o), w) = Bounded w.calls × Sound session_id o w.calls
  Ends r (ok (again a p s), w) =
      Counted a p w.calls × Last session_id (some s) w.calls × (rank a p < r)

  -- A query of the status, recorded.
  abbrev pub Observed : World → Result IngestionStatus × World → Type 0
  Observed w (ok s, w') =
      (w'.calls ≡ queried (ok s) ∷ w.calls) × (s.ingestion_session_id ≡ session_id)
  Observed w (err e, w') = (r : Result IngestionStatus) × (w'.calls ≡ queried r ∷ w.calls)

  pub same_session :
      (s : IngestionStatus)
      → not (s.ingestion_session_id == session_id) ≡ false
      → s.ingestion_session_id ≡ session_id
  same_session s h = ground (arith, h)

  pub observe_status-Observed :
      (w : World) → Observed w (observe_status port job_id session_id max_attempts max_polls w)
  unfolding observe_status query_status record_status
  observe_status-Observed w = go (port.status_rpc w)
    where
      recorded :
          (w1 : World) (s : IngestionStatus) (r : Result (Unit {0} × Db))
          → w1.calls ≡ queried (ok s) ∷ w.calls
          → s.ingestion_session_id ≡ session_id
          → Observed w (and_then (committed port.environment w1 r) (λ _. return s))
      recorded w1 s (ok (_, db)) e i = (e, i)
      recorded w1 s (err x) e i = (ok s, e)

      tested :
          (s : IngestionStatus) (b : Bool)
          → not (s.ingestion_session_id == session_id) ≡ b
          → Observed w (
              and_then
                (fail_if b delivery_integrity (record w { calls = queried (ok s) ∷ w.calls }))
                (λ _. record_status port job_id session_id max_attempts max_polls s >> return s))
      tested s true i = (ok s, refl)
      tested s false i =
          recorded (record w { calls = queried (ok s) ∷ w.calls }) s _ refl (same_session s i)

      go :
          (r : Result IngestionStatus)
          → Observed w (
              and_then
                (r, record w { calls = queried r ∷ w.calls })
                (λ s.
                  fail_if (not (s.ingestion_session_id == session_id)) delivery_integrity
                  >> (record_status port job_id session_id max_attempts max_polls s >> return s)))
      go (err x) = (err x, refl)
      go (ok s) = tested s (not (s.ingestion_session_id == session_id)) refl

  -- One more query keeps the counters.
  Counted-queried :
      (a p : ℕ) (calls : List Call) (r : Result IngestionStatus)
      → Counted a p calls
      → suc p ≤ a + max_polls
      → Counted a (suc p) (queried r ∷ calls)
  Counted-queried a p calls r v few = record {
    not_blind = v.not_blind;
    all_aborts = v.all_aborts;
    all_queries = ap suc v.all_queries;
    few_attempts = v.few_attempts;
    few_polls = few;
  }

  pub Observed-Ends :
      (a p r0 : ℕ) (w : World) (o : Result IngestionStatus × World)
      → Counted a p w.calls
      → suc p ≤ a + max_polls
      → rank a (suc p) < r0
      → Observed w o
      → Ends r0 (and_then o (λ s. return (again a (suc p) s)))
  Observed-Ends a p r0 w (ok s, w') v few less (e, i) = (
    subst (Counted a (suc p)) (sym e) (Counted-queried a p w.calls (ok s) v few),
    subst (Shows session_id true s) (sym e)
        (record { answered = refl; by_query = refl; same_session = i }),
    less,
  )
  Observed-Ends a p r0 w (err x, w') v few less (r, e) =
      subst Bounded (sym e)
        (Counted-Bounded a (suc p) (queried r ∷ w.calls) (Counted-queried a p w.calls r v few))
