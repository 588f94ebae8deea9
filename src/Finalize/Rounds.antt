-- ===== src/Finalize/Rounds.antt =====
-- Every round of the loop of `finalize` keeps count of its calls.
use astra_indexator.Prelude.{
  ℕ, suc, ◌+◌, ◌-◌, ◌≡◌, ◌≤◌, ◌<◌, refl, sym, ap, subst, Bool, true, false, not, List, ◌∷◌, Option,
  none, some, arith, leb, ◌==◌,
}
use astra_indexator.Text.{CaseTable, codes, ends_with}
use astra_indexator.Exec.{Result, ok, err, delivery_integrity, runtime_error, finalize_pending}
use astra_indexator.Exec.Run.{return, fail_if, and_then, ◌>>=◌, ◌>>◌}
use astra_indexator.Database.{Db}
use astra_indexator.Policy.{
  SessionState, active, finalizing, completed, failed, aborted, expired, unknown, IngestionStatus,
  VectorStatus,
}
use astra_indexator.Finalize.Calls.{
  finalizes, queries, may_finalize, never_blind, Last, fresh_may_finalize,
}
use astra_indexator.Finalize.{
  FinalizeOutcome, FinalizeResult, direct_ack, reconciled_completed, other_identity, is_ambiguous,
  Call, called_finalize, saw_status, World, Progress, done, again, Request, Port, seen, committed,
  call_finalize, query_status, query_vector, record_status, observe_status, after_finalize,
  attempt_finalize, poll_finalizing, reconcile_completed, round_in, round,
}

module _ (t : CaseTable) (port : Port) (request : Request) (max_attempts max_polls : ℕ) where
  -- What the loop knows of the calls so far, with its counters.
  pub record Counted (attempts polls : ℕ) (calls : List Call) : Type 0 where
    pub not_blind : never_blind calls ≡ true
    pub all_finalizes : finalizes calls ≡ attempts
    pub all_queries : queries calls ≡ polls
    pub few_attempts : attempts ≤ max_attempts
    pub few_polls : polls ≤ attempts + max_polls

  -- The calls at the end.
  pub record Bounded (calls : List Call) : Type 0 where
    pub safe : never_blind calls ≡ true
    pub few_finalizes : finalizes calls ≤ max_attempts
    pub few_queries : queries calls ≤ max_attempts + max_polls

  abbrev pub rank : ℕ → ℕ → ℕ
  rank attempts polls = (max_attempts - attempts) + (max_polls - polls)

  pub Counted-Bounded : (a p : ℕ) (calls : List Call) → Counted a p calls → Bounded calls
  Counted-Bounded a p calls v = record {
    safe = v.not_blind;
    few_finalizes = omega (arith, v.all_finalizes, v.few_attempts);
    few_queries = omega (arith, v.all_queries, v.few_polls, v.few_attempts);
  }

  -- The end of a round that began at rank `r`.
  abbrev pub Ends : ℕ → Result Progress × World → Type 0
  Ends r (err e, w) = Bounded w.calls
  Ends r (ok (done o), w) = Bounded w.calls
  Ends r (ok (again a p s), w) = Counted a p w.calls × Last (some s) w.calls × (rank a p < r)

  -- A query of the status, recorded.
  abbrev Observed : World → Result IngestionStatus × World → Type 0
  Observed w (ok s, w') = w'.calls ≡ saw_status s.state ∷ w.calls
  Observed w (err e, w') = (r : Result IngestionStatus) × (w'.calls ≡ seen r ∷ w.calls)

  recorded :
      (w0 w : World) (s : IngestionStatus) (r : Result (Unit {0} × Db))
      → w.calls ≡ saw_status s.state ∷ w0.calls
      → Observed w0 (and_then (committed port.environment w r) (λ _. return s))
  recorded w0 w s (ok (_, db)) e = e
  recorded w0 w s (err x) e = (ok s, e)

  observe_status-Observed :
      (w : World) → Observed w (observe_status t port request max_attempts max_polls w)
  unfolding observe_status query_status record_status
  observe_status-Observed w = go (port.status_rpc w) refl
    where
      go :
          (r : Result IngestionStatus)
          → port.status_rpc w ≡ r
          → Observed w (
              and_then
                (r, record w { calls = seen r ∷ w.calls })
                (λ s.
                  fail_if
                    (not (s.ingestion_session_id == request.ingestion_session_id))
                    delivery_integrity
                  >> (record_status t port request max_attempts max_polls s >> return s)))
      go (err x) e = (err x, refl)
      go (ok s) e = tested (not (s.ingestion_session_id == request.ingestion_session_id))
        where
          tested :
              (b : Bool)
              → Observed w (
                  and_then
                    (fail_if b delivery_integrity
                      (record w { calls = saw_status s.state ∷ w.calls }))
                    (λ _. record_status t port request max_attempts max_polls s >> return s))
          tested true = (ok s, refl)
          tested false = recorded w (record w { calls = saw_status s.state ∷ w.calls }) s _ refl

  -- One more query keeps the counters.
  Counted-seen :
      (a p : ℕ) (calls : List Call) (r : Result IngestionStatus)
      → Counted a p calls
      → suc p ≤ a + max_polls
      → Counted a (suc p) (seen r ∷ calls)
  Counted-seen a p calls (ok s) v few = record {
    not_blind = v.not_blind;
    all_finalizes = v.all_finalizes;
    all_queries = ap suc v.all_queries;
    few_attempts = v.few_attempts;
    few_polls = few;
  }
  Counted-seen a p calls (err x) v few = record {
    not_blind = v.not_blind;
    all_finalizes = v.all_finalizes;
    all_queries = ap suc v.all_queries;
    few_attempts = v.few_attempts;
    few_polls = few;
  }

  Observed-Ends :
      (a p r0 : ℕ) (w : World) (o : Result IngestionStatus × World)
      → Counted a p w.calls
      → suc p ≤ a + max_polls
      → rank a (suc p) < r0
      → Observed w o
      → Ends r0 (and_then o (λ s. return (again a (suc p) s)))
  Observed-Ends a p r0 w (ok s, w') v few less e = (
    subst (Counted a (suc p)) (sym e) (Counted-seen a p w.calls (ok s) v few),
    (w.calls, e),
    less,
  )
  Observed-Ends a p r0 w (err x, w') v few less (r, e) =
      subst Bounded (sym e)
        (Counted-Bounded a (suc p) (seen r ∷ w.calls) (Counted-seen a p w.calls r v few))

  -- The status of the vectors is queried, and nothing else happens.
  Vector-Ends :
      (a p r0 zone : ℕ) (f : VectorStatus → FinalizeOutcome) (w : World)
      → Counted a p w.calls
      → Ends r0 (
          and_then
            (query_vector t port request max_attempts max_polls zone w)
            (λ v. return (done (f v))))
  unfolding query_vector
  Vector-Ends a p r0 zone f w v =
      go (port.vector_rpc zone request.document_id request.document_version w)
    where
      go : (r : Result VectorStatus) → Ends r0 (and_then (r, w) (λ v. return (done (f v))))
      go (ok x) = Counted-Bounded a p w.calls v
      go (err x) = Counted-Bounded a p w.calls v

  after_finalize-Ends :
      (a p r0 : ℕ) (r : Result FinalizeResult) (w : World)
      → Counted a p w.calls
      → suc p ≤ a + max_polls
      → rank a (suc p) < r0
      → Ends r0 (after_finalize t port request max_attempts max_polls a p r w)
  unfolding after_finalize
  after_finalize-Ends a p r0 (ok result) w v few less =
      go (other_identity request result)
        (ends_with (codes "FAILED") (codes result.raw_operation_state))
    where
      go :
          (x y : Bool)
          → Ends r0 (
              (fail_if x delivery_integrity
                  >> (fail_if y runtime_error
                      >> (query_vector t port request max_attempts max_polls result.access_zone_id
                          >>= λ v. return (done (direct_ack result v)))))
                w)
      go true y = Counted-Bounded a p w.calls v
      go false true = Counted-Bounded a p w.calls v
      go false false = Vector-Ends a p r0 result.access_zone_id (direct_ack result) w v
  after_finalize-Ends a p r0 (err e) w v few less = go (not (is_ambiguous t e))
    where
      go :
          (x : Bool)
          → Ends r0 (
              (fail_if x e
                  >> (observe_status t port request max_attempts max_polls >>= λ s.
                      return (again a (suc p) s)))
                w)
      go true = Counted-Bounded a p w.calls v
      go false = Observed-Ends a p r0 w _ v few less (observe_status-Observed w)

  -- One more Finalize, which is not blind.
  Counted-finalize :
      (a p : ℕ) (calls : List Call)
      → Counted a p calls
      → may_finalize calls ≡ true
      → a < max_attempts
      → Counted (suc a) p (called_finalize ∷ calls)
  Counted-finalize a p calls v may more = record {
    not_blind = ground (arith, may, v.not_blind);
    all_finalizes = ap suc v.all_finalizes;
    all_queries = v.all_queries;
    few_attempts = more;
    few_polls = omega (arith, v.few_polls);
  }

  attempt_finalize-Ends :
      (a p : ℕ) (w : World)
      → Counted a p w.calls
      → may_finalize w.calls ≡ true
      → Ends (rank a p) (attempt_finalize t port request max_attempts max_polls a p w)
  unfolding attempt_finalize call_finalize
  attempt_finalize-Ends a p w v may = go (leb max_attempts a) refl
    where
      go :
          (x : Bool)
          → leb max_attempts a ≡ x
          → Ends (rank a p) (
              (fail_if x finalize_pending
                  >> (call_finalize t port request max_attempts max_polls >>= λ r.
                      after_finalize t port request max_attempts max_polls (suc a) p r))
                w)
      go true e = Counted-Bounded a p w.calls v
      go false e =
          let more : a < max_attempts = ground (arith, e) in
          after_finalize-Ends (suc a) p (rank a p) (port.finalize_rpc w)
            (record w { calls = called_finalize ∷ w.calls })
            (Counted-finalize a p w.calls v may more) (omega (arith, v.few_polls))
            (omega (arith, more))

  poll_finalizing-Ends :
      (a p : ℕ) (w : World)
      → Counted a p w.calls
      → Ends (rank a p) (poll_finalizing t port request max_attempts max_polls a p w)
  unfolding poll_finalizing
  poll_finalizing-Ends a p w v = go (leb max_polls p) refl
    where
      go :
          (x : Bool)
          → leb max_polls p ≡ x
          → Ends (rank a p) (
              (fail_if x finalize_pending
                  >> (observe_status t port request max_attempts max_polls >>= λ s.
                      return (again a (suc p) s)))
                w)
      go true e = Counted-Bounded a p w.calls v
      go false e =
          let more : p < max_polls = ground (arith, e) in
          Observed-Ends a p (rank a p) w _ v (omega (arith, more)) (omega (arith, more))
            (observe_status-Observed w)

  pub round-Ends :
      (a p : ℕ) (last : Option IngestionStatus) (w : World)
      → Counted a p w.calls
      → Last last w.calls
      → Ends (rank a p) (round t port request max_attempts max_polls a p last w)
  unfolding round round_in reconcile_completed
  round-Ends a p none w v l = attempt_finalize-Ends a p w v (fresh_may_finalize w.calls l)
  round-Ends a p (some s) w v (rest, l) = go s.state l
    where
      go :
          (state : SessionState)
          → w.calls ≡ saw_status state ∷ rest
          → Ends (rank a p) (round_in t port request max_attempts max_polls a p s state w)
      go active e = attempt_finalize-Ends a p w v (rw e refl)
      go finalizing e = poll_finalizing-Ends a p w v
      go completed e = completed_ends request.access_zone_id
        where
          completed_ends :
              (zone : Option ℕ)
              → Ends (rank a p) (reconcile_completed t port request max_attempts max_polls s zone w)
          completed_ends none = Counted-Bounded a p w.calls v
          completed_ends (some zone) = Vector-Ends a p (rank a p) zone (reconciled_completed s) w v
      go failed e = Counted-Bounded a p w.calls v
      go aborted e = Counted-Bounded a p w.calls v
      go expired e = Counted-Bounded a p w.calls v
      go unknown e = Counted-Bounded a p w.calls v
