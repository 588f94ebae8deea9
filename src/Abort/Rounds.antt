-- ===== src/Abort/Rounds.antt =====
-- Every round of the loop of `abort` keeps count of its calls, and ends it only on what they showed.
use astra_indexator.Prelude.{
  ℕ, suc, ◌+◌, ◌≡◌, ◌≤◌, ◌<◌, refl, ap, Bool, true, false, not, List, ◌∷◌, Option, none, some,
  arith, leb, ◌==◌,
}
use astra_indexator.Exec.{Result, ok, err, delivery_integrity, abort_pending}
use astra_indexator.Exec.Run.{return, fail_if, and_then, ◌>>=◌, ◌>>◌}
use astra_indexator.Database.{Db}
use astra_indexator.Policy.{
  SessionState, active, finalizing, completed, failed, aborted, expired, unknown, IngestionStatus,
}
use astra_indexator.Abort.Calls.{may_abort, Last, Shows, last_answer, shows_active}
use astra_indexator.Abort.{
  AbortCommand, Call, called_abort, World, again, Port, committed, is_ambiguous, call_abort,
  record_status, observe_status, after_abort, attempt_abort, poll_finalizing, resolve_observed,
  resolve_in, resolution_of, round_in, round,
}
use astra_indexator.Abort.Counts.{
  Counted, Bounded, rank, Counted-Bounded, Ends, same_session, observe_status-Observed,
  Observed-Ends,
}

module _ (port : Port) (job_id session_id max_attempts max_polls : ℕ) where
  -- An observed status ends the loop where its state says so.
  resolve_observed-Ends :
      (a p r0 : ℕ) (query : Bool) (s : IngestionStatus) (w : World)
      → Counted port job_id session_id max_attempts max_polls a p w.calls
      → Shows session_id query s w.calls
      → Ends port job_id session_id max_attempts max_polls r0 (resolve_observed (not query) s w)
  unfolding resolve_observed resolve_in resolution_of
  resolve_observed-Ends a p r0 query s w v shown = go s.state query refl shown
    where
      few : Bounded port job_id session_id max_attempts max_polls w.calls
      few = Counted-Bounded port job_id session_id max_attempts max_polls a p w.calls v

      go :
          (state : SessionState) (q : Bool)
          → s.state ≡ state
          → Shows session_id q s w.calls
          → Ends port job_id session_id max_attempts max_polls r0 (resolve_in (not q) s state w)
      go aborted true e h = (few, (e, h))
      go aborted false e h = (few, (e, h))
      go failed q e h = (few, (rw e refl, (q, h)))
      go expired q e h = (few, (rw e refl, (q, h)))
      go completed q e h = few
      go active q e h = few
      go finalizing q e h = few
      go unknown q e h = few

  -- The answer of an Abort is recorded and ends the loop.
  answered-Ends :
      (a p r0 : ℕ) (s : IngestionStatus) (w : World) (r : Result (Unit {0} × Db))
      → Counted port job_id session_id max_attempts max_polls a p w.calls
      → Shows session_id false s w.calls
      → Ends port job_id session_id max_attempts max_polls r0
          (and_then (committed port.environment w r) (λ _. resolve_observed true s))
  answered-Ends a p r0 s w (ok (_, db)) v h = resolve_observed-Ends a p r0 false s _ v h
  answered-Ends a p r0 s w (err x) v h =
      Counted-Bounded port job_id session_id max_attempts max_polls a p w.calls v

  after_abort-Ends :
      (a p r0 : ℕ) (r : Result IngestionStatus) (calls : List Call) (w : World)
      → w.calls ≡ called_abort r ∷ calls
      → Counted port job_id session_id max_attempts max_polls a p w.calls
      → suc p ≤ a + max_polls
      → rank port job_id session_id max_attempts max_polls a (suc p) < r0
      → Ends port job_id session_id max_attempts max_polls r0
          (after_abort port job_id session_id max_attempts max_polls a p r w)
  unfolding after_abort record_status
  after_abort-Ends a p r0 (ok s) calls w e v few less =
      go (not (s.ingestion_session_id == session_id)) refl
    where
      go :
          (b : Bool)
          → not (s.ingestion_session_id == session_id) ≡ b
          → Ends port job_id session_id max_attempts max_polls r0 (
              (fail_if b delivery_integrity
                  >> (record_status port job_id session_id max_attempts max_polls s
                      >> resolve_observed true s))
                w)
      go true i = Counted-Bounded port job_id session_id max_attempts max_polls a p w.calls v
      go false i = answered-Ends a p r0 s w _ v (record {
        answered = rw e refl;
        by_query = rw e refl;
        same_session = same_session port job_id session_id max_attempts max_polls s i;
      })
  after_abort-Ends a p r0 (err x) calls w e v few less = go (not (is_ambiguous x))
    where
      go :
          (b : Bool)
          → Ends port job_id session_id max_attempts max_polls r0 (
              (fail_if b x
                  >> (observe_status port job_id session_id max_attempts max_polls >>= λ s.
                      return (again a (suc p) s)))
                w)
      go true = Counted-Bounded port job_id session_id max_attempts max_polls a p w.calls v
      go false =
          Observed-Ends port job_id session_id max_attempts max_polls a p r0 w _ v few less
            (observe_status-Observed port job_id session_id max_attempts max_polls w)

  -- One more Abort, which is not blind.
  Counted-abort :
      (a p : ℕ) (calls : List Call) (r : Result IngestionStatus)
      → Counted port job_id session_id max_attempts max_polls a p calls
      → may_abort calls ≡ true
      → a < max_attempts
      → Counted port job_id session_id max_attempts max_polls (suc a) p (called_abort r ∷ calls)
  Counted-abort a p calls r v may more = record {
    not_blind = rw may v.not_blind;
    all_aborts = ap suc v.all_aborts;
    all_queries = v.all_queries;
    few_attempts = more;
    few_polls = omega (arith, v.few_polls);
  }

  attempt_abort-Ends :
      (command : AbortCommand) (a p : ℕ) (w : World)
      → Counted port job_id session_id max_attempts max_polls a p w.calls
      → may_abort w.calls ≡ true
      → Ends port job_id session_id max_attempts max_polls
          (rank port job_id session_id max_attempts max_polls a p)
          (attempt_abort port job_id session_id max_attempts max_polls command a p w)
  unfolding attempt_abort call_abort
  attempt_abort-Ends command a p w v may = go (leb max_attempts a) refl
    where
      go :
          (x : Bool)
          → leb max_attempts a ≡ x
          → Ends port job_id session_id max_attempts max_polls
              (rank port job_id session_id max_attempts max_polls a p)
              ((fail_if x abort_pending
                  >> (call_abort port job_id session_id max_attempts max_polls command >>= λ r.
                      after_abort port job_id session_id max_attempts max_polls (suc a) p r))
                w)
      go true e = Counted-Bounded port job_id session_id max_attempts max_polls a p w.calls v
      go false e =
          let more : a < max_attempts = ground (arith, e) in
          let r = port.abort_rpc command w in
          after_abort-Ends (suc a) p (rank port job_id session_id max_attempts max_polls a p) r
            w.calls (record w { calls = called_abort r ∷ w.calls }) refl
            (Counted-abort a p w.calls r v may more) (omega (arith, v.few_polls))
            (omega (arith, more))

  poll_finalizing-Ends :
      (a p : ℕ) (w : World)
      → Counted port job_id session_id max_attempts max_polls a p w.calls
      → Ends port job_id session_id max_attempts max_polls
          (rank port job_id session_id max_attempts max_polls a p)
          (poll_finalizing port job_id session_id max_attempts max_polls a p w)
  unfolding poll_finalizing
  poll_finalizing-Ends a p w v = go (leb max_polls p) refl
    where
      go :
          (x : Bool)
          → leb max_polls p ≡ x
          → Ends port job_id session_id max_attempts max_polls
              (rank port job_id session_id max_attempts max_polls a p)
              ((fail_if x abort_pending
                  >> (observe_status port job_id session_id max_attempts max_polls >>= λ s.
                      return (again a (suc p) s)))
                w)
      go true e = Counted-Bounded port job_id session_id max_attempts max_polls a p w.calls v
      go false e =
          let more : p < max_polls = ground (arith, e) in
          Observed-Ends port job_id session_id max_attempts max_polls a p
            (rank port job_id session_id max_attempts max_polls a p) w _ v (omega (arith, more))
            (omega (arith, more))
            (observe_status-Observed port job_id session_id max_attempts max_polls w)

  active-may_abort :
      (s : IngestionStatus) (calls : List Call)
      → Shows session_id true s calls
      → s.state ≡ active
      → may_abort calls ≡ true
  active-may_abort s calls h e =
      let on : shows_active (last_answer calls) ≡ true = rw h.answered (rw e refl) in
      ground (arith, h.by_query, on)

  pub round-Ends :
      (command : AbortCommand) (a p : ℕ) (last : Option IngestionStatus) (w : World)
      → Counted port job_id session_id max_attempts max_polls a p w.calls
      → Last session_id last w.calls
      → Ends port job_id session_id max_attempts max_polls
          (rank port job_id session_id max_attempts max_polls a p)
          (round port job_id session_id max_attempts max_polls command a p last w)
  unfolding round round_in
  round-Ends command a p none w v l = attempt_abort-Ends command a p w v (ground (arith, l))
  round-Ends command a p (some s) w v l = go s.state refl
    where
      over :
          Ends port job_id session_id max_attempts max_polls
            (rank port job_id session_id max_attempts max_polls a p)
            (resolve_observed false s w)
      over =
          resolve_observed-Ends a p (rank port job_id session_id max_attempts max_polls a p) true s
            w v l

      go :
          (state : SessionState)
          → s.state ≡ state
          → Ends port job_id session_id max_attempts max_polls
              (rank port job_id session_id max_attempts max_polls a p)
              (round_in port job_id session_id max_attempts max_polls command a p s state w)
      go active e = attempt_abort-Ends command a p w v (active-may_abort s w.calls l e)
      go finalizing e = poll_finalizing-Ends a p w v
      go completed e = over
      go failed e = over
      go aborted e = over
      go expired e = over
      go unknown e = over
