-- ===== src/Finalize/Evidence.antt =====
-- What an outcome of `finalize` rests on.
use astra_indexator.Prelude.{
  ℕ, zero, suc, ◌+◌, ◌≡◌, refl, subst, Bool, true, false, not, Option, none, some, List, ◌∷◌, arith,
  ◌==◌,
}
use astra_indexator.Text.{CaseTable, codes, ends_with}
use astra_indexator.Exec.{Result, ok, err, delivery_integrity, runtime_error, finalize_pending}
use astra_indexator.Exec.Run.{Run, return, fail_if, and_then, ◌>>=◌, ◌>>◌}
use astra_indexator.Database.{Db}
use astra_indexator.Policy.{
  SessionState, active, finalizing, completed, failed, aborted, expired, unknown, IngestionStatus,
  VectorStatus,
}
use astra_indexator.Prelude.{leb}
use astra_indexator.Finalize.{
  FinalizeOutcome, FinalizeResult, direct_ack, reconciled_completed, other_identity, is_ambiguous,
  World, Progress, done, again, other_zone, Call, called_finalize, saw_status, seen, committed,
  query_status, record_status, Request, Port, call_finalize, query_vector, observe_status,
  after_finalize, attempt_finalize, poll_finalizing, reconcile_completed, round_in, round, loop,
  finalize, assert_checkpoint_session,
}

-- The zone is the one of the request, where the request has one.
abbrev pub SameZone : Option ℕ → ℕ → Type 0
SameZone none zone = Unit
SameZone (some z) zone = zone ≡ z

module _ (port : Port) (request : Request) where
  -- AstraVector's answers.
  abbrev pub VectorAnswered : ℕ → VectorStatus → Type 0
  VectorAnswered zone v =
      (w : World) × (port.vector_rpc zone request.document_id request.document_version w ≡ ok v)

  -- A status of the session, which the last call queried.
  pub record Observed (s : IngestionStatus) (calls : List Call) : Type 0 where
    pub answered : (w : World) × (port.status_rpc w ≡ ok s) × (calls ≡ saw_status s.state ∷ w.calls)
    pub same_session : s.ingestion_session_id ≡ request.ingestion_session_id

  -- The answer of the last call, a Finalize, for the document of the request.
  pub record Acknowledged (result : FinalizeResult) (calls : List Call) : Type 0 where
    pub answered :
        (w : World) × (port.finalize_rpc w ≡ ok result) × (calls ≡ called_finalize ∷ w.calls)
    pub same_zone : SameZone request.access_zone_id result.access_zone_id
    pub same_document : result.document_id ≡ request.document_id
    pub same_version : result.document_version ≡ request.document_version
    pub not_failed : ends_with (codes "FAILED") (codes result.raw_operation_state) ≡ false

  -- What an outcome rests on.
  abbrev pub Sound : FinalizeOutcome → List Call → Type 0
  Sound (direct_ack result v) calls =
      Acknowledged result calls × VectorAnswered result.access_zone_id v
  Sound (reconciled_completed s v) calls =
      Observed s calls
      × (s.state ≡ completed)
      × ((zone : ℕ) × (request.access_zone_id ≡ some zone) × VectorAnswered zone v)

same_zone : (o : Option ℕ) (zone : ℕ) → other_zone o zone ≡ false → SameZone o zone
unfolding other_zone
same_zone none zone h = tt
same_zone (some z) zone h = ground (arith, h)

identity-Acknowledged :
    (port : Port) (request : Request) (result : FinalizeResult) (calls : List Call)
    → (w : World) × (port.finalize_rpc w ≡ ok result) × (calls ≡ called_finalize ∷ w.calls)
    → other_identity request result ≡ false
    → ends_with (codes "FAILED") (codes result.raw_operation_state) ≡ false
    → Acknowledged port request result calls
unfolding other_identity
identity-Acknowledged port request result calls sent h k = record {
  answered = sent;
  same_zone = same_zone request.access_zone_id result.access_zone_id (ground (arith, h));
  same_document = ground (arith, h);
  same_version = ground (arith, h);
  not_failed = k;
}

module _ (t : CaseTable) (port : Port) (request : Request) (max_attempts max_polls : ℕ) where
  abbrev Turn : Result Progress × World → Type 0
  Turn (ok (done o), w) = Sound port request o w.calls
  Turn (ok (again a p s), w) = Observed port request s w.calls
  Turn (err e, w) = Unit

  abbrev Query : Result IngestionStatus × World → Type 0
  Query (ok s, w) = Observed port request s w.calls
  Query (err e, w) = Unit

  observe_status-Query :
      (w : World) → Query (observe_status t port request max_attempts max_polls w)
  unfolding observe_status query_status record_status
  observe_status-Query w = go (port.status_rpc w) refl
    where
      recorded :
          (w1 : World) (s : IngestionStatus) (r : Result (Unit {0} × Db))
          → Observed port request s w1.calls
          → Query (and_then (committed port.environment w1 r) (λ _. return s))
      recorded w1 s (ok (_, db)) h = h
      recorded w1 s (err x) h = tt

      tested :
          (s : IngestionStatus) (b : Bool)
          → port.status_rpc w ≡ ok s
          → not (s.ingestion_session_id == request.ingestion_session_id) ≡ b
          → Query (
              and_then
                (fail_if b delivery_integrity (record w { calls = saw_status s.state ∷ w.calls }))
                (λ _. record_status t port request max_attempts max_polls s >> return s))
      tested s true e i = tt
      tested s false e i =
          recorded (record w { calls = saw_status s.state ∷ w.calls }) s _
            (record { answered = (w, e, refl); same_session = ground (arith, i) })

      go :
          (r : Result IngestionStatus)
          → port.status_rpc w ≡ r
          → Query (
              and_then
                (r, record w { calls = seen r ∷ w.calls })
                (λ s.
                  fail_if
                    (not (s.ingestion_session_id == request.ingestion_session_id))
                    delivery_integrity
                  >> (record_status t port request max_attempts max_polls s >> return s)))
      go (err x) e = tt
      go (ok s) e = tested s (not (s.ingestion_session_id == request.ingestion_session_id)) e refl

  observed-Turn :
      (a p : ℕ) (o : Result IngestionStatus × World)
      → Query o
      → Turn (and_then o (λ s. return (again a p s)))
  observed-Turn a p (ok s, w) h = h
  observed-Turn a p (err e, w) h = tt

  -- The status of the vectors is queried, and the calls stay.
  vector-Turn :
      (zone : ℕ) (f : VectorStatus → FinalizeOutcome) (w : World)
      → ((v : VectorStatus) → VectorAnswered port request zone v → Sound port request (f v) w.calls)
      → Turn (
          and_then
            (query_vector t port request max_attempts max_polls zone w)
            (λ v. return (done (f v))))
  unfolding query_vector
  vector-Turn zone f w sound =
      go (port.vector_rpc zone request.document_id request.document_version w) refl
    where
      go :
          (r : Result VectorStatus)
          → port.vector_rpc zone request.document_id request.document_version w ≡ r
          → Turn (and_then (r, w) (λ v. return (done (f v))))
      go (ok v) e = sound v (w, e)
      go (err x) e = tt

  after_finalize-Turn :
      (a p : ℕ) (r : Result FinalizeResult) (w0 w : World)
      → port.finalize_rpc w0 ≡ r
      → w.calls ≡ called_finalize ∷ w0.calls
      → Turn (after_finalize t port request max_attempts max_polls a p r w)
  unfolding after_finalize
  after_finalize-Turn a p (ok result) w0 w sent here =
      go (other_identity request result) refl
        (ends_with (codes "FAILED") (codes result.raw_operation_state)) refl
    where
      go :
          (x : Bool)
          → other_identity request result ≡ x
          → (y : Bool) → ends_with (codes "FAILED") (codes result.raw_operation_state) ≡ y
          → Turn (
              (fail_if x delivery_integrity
                  >> (fail_if y runtime_error
                      >> (query_vector t port request max_attempts max_polls result.access_zone_id
                          >>= λ v. return (done (direct_ack result v)))))
                w)
      go true i y k = tt
      go false i true k = tt
      go false i false k =
          vector-Turn result.access_zone_id (direct_ack result) w
            (λ v e. (identity-Acknowledged port request result w.calls (w0, sent, here) i k, e))
  after_finalize-Turn a p (err e) w0 w sent here = go (not (is_ambiguous t e))
    where
      go :
          (x : Bool)
          → Turn (
              (fail_if x e
                  >> (observe_status t port request max_attempts max_polls >>= λ s.
                      return (again a (suc p) s)))
                w)
      go true = tt
      go false = observed-Turn a (suc p) _ (observe_status-Query w)

  attempt_finalize-Turn :
      (a p : ℕ) (w : World) → Turn (attempt_finalize t port request max_attempts max_polls a p w)
  unfolding attempt_finalize call_finalize
  attempt_finalize-Turn a p w = go (leb max_attempts a)
    where
      go :
          (x : Bool)
          → Turn (
              (fail_if x finalize_pending
                  >> (call_finalize t port request max_attempts max_polls >>= λ r.
                      after_finalize t port request max_attempts max_polls (suc a) p r))
                w)
      go true = tt
      go false = after_finalize-Turn (suc a) p (port.finalize_rpc w) w _ refl refl

  poll_finalizing-Turn :
      (a p : ℕ) (w : World) → Turn (poll_finalizing t port request max_attempts max_polls a p w)
  unfolding poll_finalizing
  poll_finalizing-Turn a p w = go (leb max_polls p)
    where
      go :
          (x : Bool)
          → Turn (
              (fail_if x finalize_pending
                  >> (observe_status t port request max_attempts max_polls >>= λ s.
                      return (again a (suc p) s)))
                w)
      go true = tt
      go false = observed-Turn a (suc p) _ (observe_status-Query w)

  reconcile_completed-Turn :
      (s : IngestionStatus) (zone : Option ℕ) (w : World)
      → request.access_zone_id ≡ zone
      → Observed port request s w.calls
      → s.state ≡ completed
      → Turn (reconcile_completed t port request max_attempts max_polls s zone w)
  unfolding reconcile_completed
  reconcile_completed-Turn s none w z here e = tt
  reconcile_completed-Turn s (some zone) w z here e =
      vector-Turn zone (reconciled_completed s) w (λ v k. (here, e, (zone, z, k)))

  round_in-Turn :
      (a p : ℕ) (s : IngestionStatus) (state : SessionState) (w : World)
      → Observed port request s w.calls
      → s.state ≡ state
      → Turn (round_in t port request max_attempts max_polls a p s state w)
  unfolding round_in
  round_in-Turn a p s active w here e = attempt_finalize-Turn a p w
  round_in-Turn a p s finalizing w here e = poll_finalizing-Turn a p w
  round_in-Turn a p s completed w here e =
      reconcile_completed-Turn s request.access_zone_id w refl here e
  round_in-Turn a p s failed w here e = tt
  round_in-Turn a p s aborted w here e = tt
  round_in-Turn a p s expired w here e = tt
  round_in-Turn a p s unknown w here e = tt

  abbrev LastSeen : Option IngestionStatus → World → Type 0
  LastSeen none w = Unit
  LastSeen (some s) w = Observed port request s w.calls

  round-Turn :
      (a p : ℕ) (last : Option IngestionStatus) (w : World)
      → LastSeen last w
      → Turn (round t port request max_attempts max_polls a p last w)
  unfolding round
  round-Turn a p none w here = attempt_finalize-Turn a p w
  round-Turn a p (some s) w here = round_in-Turn a p s s.state w here refl

  abbrev End : Result (Option FinalizeOutcome) × World → Type 0
  End (ok (some o), w) = Sound port request o w.calls
  End (ok none, w) = Unit
  End (err e, w) = Unit

  abbrev goes_on : ℕ → Progress → Run World (Option FinalizeOutcome)
  goes_on fuel (done o) = return (some o)
  goes_on fuel (again a b s) = loop t port request max_attempts max_polls fuel a b (some s)

  goes_on-End :
      (fuel : ℕ) (o : Result Progress × World)
      → Turn o
      → ((a p : ℕ) (s : IngestionStatus) (w : World)
          → Observed port request s w.calls
          → End (loop t port request max_attempts max_polls fuel a p (some s) w))
      → End (and_then o (goes_on fuel))
  goes_on-End fuel (err e, w) turn recur = tt
  goes_on-End fuel (ok (done o), w) turn recur = turn
  goes_on-End fuel (ok (again a p s), w) turn recur = recur a p s w turn

  loop-End :
      (fuel a p : ℕ) (last : Option IngestionStatus) (w : World)
      → LastSeen last w
      → End (loop t port request max_attempts max_polls fuel a p last w)
  unfolding loop
  loop-End zero a p last w here = tt
  loop-End (suc fuel) a p last w here =
      goes_on-End fuel (round t port request max_attempts max_polls a p last w)
        (round-Turn a p last w here) (λ a p s w seen. loop-End fuel a p (some s) w seen)

  finalize-End : (w : World) → End (finalize t port request max_attempts max_polls w)
  unfolding finalize assert_checkpoint_session
  finalize-End w = go (assert_checkpoint_session t port request max_attempts max_polls w).0
    where
      go :
          (r : Result (Unit {0}))
          → End (
              and_then
                (r, record w { db = port.environment w; turn = suc w.turn })
                (λ _.
                  loop t port request max_attempts max_polls
                    (max_attempts + max_polls + 1)
                    0
                    0
                    none))
      go (ok _) = loop-End (max_attempts + max_polls + 1) 0 0 none _ tt
      go (err e) = tt

  -- An outcome is reported directly only where the last call is a Finalize, and AstraVector answered it
  -- with the document and the version of the request, with its zone where the request has one, and with
  -- an operation state that does not end in FAILED. It is reported as reconciled only where the last
  -- call is a query that showed COMPLETED, for a status of the request's session. In both cases the
  -- vector status is AstraVector's answer for the document, in the zone of the answer or of the
  -- request. This holds whatever AstraVector answers and other transactions do.
  pub finalize-Sound :
      (w w' : World) (o : FinalizeOutcome)
      → finalize t port request max_attempts max_polls w ≡ (ok (some o), w')
      → Sound port request o w'.calls
  finalize-Sound w w' o h = subst End h (finalize-End w)
