-- ===== src/Activation/Safe.antt =====
-- When a document version is activated, and what the end of an activation rests on.
use astra_indexator.Prelude.{
  ℕ, zero, suc, ◌+◌, ◌-◌, ◌≡◌, ◌≤◌, ◌<◌, refl, subst, Bool, true, false, not, List, [], ◌∷◌, Option,
  none, some, arith,
}
use astra_indexator.Text.{CaseTable}
use astra_indexator.Prelude.{find}
use astra_indexator.Exec.{lease_lost, Error, Result, ok, err}
use astra_indexator.Exec.Run.{Run, return, fail_if, and_then, ◌>>=◌, ◌>>◌}
use astra_indexator.Database.{Db, Job}
use astra_indexator.Claiming.{LeaseToken}
use astra_indexator.Coordinator.{fencing_predicate}
use astra_indexator.Append.{assert_owned}
use astra_indexator.Policy.{
  VectorStatus, require_searchable, allow_ready_to_activate, Disposition, searchable, wait,
  ready_to_activate, terminal,
}
use astra_indexator.Policy.Readiness.{IsSynchronised}
use astra_indexator.Wait
use astra_indexator.Wait.{Ready, query_vector, wait_until_ready, committed}
use astra_indexator.Wait.Bounds.{Waits, wait_until_ready_lem}
use astra_indexator.Activation.{
  World, ActivationResult, ActivationOutcome, is_transport, waits, own_lease, wait_for_active,
  call_activate, after_activate, activate_on, resume, activate_until_searchable,
}
use astra_indexator.Activation.Polling.{Searchable, Polls, budget, wait_for_active-Polls}

-- The fence leaves the database as it is.
kept :
    (token : LeaseToken) (db0 db : Db) (x : Unit {0})
    → assert_owned token db0 ≡ ok (x, db)
    → assert_owned token db ≡ ok (tt, db)
unfolding assert_owned
kept token db0 db x h = go (find (fencing_predicate token db0.now) db0.jobs) refl h
  where
    go :
        (r : Option Job)
        → find (fencing_predicate token db0.now) db0.jobs ≡ r
        → (elim r as (λ _. Result (Unit {0} × Db)) [
          | none ↦ err lease_lost
          | some _ ↦ ok (tt, db0)
        ])
          ≡ ok (x, db)
        → assert_owned token db ≡ ok (tt, db)
    go none e k = cc
    go (some j) e k =
        let same : db0 ≡ db = cc in
        subst (λ d. assert_owned token d ≡ ok (tt, d)) same (rw (e, assert_owned) refl)

budget-positive : (n : ℕ) (s : VectorStatus) → 0 < n → suc (budget n (some s)) ≤ n
budget-positive zero s positive = absurd (omega (arith, positive))
budget-positive (suc n) s positive = omega arith

module _ (t : CaseTable) (port : Wait.Port) (activate_rpc : World → Result ActivationResult)
    (token : LeaseToken) (session max_polls : ℕ) where
  -- The wait in front of the activation.
  abbrev pub first_wait : VectorStatus → Run Wait.World (Option Ready)
  first_wait initial =
      wait_until_ready t port allow_ready_to_activate token.job_id session max_polls (some initial)

  -- The status behind the wait was synchronised and ready to activate.
  abbrev pub WasReady : Result (Option Ready) → Type 0
  WasReady (err e) = ⊥
  WasReady (ok none) = ⊥
  WasReady (ok (some o)) = (o.decision.disposition ≡ ready_to_activate) × IsSynchronised o.status

  -- At most one activation, on a database in which the token owns its job.
  abbrev pub Activated : Result (Option Ready) → List Db → Type 0
  Activated waited [] = Unit
  Activated waited (db ∷ []) = (assert_owned token db ≡ ok (tt, db)) × WasReady waited
  Activated waited (_ ∷ _ ∷ _) = ⊥

  abbrev pub Ended : Result (Option ActivationOutcome) → Type 0
  Ended (err e) = Unit
  Ended (ok none) = ⊥
  Ended (ok (some o)) = Searchable o.readiness

  -- The end of a run that began behind a wait with the outcome `waited`.
  pub record Safe (waited : Result (Option Ready)) (bound : ℕ)
      (o : Result (Option ActivationOutcome) × World) : Type 0 where
    pub ended : Ended o.0
    pub activated : Activated waited o.1.activations
    pub few_queries : o.1.waiting.queried ≤ bound

  stopped :
      (waited : Result (Option Ready)) (bound : ℕ) (x : Error) (w : World)
      → Activated waited w.activations
      → w.waiting.queried ≤ bound
      → Safe waited bound (err x, w)
  stopped waited bound x w a few = record { ended = tt; activated = a; few_queries = few }

  -- The wait for an active document, behind the activation.
  polled-Safe :
      (waited : Result (Option Ready)) (bound few : ℕ) (a : Option ActivationResult) (w : World)
      (o : Result Ready × Wait.World)
      → Activated waited w.activations
      → few ≤ bound
      → Polls few o
      → Safe waited bound (
          and_then
            (o.0, record w { waiting = o.1 })
            (λ r. return (some (record { activation = a; readiness = r }))))
  polled-Safe waited bound few a w (err x, v) on fits p =
      stopped waited bound x (record w { waiting = v }) on (omega (arith, p, fits))
  polled-Safe waited bound few a w (ok r, v) on fits p = record {
    ended = p.1;
    activated = on;
    few_queries = omega (arith, p.0, fits);
  }

  wait_for_active-Safe :
      (waited : Result (Option Ready)) (bound : ℕ) (a : Option ActivationResult)
      (initial : Option VectorStatus) (w : World)
      → Activated waited w.activations
      → w.waiting.queried + budget max_polls initial ≤ bound
      → Safe waited bound (
          (waits (wait_for_active t port activate_rpc token session max_polls initial) >>= λ r.
          return (some (record { activation = a; readiness = r })))
            w)
  wait_for_active-Safe waited bound a initial w on fits =
      polled-Safe waited bound (w.waiting.queried + budget max_polls initial) a w
        (wait_for_active t port activate_rpc token session max_polls initial w.waiting) on fits
        (wait_for_active-Polls t port activate_rpc token session max_polls initial w.waiting)

  -- A run behind the lease fence.
  own_lease-Safe :
      (waited : Result (Option Ready)) (bound : ℕ) (m : Run World (Option ActivationOutcome))
      (w : World)
      → Activated waited w.activations
      → w.waiting.queried ≤ bound
      → ((db : Db)
          → assert_owned token db ≡ ok (tt, db)
          → Safe waited bound
              (m (record w { waiting = record w.waiting { db = db; turn = suc w.waiting.turn } })))
      → Safe waited bound ((waits (own_lease t port activate_rpc token session max_polls) >> m) w)
  unfolding own_lease
  own_lease-Safe waited bound m w on few next =
      go (assert_owned token (port.environment w.waiting)) refl
    where
      go :
          (r : Result (Unit {0} × Db))
          → assert_owned token (port.environment w.waiting) ≡ r
          → Safe waited bound (
              and_then
                (
                  (committed port.environment w.waiting r).0,
                  record w { waiting = (committed port.environment w.waiting r).1 },
                )
                (λ _. m))
      go (err x) e = stopped waited bound x _ on few
      go (ok (_, db)) e = next db (kept token (port.environment w.waiting) db _ e)

  after_activate-Safe :
      (waited : Result (Option Ready)) (bound : ℕ) (r : Result ActivationResult) (w : World)
      → Activated waited w.activations
      → w.waiting.queried + max_polls ≤ bound
      → 0 < max_polls
      → Safe waited bound (after_activate t port activate_rpc token session max_polls r w)
  unfolding after_activate query_vector
  after_activate-Safe waited bound (ok a) w on fits positive =
      own_lease-Safe waited bound _ w on (omega (arith, fits))
        (λ db own. wait_for_active-Safe waited bound (some a) none _ on fits)
  after_activate-Safe waited bound (err e) w on fits positive = go (not (is_transport e))
    where
      asked :
          (r : Result VectorStatus)
          → Safe waited bound (
              and_then
                (r, record w { waiting = record w.waiting { queried = suc w.waiting.queried } })
                (λ s.
                  waits (wait_for_active t port activate_rpc token session max_polls (some s))
                  >>= λ r. return (some (record { activation = none; readiness = r }))))
      asked (err x) = stopped waited bound x _ on (omega (arith, fits, positive))
      asked (ok s) =
          wait_for_active-Safe waited bound none (some s) _ on
            (omega (arith, fits, budget-positive max_polls s positive))

      go :
          (b : Bool)
          → Safe waited bound (
              (fail_if b e
                  >> (waits (query_vector t port require_searchable token.job_id session max_polls)
                      >>= λ s.
                          waits
                            (wait_for_active t port activate_rpc token session max_polls (some s))
                          >>= λ r. return (some (record { activation = none; readiness = r }))))
                w)
      go true = stopped waited bound e w on (omega (arith, fits))
      go false = asked (port.vector_rpc w.waiting)

  -- The activation itself: what is known of the wait licenses it.
  activated_Safe :
      (o : Ready) (bound : ℕ) (w : World)
      → (db : Db) → assert_owned token db ≡ ok (tt, db)
      → w.waiting.db ≡ db
      → w.activations ≡ []
      → WasReady (ok (some o))
      → w.waiting.queried + max_polls ≤ bound
      → 0 < max_polls
      → Safe (ok (some o)) bound (
          (call_activate t port activate_rpc token session max_polls
              >>= after_activate t port activate_rpc token session max_polls)
            w)
  unfolding call_activate
  activated_Safe o bound w db own here empty ready fits positive =
      after_activate-Safe (ok (some o)) bound (activate_rpc w)
        (record w { activations = w.waiting.db ∷ w.activations }) (rw empty (rw here (own, ready)))
        fits positive

  activate_on-Safe :
      (o : Ready) (d : Disposition) (bound : ℕ) (w : World)
      → o.decision.disposition ≡ d
      → IsSynchronised o.status
      → w.activations ≡ []
      → w.waiting.queried + max_polls ≤ bound
      → 0 < max_polls
      → Safe (ok (some o)) bound (activate_on t port activate_rpc token session max_polls o d w)
  unfolding activate_on
  activate_on-Safe o searchable bound w e synced empty fits positive = record {
    ended = (e, synced);
    activated = rw empty tt;
    few_queries = omega (arith, fits);
  }
  activate_on-Safe o ready_to_activate bound w e synced empty fits positive =
      own_lease-Safe (ok (some o)) bound _ w (rw empty tt) (omega (arith, fits))
        (λ db own. activated_Safe o bound _ db own refl empty (e, synced) fits positive)
  activate_on-Safe o wait bound w e synced empty fits positive =
      stopped (ok (some o)) bound _ w (rw empty tt) (omega (arith, fits))
  activate_on-Safe o terminal bound w e synced empty fits positive =
      stopped (ok (some o)) bound _ w (rw empty tt) (omega (arith, fits))

  -- Behind the first wait.
  resume-Safe :
      (o : Result (Option Ready) × Wait.World) (w : World)
      → Waits t port allow_ready_to_activate token.job_id session max_polls (max_polls - 1) o
      → w.activations ≡ []
      → 0 < max_polls
      → Safe o.0 (max_polls - 1 + max_polls) (
          and_then
            (o.0, record w { waiting = o.1 })
            (resume t port activate_rpc token session max_polls))
  resume-Safe (err x, v) w h empty positive = stopped (err x) _ x _ (rw empty tt) (omega (arith, h))
  resume-Safe (ok none, v) w h empty positive = absurd h
  resume-Safe (ok (some o), v) w (few, (e, r, synced)) empty positive =
      activate_on-Safe o o.decision.disposition _ (record w { waiting = v }) refl synced empty
        (omega (arith, few)) positive

  -- Whatever AstraVector answers and whatever other transactions do, an activation that starts with
  -- no activation and no query recorded, and with `max_polls` positive, activates the document version
  -- at most once, on a database in which the token owns its job, and only when the wait before found
  -- the document ready to activate and completely synchronised. It returns or raises before the fuel
  -- of the wait is used up, it queries the status at most `2 * max_polls - 1` times, and where it
  -- returns, the last status was evaluated as searchable and is completely synchronised.
  pub activate_until_searchable-Safe :
      (initial : VectorStatus) (w : World)
      → w.activations ≡ []
      → w.waiting.queried ≡ 0
      → 0 < max_polls
      → Safe
          (first_wait initial w.waiting).0
          (max_polls - 1 + max_polls)
          (activate_until_searchable t port activate_rpc token session max_polls initial w)
  unfolding activate_until_searchable
  activate_until_searchable-Safe initial w empty none_yet positive =
      resume-Safe (first_wait initial w.waiting) w
        (wait_until_ready_lem t port allow_ready_to_activate token.job_id session max_polls
          (some initial) w.waiting positive none_yet)
        empty positive
