-- ===== src/Abort/Bounds.antt =====
-- The loop of `abort` ends, its calls are bounded and never blind, and its outcome rests on the last.
use astra_indexator.Prelude.{
  ℕ, zero, suc, ◌+◌, ◌≡◌, ◌≤◌, ◌<◌, refl, Bool, true, false, [], List, Option, none, some, arith,
  String,
}
use astra_indexator.Text.{codes, strip, is_empty}
use astra_indexator.Exec.{Result, ok, err, value_error}
use astra_indexator.Exec.Run.{Run, return, and_then, fail_if, ◌>>◌}
use astra_indexator.Policy.{IngestionStatus}
use astra_indexator.Abort.{
  AbortCommand, AbortOutcome, World, Progress, done, again, Port, round, loop, abort, Call,
  assert_checkpoint_session,
}
use astra_indexator.Abort.Calls.{aborts, queries, never_blind, Last, Sound}
use astra_indexator.Abort.Counts.{Counted-Bounded, Counted, Bounded, rank, Ends}
use astra_indexator.Abort.Rounds.{round-Ends}

-- The result of an Abort: fuel was left, and an outcome rests on the calls.
abbrev pub Answers : ℕ → Result (Option AbortOutcome) → List Call → Type 0
Answers session_id (err e) calls = Unit
Answers session_id (ok none) calls = ⊥
Answers session_id (ok (some o)) calls = Sound session_id o calls

module _ (port : Port) (job_id session_id max_attempts max_polls : ℕ) where
  abbrev Finishes : Result (Option AbortOutcome) × World → Type 0
  Finishes (r, w) =
      Answers session_id r w.calls × Bounded port job_id session_id max_attempts max_polls w.calls

  abbrev goes_on : AbortCommand → ℕ → Progress → Run World (Option AbortOutcome)
  goes_on command fuel (done o) = return (some o)
  goes_on command fuel (again a b s) =
      loop port job_id session_id max_attempts max_polls command fuel a b (some s)

  abbrev Round : AbortCommand → ℕ → ℕ → ℕ → Option IngestionStatus → World → Type 0
  Round command fuel a p last w =
      Counted port job_id session_id max_attempts max_polls a p w.calls
      → Last session_id last w.calls
      → rank port job_id session_id max_attempts max_polls a p < fuel
      → Finishes (loop port job_id session_id max_attempts max_polls command fuel a p last w)

  goes_on-Finishes :
      (command : AbortCommand) (fuel r : ℕ) (o : Result Progress × World)
      → Ends port job_id session_id max_attempts max_polls r o
      → r < suc fuel
      → ((b q : ℕ) (s : IngestionStatus) (w : World) → Round command fuel b q (some s) w)
      → Finishes (and_then o (goes_on command fuel))
  goes_on-Finishes command fuel r (err x, w) few enough recur = (tt, few)
  goes_on-Finishes command fuel r (ok (done o), w) (few, sound) enough recur = (sound, few)
  goes_on-Finishes command fuel r (ok (again b q s), w) (counted, here, less) enough recur =
      recur b q s w counted here (omega (arith, less, enough))

  loop-Finishes :
      (command : AbortCommand) (fuel a p : ℕ) (last : Option IngestionStatus) (w : World)
      → Round command fuel a p last w
  unfolding loop
  loop-Finishes command zero a p last w v l enough = absurd (omega (arith, enough))
  loop-Finishes command (suc fuel) a p last w v l enough =
      goes_on-Finishes command fuel (rank port job_id session_id max_attempts max_polls a p)
        (round port job_id session_id max_attempts max_polls command a p last w)
        (round-Ends port job_id session_id max_attempts max_polls command a p last w v l) enough
        (λ b q s w. loop-Finishes command fuel b q (some s) w)

  abort-Finishes :
      (reason : String) (w : World)
      → w.calls ≡ []
      → Finishes (abort port job_id session_id max_attempts max_polls reason w)
  unfolding abort assert_checkpoint_session
  abort-Finishes reason w empty = tested (is_empty (strip (codes reason)))
    where
      command : AbortCommand
      command = record { ingestion_session_id = session_id; reason = strip (codes reason) }

      start : Counted port job_id session_id max_attempts max_polls 0 0 w.calls
      start = rw empty (record {
        not_blind = refl;
        all_aborts = refl;
        all_queries = refl;
        few_attempts = omega arith;
        few_polls = omega arith;
      })

      stopped : Bounded port job_id session_id max_attempts max_polls w.calls
      stopped = Counted-Bounded port job_id session_id max_attempts max_polls 0 0 w.calls start

      go :
          (r : Result (Unit {0}))
          → Finishes (
              and_then
                (r, record w { db = port.environment w; turn = suc w.turn })
                (λ _.
                  loop port job_id session_id max_attempts max_polls command
                    (max_attempts + max_polls + 1)
                    0
                    0
                    none))
      go (ok _) =
          loop-Finishes command (max_attempts + max_polls + 1) 0 0 none _ start (rw empty refl)
            (omega arith)
      go (err x) = (tt, stopped)

      tested :
          (b : Bool)
          → Finishes (
              (fail_if b value_error
                  >> (assert_checkpoint_session port job_id session_id max_attempts max_polls
                      >> loop port job_id session_id max_attempts max_polls command
                          (max_attempts + max_polls + 1)
                          0
                          0
                          none))
                w)
      tested true = (tt, stopped)
      tested false =
          go (assert_checkpoint_session port job_id session_id max_attempts max_polls w).0

  -- Whatever AstraVector answers and whatever other transactions do, `abort` returns or raises before
  -- its fuel is used up; it calls Abort at most `max_attempts` times and queries the status at most
  -- `max_attempts + max_polls` times; it repeats an Abort only when the last call was a query that
  -- showed the session ACTIVE; and an outcome has the status that the last call showed for this
  -- session: DIRECT_ACK on an Abort answered with ABORTED, RECONCILED_ABORTED on a query that showed
  -- ABORTED, and ALREADY_TERMINAL on FAILED or EXPIRED. The condition is that no call is recorded at
  -- the start.
  pub abort_lem :
      (reason : String) (w : World)
      → w.calls ≡ []
      → Answers session_id
          (abort port job_id session_id max_attempts max_polls reason w).0
          (abort port job_id session_id max_attempts max_polls reason w).1.calls
        × (never_blind (abort port job_id session_id max_attempts max_polls reason w).1.calls
            ≡ true)
        × (aborts (abort port job_id session_id max_attempts max_polls reason w).1.calls
            ≤ max_attempts)
        × (queries (abort port job_id session_id max_attempts max_polls reason w).1.calls
            ≤ max_attempts + max_polls)
  abort_lem reason w empty =
      let (finished, few) = abort-Finishes reason w empty in
      (finished, few.safe, few.few_aborts, few.few_queries)
