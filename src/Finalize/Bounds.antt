-- ===== src/Finalize/Bounds.antt =====
-- The loop of `finalize` ends, and its calls are bounded and never blind.
use astra_indexator.Prelude.{
  ℕ, zero, suc, ◌+◌, ◌≡◌, ◌≢◌, ◌≤◌, ◌<◌, refl, true, [], Option, none, some, arith,
}
use astra_indexator.Text.{CaseTable}
use astra_indexator.Exec.{Result, ok, err}
use astra_indexator.Exec.Run.{Run, return, and_then}
use astra_indexator.Policy.{IngestionStatus}
use astra_indexator.Finalize.{
  FinalizeOutcome, World, Progress, done, again, Request, Port, round, loop, finalize,
  assert_checkpoint_session,
}
use astra_indexator.Finalize.Calls.{finalizes, queries, never_blind, Last}
use astra_indexator.Finalize.Rounds.{Counted-Bounded, Counted, Bounded, rank, Ends, round-Ends}

module _ (t : CaseTable) (port : Port) (request : Request) (max_attempts max_polls : ℕ) where
  -- The end of the loop: with fuel left, and with few calls.
  abbrev Finishes : Result (Option FinalizeOutcome) × World → Type 0
  Finishes (r, w) = (r ≢ ok none) × Bounded t port request max_attempts max_polls w.calls

  abbrev goes_on : ℕ → Progress → Run World (Option FinalizeOutcome)
  goes_on fuel (done o) = return (some o)
  goes_on fuel (again a b s) = loop t port request max_attempts max_polls fuel a b (some s)

  abbrev Round : ℕ → ℕ → ℕ → Option IngestionStatus → World → Type 0
  Round fuel a p last w =
      Counted t port request max_attempts max_polls a p w.calls
      → Last last w.calls
      → rank t port request max_attempts max_polls a p < fuel
      → Finishes (loop t port request max_attempts max_polls fuel a p last w)

  goes_on-Finishes :
      (fuel r : ℕ) (o : Result Progress × World)
      → Ends t port request max_attempts max_polls r o
      → r < suc fuel
      → ((b q : ℕ) (s : IngestionStatus) (w : World) → Round fuel b q (some s) w)
      → Finishes (and_then o (goes_on fuel))
  goes_on-Finishes fuel r (err x, w) few enough recur = ((λ e. cc), few)
  goes_on-Finishes fuel r (ok (done o), w) few enough recur = ((λ e. cc), few)
  goes_on-Finishes fuel r (ok (again b q s), w) (counted, here, less) enough recur =
      recur b q s w counted here (omega (arith, less, enough))

  loop-Finishes : (fuel a p : ℕ) (last : Option IngestionStatus) (w : World) → Round fuel a p last w
  unfolding loop
  loop-Finishes zero a p last w v l enough = absurd (omega (arith, enough))
  loop-Finishes (suc fuel) a p last w v l enough =
      goes_on-Finishes fuel (rank t port request max_attempts max_polls a p)
        (round t port request max_attempts max_polls a p last w)
        (round-Ends t port request max_attempts max_polls a p last w v l) enough
        (λ b q s w. loop-Finishes fuel b q (some s) w)

  finalize-Finishes :
      (w : World) → w.calls ≡ [] → Finishes (finalize t port request max_attempts max_polls w)
  unfolding finalize assert_checkpoint_session
  finalize-Finishes w empty =
      go (assert_checkpoint_session t port request max_attempts max_polls w).0
    where
      after : World
      after = record w { db = port.environment w; turn = suc w.turn }

      start : Counted t port request max_attempts max_polls 0 0 after.calls
      start = rw empty (record {
        not_blind = refl;
        all_finalizes = refl;
        all_queries = refl;
        few_attempts = omega arith;
        few_polls = omega arith;
      })

      go :
          (r : Result (Unit {0}))
          → Finishes (
              and_then
                (r, after)
                (λ _.
                  loop t port request max_attempts max_polls
                    (max_attempts + max_polls + 1)
                    0
                    0
                    none))
      go (ok _) =
          loop-Finishes (max_attempts + max_polls + 1) 0 0 none after start (rw empty refl)
            (omega arith)
      go (err x) =
          ((λ e. cc), Counted-Bounded t port request max_attempts max_polls 0 0 after.calls start)

  -- Whatever AstraVector answers and whatever other transactions do, `finalize` returns or raises
  -- before its fuel is used up; it calls Finalize at most `max_attempts` times and queries the status
  -- at most `max_attempts + max_polls` times; and it repeats a Finalize only when the last call showed
  -- the session ACTIVE. The condition is that no call is recorded at the start.
  pub finalize_lem :
      (w : World)
      → w.calls ≡ []
      → ((finalize t port request max_attempts max_polls w).0 ≢ ok none)
        × (never_blind (finalize t port request max_attempts max_polls w).1.calls ≡ true)
        × (finalizes (finalize t port request max_attempts max_polls w).1.calls ≤ max_attempts)
        × (queries (finalize t port request max_attempts max_polls w).1.calls
            ≤ max_attempts + max_polls)
  finalize_lem w empty =
      let (finished, few) = finalize-Finishes w empty in
      (finished, few.safe, few.few_finalizes, few.few_queries)
