-- ===== src/Start/Once.antt =====
-- A delivery starts at most one session, and only where its checkpoint has none.
use astra_indexator.Prelude.{
  ℕ, suc, ◌≡◌, refl, subst, true, List, [], ◌∷◌, Option, none, some, String, find, ◌+◌,
}
use astra_indexator.Prelude.Int.{ℤ, pos_part}
use astra_indexator.Exec.{Result, Tx, ok, err, lease_lost}
use astra_indexator.Exec.Run.{return, and_then, ◌>>=◌}
use astra_indexator.Database.{Job, Db}
use astra_indexator.Claiming.{LeaseToken}
use astra_indexator.Coordinator.{fencing_predicate, advance_stage}
use astra_indexator.Checkpoints.{checkpoint_of, bind_session}
use astra_indexator.Append.{assert_owned, owned_then, assert_safe_rpc_window}
use astra_indexator.Append.Fenced.{owned_through, assert_safe_rpc_window-ok}
use astra_indexator.Start.{
  DeliveryInput, StartCommand, StartResult, Sent, World, IdempotencyKey, session_of, committed,
  start_command, start_idempotency_key, transaction, call_start, with_key, bind_started, start_with,
  start_session, session_or_start, ensure_session,
}

module _ (environment : World → Db) (clock : World → ℕ)
    (start_rpc : StartCommand → World → Result StartResult) (token : LeaseToken)
    (rpc_deadline safety_margin : ℤ) (job : Job) (payload : DeliveryInput)
    (source_sha256 : String) where
  -- A result that is the session of an answer.
  abbrev pub Answers : Result ℕ → Result StartResult → Type 0
  Answers (err e) answer = Unit
  Answers (ok s) answer =
      (started : StartResult) × (answer ≡ ok started) × (started.ingestion_session_id ≡ s)

  -- A Start of this job that was sent while the lease outlasts the call and the safety margin.
  pub record IsCovered (s : Sent) : Type 0 where
    pub covered : owned_through token (pos_part rpc_deadline + pos_part safety_margin) s.db ≡ true
    pub key : IdempotencyKey
    pub of_job : start_idempotency_key job.document_id job.document_version source_sha256 ≡ ok key
    pub same_command : s.command ≡ start_command job payload source_sha256 key

  abbrev pub Held : Option ℕ → Result ℕ → Type 0
  Held found (err e) = Unit
  Held found (ok s) = found ≡ some s

  -- What was sent, with the result, by the session that the checkpoint had at first.
  abbrev pub Ensures : Option ℕ → Result ℕ → List Sent → Type 0
  Ensures found r [] = Held found r
  Ensures found r (s ∷ []) = (found ≡ none) × IsCovered s × Answers r s.reply
  Ensures found r (_ ∷ _ ∷ _) = ⊥

  -- A transaction sends nothing.
  transaction-starts {κ} :
      {A : Type κ} (m : World → Tx Db A) (w : World)
      → (transaction environment clock start_rpc token rpc_deadline safety_margin m w).1.starts
        ≡ w.starts
  transaction-starts {A = A} m w = go (m w (environment w))
    where
      go : (r : Result (A × Db)) → (committed environment w r).1.starts ≡ w.starts
      go (ok (a, db)) = refl
      go (err e) = refl

  bound-Ensures :
      (started : StartResult) (s : Sent) (w : World)
      → w.starts ≡ s ∷ []
      → IsCovered s
      → s.reply ≡ ok started
      → Ensures none
          (bind_started environment clock start_rpc token rpc_deadline safety_margin job started
            w).0
          (bind_started environment clock start_rpc token rpc_deadline safety_margin job started
            w).1.starts
  unfolding bind_started
  bound-Ensures started s w sent covered answered = go (
      owned_then token
        (bind_session (clock w) job.id started.ingestion_session_id (some started.raw_status))
        (environment w))
    where
      go :
          (r : Result (Unit {0} × Db))
          → Ensures none
              (and_then (committed environment w r) (λ _. return started.ingestion_session_id)).0
              (and_then
                (committed environment w r)
                (λ _. return started.ingestion_session_id)).1.starts
      go (ok (_, db)) = rw sent (refl, covered, (started, answered, refl))
      go (err e) = rw sent (refl, covered, tt)

  start_with-Ensures :
      (key : IdempotencyKey) (w : World)
      → start_idempotency_key job.document_id job.document_version source_sha256 ≡ ok key
      → w.starts ≡ []
      → Ensures none
          (start_with environment clock start_rpc token rpc_deadline safety_margin job
            (start_command job payload source_sha256 key)
            w).0
          (start_with environment clock start_rpc token rpc_deadline safety_margin job
            (start_command job payload source_sha256 key)
            w).1.starts
  unfolding start_with call_start
  start_with-Ensures key w keyed empty =
      go (assert_safe_rpc_window token rpc_deadline safety_margin (environment w)) refl
    where
      command : StartCommand
      command = start_command job payload source_sha256 key

      called :
          (r : Result StartResult) (v : World)
          → owned_through token (pos_part rpc_deadline + pos_part safety_margin) v.db ≡ true
          → v.starts ≡ []
          → let o : Result ℕ × World =
              and_then
                (
                  r,
                  record v {
                    starts = record { command = command; reply = r; db = v.db } ∷ v.starts;
                  },
                )
                (bind_started environment clock start_rpc token rpc_deadline safety_margin job) in
            Ensures none o.0 o.1.starts
      called (err e) v covered none_yet =
          rw none_yet
            (refl, record { covered = covered; key = key; of_job = keyed; same_command = refl }, tt)
      called (ok started) v covered none_yet =
          bound-Ensures started (record { command = command; reply = ok started; db = v.db }) _
            (rw none_yet refl)
            (record { covered = covered; key = key; of_job = keyed; same_command = refl }) refl

      go :
          (r : Result (Unit {0} × Db))
          → assert_safe_rpc_window token rpc_deadline safety_margin (environment w) ≡ r
          → let o : Result ℕ × World = and_then (committed environment w r) (λ _.
            call_start environment clock start_rpc token rpc_deadline safety_margin command
            >>= λ started.
                bind_started environment clock start_rpc token rpc_deadline safety_margin job
                  started) in
            Ensures none o.0 o.1.starts
      go (err e) k = rw empty tt
      go (ok (_, db)) k =
          let (same, fits) =
            assert_safe_rpc_window-ok token rpc_deadline safety_margin (environment w) db k in
          called (start_rpc command (record w { db = db; turn = suc w.turn }))
            (record w { db = db; turn = suc w.turn }) (rw same fits) empty

  start_session-Ensures :
      (w : World)
      → w.starts ≡ []
      → Ensures none
          (start_session environment clock start_rpc token rpc_deadline safety_margin job payload
            source_sha256 w).0
          (start_session environment clock start_rpc token rpc_deadline safety_margin job payload
            source_sha256 w).1.starts
  unfolding start_session
  start_session-Ensures w empty = go (advance_stage token "ASTRAVECTOR_START" (environment w))
    where
      keyed_with :
          (r : Result IdempotencyKey) (v : World)
          → start_idempotency_key job.document_id job.document_version source_sha256 ≡ r
          → v.starts ≡ []
          → let o : Result ℕ × World =
              and_then
                (r, v)
                (λ key.
                  start_with environment clock start_rpc token rpc_deadline safety_margin job
                    (start_command job payload source_sha256 key)) in
            Ensures none o.0 o.1.starts
      keyed_with (err e) v k none_yet = rw none_yet tt
      keyed_with (ok key) v k none_yet = start_with-Ensures key v k none_yet

      go :
          (r : Result (Unit {0} × Db))
          → let o : Result ℕ × World = and_then (committed environment w r) (λ _.
            with_key environment clock start_rpc token rpc_deadline safety_margin job source_sha256
            >>= λ key.
                start_with environment clock start_rpc token rpc_deadline safety_margin job
                  (start_command job payload source_sha256 key)) in
            Ensures none o.0 o.1.starts
      go (err e) = rw empty tt
      go (ok (_, db)) =
          keyed_with (start_idempotency_key job.document_id job.document_version source_sha256)
            (record w { db = db; turn = suc w.turn }) refl empty

  -- The first transaction reads the session of the checkpoint.
  read_session :
      (db db' : Db) (found : Option ℕ)
      → owned_then token (λ d. ok (session_of (checkpoint_of job.id d), d)) db ≡ ok (found, db')
      → found ≡ session_of (checkpoint_of job.id db)
  unfolding owned_then assert_owned
  read_session db db' found h = go (find (fencing_predicate token db.now) db.jobs) refl h
    where
      fence : Option Job → Result (Unit {0} × Db)
      fence o = elim o as (λ _. Result (Unit {0} × Db)) [
        | none ↦ err lease_lost
        | some _ ↦ ok (tt, db)
      ]

      read : Result (Unit {0} × Db) → Result (Option ℕ × Db)
      read r = elim r as (λ _. Result (Option ℕ × Db)) [
        | ok (_, d) ↦ ok (session_of (checkpoint_of job.id d), d)
        | err e ↦ err e
      ]

      go :
          (o : Option Job)
          → find (fencing_predicate token db.now) db.jobs ≡ o
          → read (fence o) ≡ ok (found, db')
          → found ≡ session_of (checkpoint_of job.id db)
      go none e k = cc
      go (some j) e k = cc

  -- Whatever AstraVector answers and whatever other transactions do, `ensure_session`, with no Start
  -- sent before, sends at most one. It sends one only where the checkpoint that it reads first has no
  -- session, with the command and the key of this job, on a database in which the token owns the job
  -- with a lease that outlasts the deadline of the call and the safety margin. The session that it
  -- returns is the one of the checkpoint where it sends none, and the one of the answer otherwise.
  pub ensure_session_lem :
      (w : World)
      → w.starts ≡ []
      → Ensures
          (session_of (checkpoint_of job.id (environment w)))
          (ensure_session environment clock start_rpc token rpc_deadline safety_margin job payload
            source_sha256 w).0
          (ensure_session environment clock start_rpc token rpc_deadline safety_margin job payload
            source_sha256 w).1.starts
  unfolding ensure_session
  ensure_session_lem w empty =
      go (owned_then token (λ d. ok (session_of (checkpoint_of job.id d), d)) (environment w)) refl
    where
      found_session :
          (found : Option ℕ) (v : World)
          → v.starts ≡ []
          → let o : Result ℕ × World =
              session_or_start environment clock start_rpc token rpc_deadline safety_margin job
                payload source_sha256 found v in
            Ensures found o.0 o.1.starts
      found_session none v none_yet = start_session-Ensures v none_yet
      found_session (some s) v none_yet = rw none_yet refl

      go :
          (r : Result (Option ℕ × Db))
          → owned_then token (λ d. ok (session_of (checkpoint_of job.id d), d)) (environment w) ≡ r
          → let o : Result ℕ × World = and_then (committed environment w r) (
              session_or_start environment clock start_rpc token rpc_deadline safety_margin job
                payload source_sha256) in
            Ensures (session_of (checkpoint_of job.id (environment w))) o.0 o.1.starts
      go (err e) k = rw empty tt
      go (ok (found, db)) k =
          let here = read_session (environment w) db found k in
          subst
            (λ f.
              Ensures f
                (session_or_start environment clock start_rpc token rpc_deadline safety_margin job
                  payload source_sha256 found (record w { db = db; turn = suc w.turn })).0
                (session_or_start environment clock start_rpc token rpc_deadline safety_margin job
                  payload source_sha256 found (record w { db = db; turn = suc w.turn })).1.starts)
            here (found_session found (record w { db = db; turn = suc w.turn }) empty)
