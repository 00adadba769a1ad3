-- ===== src/Supervisor/Submission.antt =====
-- What `accept` of app/services/production_supervisor.py leaves behind, wherever it dies.
use maoxx_os.Prelude.{
  ℕ, zero, suc, ◌≡◌, ◌⊎◌, inl, inr, refl, true, List, [], ◌∷◌, ◌++◌, Result, ok, err, Error, nat_eq,
  length,
}
use maoxx_os.Tables.{Db}
use maoxx_os.Supervisor.Attempt.{RuntimeState, SupervisorAttempt}
use maoxx_os.Supervisor.Journal.{
  JournalRecord, JournalLine, row, unreadable, attempt_accepted, mutation_completed,
  mutation_submitted, journal_event_eq, journal_record,
}
use maoxx_os.Supervisor.Run.{
  World, Outcome, stopped, raised, returned, Run, continue, handle, ◌>>=◌, ◌>>◌, try_run, lift,
  append, append_left, submit, submit_left, transact, transact_left, Commit, failed, done,
  unanswered,
}
use maoxx_os.Supervisor.Evidence.{is_marked, record_mutation_submitted, record_resource}
use maoxx_os.Supervisor.Resources.{collect, require_fresh}
use maoxx_os.Supervisor.Host.{Library, Host}
use maoxx_os.Supervisor.Execute.{note, health_locked, submit_failed, disconnected, mutate, accept}
use maoxx_os.Supervisor.Quiet.{
  Grows, MarkersKept, Quiet, >>-Quiet, lift-Quiet, transact-Quiet, record_resource-Keeps,
  record_mutation_submitted-is_marked,
}
use maoxx_os.Supervisor.Calls.{
  note-Quiet, disconnected-Quiet, health_locked-Quiet, submit_failed-Quiet,
}

-- The journal records that a mutation was submitted, by an attempt that the database has marked.
abbrev pub Submitted : Db → List JournalLine → Type 0
Submitted db [] = ⊥
Submitted db (unreadable ∷ lines) = Submitted db lines
Submitted db (row r ∷ lines) =
    ((r.event ≡ mutation_submitted) × (is_marked r.deployment_id r.execution_attempt_id db ≡ true))
    ⊎ Submitted db lines

-- Docker was never changed, or once, and the journal and the database tell.
abbrev pub AtMostOnce : World → Type 0
AtMostOnce w = (w.mutations ≡ 0) ⊎ ((w.mutations ≡ 1) × Submitted w.db w.journal)

pub Submitted-++ :
    (before after : Db) (new lines : List JournalLine)
    → MarkersKept before after
    → Submitted before lines
    → Submitted after (new ++ lines)
Submitted-++ before after [] [] kept h = h
Submitted-++ before after [] (unreadable ∷ lines) kept h = Submitted-++ before after [] lines kept h
Submitted-++ before after [] (row r ∷ lines) kept (inl (e, m)) = inl (e, kept _ _ m)
Submitted-++ before after [] (row r ∷ lines) kept (inr h) =
    inr (Submitted-++ before after [] lines kept h)
Submitted-++ before after (unreadable ∷ new) lines kept h =
    Submitted-++ before after new lines kept h
Submitted-++ before after (row r ∷ new) lines kept h =
    inr (Submitted-++ before after new lines kept h)

pub Grows-AtMostOnce : (v w : World) → Grows v w → AtMostOnce v → AtMostOnce w
Grows-AtMostOnce v w g (inl none) = inl (rw (g.same_mutations) none)
Grows-AtMostOnce v w g (inr (once, told)) = inr (
  rw (g.same_mutations) once,
  rw (g.journal_added) (Submitted-++ v.db w.db g.added v.journal g.markers told),
)

-- What a call that starts with `P` leaves.
abbrev pub Safe : {A : Type 0} → (World → Type 0) → Run A → Type 0
Safe P m = (w : World) → P w → AtMostOnce (m w).1

abbrev pub Fresh : World → Type 0
Fresh w = w.mutations ≡ 0

pub Quiet-Safe : {A : Type 0} (m : Run A) → Quiet m → Safe AtMostOnce m
Quiet-Safe m q w h = Grows-AtMostOnce w (m w).1 (q w) h

continue-Safe :
    {A B : Type 0} (P : World → Type 0) (f : A → Run B)
    → ((a : A) → Safe P (f a))
    → (p : Outcome A × World) → P p.1
    → AtMostOnce p.1
    → AtMostOnce (continue f p).1
continue-Safe P f s (stopped, w) h k = k
continue-Safe P f s (raised e, w) h k = k
continue-Safe P f s (returned a, w) h k = s a w h

pub Fresh-Grows : (v w : World) → Grows v w → Fresh v → Fresh w
Fresh-Grows v w g h = rw (g.same_mutations) h

-- A quiet call, and what follows it.
pub after-Quiet :
    {A B : Type 0} (m : Run A) (f : A → Run B)
    → Quiet m
    → ((a : A) → Safe Fresh (f a))
    → Safe Fresh (m >>= f)
after-Quiet m f q s w h =
    let fresh = Fresh-Grows w (m w).1 (q w) h in continue-Safe Fresh f s (m w) fresh (inl fresh)

handle-Safe :
    {A B : Type 0} (f : A → Run B) (h : Error → Run B)
    → ((a : A) → Quiet (f a))
    → ((e : Error) → Quiet (h e))
    → (p : Outcome A × World) → AtMostOnce p.1
    → AtMostOnce (handle f h p).1
handle-Safe f h q r (stopped, w) k = k
handle-Safe f h q r (raised e, w) k = Quiet-Safe (h e) (r e) w k
handle-Safe f h q r (returned a, w) k = Quiet-Safe (f a) (q a) w k

submit_left-Safe :
    (told : Result (Unit {0})) (left : ℕ) (w : World)
    → Fresh w
    → Submitted w.db w.journal
    → AtMostOnce (submit_left told left w).1
submit_left-Safe told zero w fresh s = inl fresh
submit_left-Safe told (suc n) w fresh s = inr (rw fresh, s)

module _ (host : Host) (a : SupervisorAttempt) where
  -- The Docker mutation and what its answer leads to.
  abbrev submission : Run RuntimeState
  submission =
      try_run (submit host.submitted) (submit_failed host a)
        (λ _. note host a mutation_completed [] >> health_locked host a)

  submission-Safe : (w : World) → Fresh w → Submitted w.db w.journal → AtMostOnce (submission w).1
  unfolding submit
  submission-Safe w fresh s =
      handle-Safe (λ (_ : Unit {0}). note host a mutation_completed [] >> health_locked host a)
        (submit_failed host a)
        (λ _.
          >>-Quiet (note host a mutation_completed []) (health_locked host a)
            (note-Quiet host a mutation_completed []) (health_locked-Quiet host a))
        (submit_failed-Quiet host a) (submit_left host.submitted w.left w)
        (submit_left-Safe host.submitted w.left w fresh s)

  after_note :
      (r : JournalRecord) (left : ℕ) (w : World)
      → r.event ≡ mutation_submitted
      → is_marked r.deployment_id r.execution_attempt_id w.db ≡ true
      → Fresh w
      → AtMostOnce (continue (λ (_ : Unit {0}). submission) (append_left r left w)).1
  after_note r zero w e m fresh = inl fresh
  after_note r (suc n) w e m fresh =
      submission-Safe (record w { journal = row r ∷ w.journal; left = n }) fresh (inl (e, m))

  mutate-Safe :
      (w : World)
      → is_marked a.deployment_id a.execution_attempt_id w.db ≡ true
      → Fresh w
      → AtMostOnce (mutate host a w).1
  unfolding mutate note append
  mutate-Safe w m fresh =
      after_note (journal_record mutation_submitted a [] (host.clock (length w.journal))) w.left w
        refl m fresh

  after_marker :
      (commit : Commit) (written : Result Db) (left : ℕ) (w : World)
      → ((db : Db) → written ≡ ok db → is_marked a.deployment_id a.execution_attempt_id db ≡ true)
      → Fresh w
      → AtMostOnce
          (handle
            (λ (_ : Unit {0}). mutate host a)
            (λ _. disconnected host a)
            (transact_left commit written left w)).1
  after_marker commit written zero w m fresh = inl fresh
  after_marker commit (err e) (suc n) w m fresh =
      Quiet-Safe (disconnected host a) (disconnected-Quiet host a) (record w { left = n })
        (inl fresh)
  after_marker failed (ok db) (suc n) w m fresh =
      Quiet-Safe (disconnected host a) (disconnected-Quiet host a) (record w { left = n })
        (inl fresh)
  after_marker done (ok db) (suc n) w m fresh =
      mutate-Safe (record w { db = db; left = n }) (m db refl) fresh
  after_marker unanswered (ok db) (suc n) w m fresh =
      Quiet-Safe (disconnected host a) (disconnected-Quiet host a) (record w { db = db; left = n })
        (inl fresh)

  marking-Safe :
      (w : World)
      → Fresh w
      → AtMostOnce
          (try_run
            (transact host.marker_commit (record_mutation_submitted a host.now host.marker_id))
            (λ _. disconnected host a)
            (λ _. mutate host a)
            w).1
  unfolding transact
  marking-Safe w fresh =
      after_marker host.marker_commit (record_mutation_submitted a host.now host.marker_id w.db)
        w.left w (λ db h. record_mutation_submitted-is_marked a host.now host.marker_id w.db db h)
        fresh

  handle-Fresh :
      (f : Unit {0} → Run RuntimeState) (p : Outcome (Unit {0}) × World)
      → ((v : World) → Fresh v → AtMostOnce (f tt v).1)
      → Fresh p.1
      → AtMostOnce (handle f (λ _. disconnected host a) p).1
  handle-Fresh f (stopped, w) s h = inl h
  handle-Fresh f (raised e, w) s h =
      Quiet-Safe (disconnected host a) (disconnected-Quiet host a) w (inl h)
  handle-Fresh f (returned tt, w) s h = s w h

  module _ (library : Library) where
    pub accept-Safe : Safe Fresh (accept host a library)
    unfolding accept
    accept-Safe =
        after-Quiet (note host a attempt_accepted []) _ (note-Quiet host a attempt_accepted [])
          (λ _. after-Quiet (lift host.plan) _ (lift-Quiet host.plan) (λ _.
            after-Quiet (lift (collect host.sample host.now)) _ (lift-Quiet _) (λ resources.
              after-Quiet (lift (require_fresh resources host.now)) _ (lift-Quiet _) (λ _ w fresh.
                let write =
                  record_resource library.resource_payload resources host.now host.resource_id in
                let stored = transact host.resource_commit write in
                handle-Fresh _ (stored w) marking-Safe (
                  Fresh-Grows w (stored w).1
                    (transact-Quiet host.resource_commit write
                      (record_resource-Keeps library.resource_payload resources host.now
                        host.resource_id)
                      w)
                    fresh)))))
