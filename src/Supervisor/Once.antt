-- ===== src/Supervisor/Once.antt =====
-- How often a run of the supervisor of app/services/production_supervisor.py changes Docker for one attempt.
use maoxx_os.Prelude.{
  ℕ, ◌≡◌, ◌≢◌, inl, inr, refl, Bool, true, false, List, [], ◌∷◌, Result, ok, err, Uuid, arith,
  Bool-cases, any_of, bind-ok, nat_eq,
}
use maoxx_os.Tables.{Db}
use maoxx_os.Supervisor.Attempt.{SupervisorAttempt}
use maoxx_os.Supervisor.Journal.{
  JournalRecord, JournalLine, row, unreadable, mutation_submitted, attempt_terminal,
  journal_event_eq, JournalEvent-discrete, read_line, load_journal, has_event,
}
use maoxx_os.Supervisor.Run.{World, continue, ◌>>=◌, lift}
use maoxx_os.Supervisor.Host.{Library, Host}
use maoxx_os.Supervisor.Execute.{
  read_journal, reconcile_locked, accept, fresh_answer, start_fresh, resume, load, load_answer,
  execute, reconcile,
}
use maoxx_os.Supervisor.Takeover.{prove_quiescent_takeover}
use maoxx_os.Supervisor.Quiet.{MarkersKept, lift-Quiet}
use maoxx_os.Supervisor.Calls.{
  reconcile_locked-Quiet, reconcile-Quiet, prove_quiescent_takeover-Quiet,
}
use maoxx_os.Supervisor.Submission.{
  Submitted, Submitted-++, AtMostOnce, Fresh, Quiet-Safe, after-Quiet, accept-Safe,
}

read_line_lem :
    (a : SupervisorAttempt) (r : JournalRecord) (rows out : List JournalRecord)
    → read_line a (row r) rows ≡ ok out
    → out ≡ r ∷ rows
unfolding read_line
read_line_lem a r rows out h = ground arith

told_here :
    (r : JournalRecord) (older : List JournalRecord)
    → r.event ≡ mutation_submitted
    → has_event mutation_submitted (r ∷ older) ≡ true
unfolding has_event any_of JournalEvent-discrete
told_here r older e = rw e refl

told_before :
    (r : JournalRecord) (older : List JournalRecord)
    → has_event mutation_submitted older ≡ true
    → has_event mutation_submitted (r ∷ older) ≡ true
unfolding has_event any_of
told_before r older h = ground arith

readable_only :
    (a : SupervisorAttempt) (rows out : List JournalRecord) → read_line a unreadable rows ≢ ok out
unfolding read_line
readable_only a rows out h = cc

-- The records that are read tell of a mutation, if the file does.
Submitted-has_event :
    (a : SupervisorAttempt) (db : Db) (lines : List JournalLine) (rows : List JournalRecord)
    → load_journal a lines ≡ ok rows
    → Submitted db lines
    → has_event mutation_submitted rows ≡ true
unfolding load_journal
Submitted-has_event a db [] rows h s = absurd s
Submitted-has_event a db (unreadable ∷ lines) rows h s =
    let (older, _, torn) = bind-ok (load_journal a lines) (λ rows. read_line a unreadable rows) h in
    absurd (readable_only a older rows torn)
Submitted-has_event a db (row r ∷ lines) rows h (inl (e, _)) =
    let (older, _, this) = bind-ok (load_journal a lines) (λ rows. read_line a (row r) rows) h in
    rw (read_line_lem a r older rows this) (told_here r older e)
Submitted-has_event a db (row r ∷ lines) rows h (inr s) =
    let (older, read, this) = bind-ok (load_journal a lines) (λ rows. read_line a (row r) rows) h in
    rw (read_line_lem a r older rows this)
      (told_before r older (Submitted-has_event a db lines older read s))

untold-Fresh :
    (a : SupervisorAttempt) (w : World) (rows : List JournalRecord)
    → load_journal a w.journal ≡ ok rows
    → has_event mutation_submitted rows ≡ false
    → AtMostOnce w
    → Fresh w
untold-Fresh a w rows h untold (inl fresh) = fresh
untold-Fresh a w rows h untold (inr (_, s)) =
    let told = Submitted-has_event a w.db w.journal rows h s in absurd (cc)

module _ (library : Library) (host : Host) where
  at_records :
      (a : SupervisorAttempt) (rows : List JournalRecord) (w : World)
      → load_journal a w.journal ≡ ok rows
      → AtMostOnce w
      → AtMostOnce (resume host a library rows w).1
  unfolding resume start_fresh
  at_records a [] w h safe =
      after-Quiet (lift (fresh_answer host a library w.db)) (λ _. accept host a library)
        (lift-Quiet (fresh_answer host a library w.db)) (λ _. accept-Safe host a library) w
        (untold-Fresh a w [] h (unfold has_event any_of in refl) safe)
  at_records a (r ∷ rows) w h safe = elim (Bool-cases (has_event attempt_terminal (r ∷ rows))) [
    | inl ended ↦ rw ended (Quiet-Safe (lift _) (lift-Quiet _) w safe)
    | inr open_yet ↦ rw open_yet (elim (Bool-cases (has_event mutation_submitted (r ∷ rows))) [
      | inl told ↦
          rw told (Quiet-Safe (reconcile_locked host a) (reconcile_locked-Quiet host a) w safe)
      | inr untold ↦
          rw untold (accept-Safe host a library w (untold-Fresh a w (r ∷ rows) h untold safe))
    ])
  ]

  at_journal :
      (a : SupervisorAttempt) (read : Result (List JournalRecord)) (w : World)
      → load_journal a w.journal ≡ read
      → AtMostOnce w
      → AtMostOnce (continue (resume host a library) (lift read w)).1
  at_journal a (err e) w h safe = safe
  at_journal a (ok rows) w h safe = at_records a rows w h safe

  at_attempt :
      (loaded : Result SupervisorAttempt) (w : World)
      → AtMostOnce w
      → AtMostOnce
          (continue
            (λ a. read_journal host a >>= λ rows. resume host a library rows)
            (lift loaded w)).1
  unfolding read_journal
  at_attempt (err e) w safe = safe
  at_attempt (ok a) w safe = at_journal a (load_journal a w.journal) w refl safe

  execute-AtMostOnce :
      (id : Uuid) (w : World) → AtMostOnce w → AtMostOnce (execute library host id w).1
  unfolding execute load
  execute-AtMostOnce id w safe = at_attempt (load_answer library host id w.db) w safe

-- The calls that a supervisor is asked for.
pub data Call : Type 0 where
  executes reconciles takes_over : Call

abbrev pub call : Library → Host → Call → Uuid → World → World
call library host executes id w = (execute library host id w).1
call library host reconciles id w = (reconcile library host id w).1
call library host takes_over id w = (prove_quiescent_takeover library host id w).1

abbrev pub first_world : Db → World
first_world db = record { db = db; journal = []; mutations = 0; left = 0; torn = false }

-- The worlds that calls for one attempt reach, each with a host of its own, and each living as long as
-- it may. Between them the database changes, but for its markers: the program deletes no evidence.
pub data Runs (library : Library) (id : Uuid) : World → Type 0 where
  begin : (db : Db) → Runs library id (first_world db)
  called :
      (host : Host) (c : Call) (left : ℕ) (torn : Bool) (w : World)
      → Runs library id w
      → Runs library id (call library host c id (record w { left = left; torn = torn }))
  meanwhile :
      (db : Db) (w : World)
      → Runs library id w
      → MarkersKept w.db db
      → Runs library id (record w { db = db })

module _ (library : Library) (id : Uuid) where
  call-AtMostOnce :
      (host : Host) (c : Call) (w : World) → AtMostOnce w → AtMostOnce (call library host c id w)
  call-AtMostOnce host executes w h = execute-AtMostOnce library host id w h
  call-AtMostOnce host reconciles w h =
      Quiet-Safe (reconcile library host id) (reconcile-Quiet library host id) w h
  call-AtMostOnce host takes_over w h =
      Quiet-Safe (prove_quiescent_takeover library host id)
        (prove_quiescent_takeover-Quiet library host id) w h

  meanwhile-AtMostOnce :
      (db : Db) (w : World) → MarkersKept w.db db → AtMostOnce w → AtMostOnce (record w { db = db })
  meanwhile-AtMostOnce db w kept (inl fresh) = inl fresh
  meanwhile-AtMostOnce db w kept (inr (once, s)) =
      inr (once, Submitted-++ w.db db [] w.journal kept s)

  -- However often a supervisor is asked to execute, reconcile or take over an attempt, and wherever each
  -- call dies, as long as the attempt's journal and the markers of the database last: Docker is changed
  -- never, or once; and where it was changed, the journal and the database both tell so.
  pub Runs-AtMostOnce : (w : World) → Runs library id w → AtMostOnce w
  Runs-AtMostOnce _ (begin db) = inl refl
  Runs-AtMostOnce _ (called host c left torn w r) =
      call-AtMostOnce host c (record w { left = left; torn = torn }) (Runs-AtMostOnce w r)
  Runs-AtMostOnce _ (meanwhile db w r kept) = meanwhile-AtMostOnce db w kept (Runs-AtMostOnce w r)
