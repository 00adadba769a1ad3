-- ===== src/Supervisor/Anchored.antt =====
-- When the calls of app/services/production_supervisor.py return that a deployment is healthy, and which
-- window of the journal that they leave it was shown in.
use maoxx_os.Prelude.{
  ◌≡◌, refl, ℕ, zero, suc, Bool, true, false, List, [], ◌∷◌, Option, none, some, Result, ok, err,
  Uuid, Time, String, Dict, length, string_eq, seconds, ◌+◌,
}
use maoxx_os.Supervisor.Attempt.{
  RuntimeState, healthy, failed, unknown, runtime_state_eq, SupervisorAttempt, RuntimeSnapshot,
  HealthCycle,
}
use maoxx_os.Supervisor.Journal.{
  JournalEvent, journal_event_eq, JournalRecord, JournalLine, journal_record, load_journal,
  has_event, health_started, health_failed, attempt_terminal, db_disconnected,
}
use maoxx_os.Supervisor.Run.{
  World, returned, Run, try_run, ◌>>◌, lift, answer, append, append_left, transact,
}
use maoxx_os.Supervisor.Terminal.{state_outcome, health_anchor}
use maoxx_os.Supervisor.Evidence.{record_runtime_result}
use maoxx_os.Supervisor.Host.{Library, Host}
use maoxx_os.Supervisor.Execute.{
  note, record_result_or_unknown, finish, passed_event, passed_state, conclude_health, judge_health,
  read_journal, health_locked, resume, load, load_answer, execute,
}
use maoxx_os.Supervisor.Lines.{load-own}
use maoxx_os.Supervisor.Logic.{
  Post, Triple, Any, >>=-Triple, try_run-Triple, trivial-Triple, transact-Triple,
}
use maoxx_os.Supervisor.Journal.{row}
use maoxx_os.Supervisor.Terminal.{cycle_passed, health_deadline_seconds, error_outcome, error_name}
use maoxx_os.Supervisor.Verdicts.{Verified, cycle_passed-ShowsHealthy}
use maoxx_os.Supervisor.Walk.{Walk, resume_lem, of_returned}

-- The journal can be read.
abbrev Readable : SupervisorAttempt → List JournalLine → Type 0
Readable a lines = (rows : List JournalRecord) × (load_journal a lines ≡ ok rows)

-- The journal can be read, and its window of health verification starts at `anchor`.
abbrev pub AnchorAt : SupervisorAttempt → Time → List JournalLine → Type 0
AnchorAt a anchor lines =
    (rows : List JournalRecord) × (load_journal a lines ≡ ok rows)
    × (health_anchor rows ≡ some anchor)

same_anchor :
    (r : JournalRecord) (rows : List JournalRecord) (anchor : Time)
    → health_anchor rows ≡ some anchor
    → health_anchor (r ∷ rows) ≡ some anchor
unfolding health_anchor
same_anchor r rows anchor h = rw h refl

-- What lasts through each record that is appended for the attempt.
abbrev Lasts : SupervisorAttempt → (List JournalLine → Type 0) → Type 0
Lasts a J =
    (event : JournalEvent) (outcome : Dict String) (now : Time) (lines : List JournalLine)
    → J lines
    → J (row (journal_record event a outcome now) ∷ lines)

Readable-Lasts : (a : SupervisorAttempt) → Lasts a (Readable a)
Readable-Lasts a event outcome now lines (rows, read) =
    (journal_record event a outcome now ∷ rows, load-own a event outcome now lines rows read)

AnchorAt-Lasts : (a : SupervisorAttempt) (anchor : Time) → Lasts a (AnchorAt a anchor)
AnchorAt-Lasts a anchor event outcome now lines (rows, read, at_it) = (
  journal_record event a outcome now ∷ rows,
  load-own a event outcome now lines rows read,
  same_anchor (journal_record event a outcome now) rows anchor at_it,
)

module _ (host : Host) (a : SupervisorAttempt) where
  -- A window of health verification was passed, which starts where the journal says, or Docker itself
  -- was observed to be healthy.
  pub data Cause (lines : List JournalLine) : Type 0 where
    verified : (anchor : Time) → AnchorAt a anchor lines → Verified host a anchor → Cause lines
    observed : (s : RuntimeSnapshot) → host.first_observed ≡ ok s → s.state ≡ healthy → Cause lines

  Cause-Lasts : Lasts a (Cause)
  Cause-Lasts event outcome now lines (verified anchor at_it v) =
      verified anchor (AnchorAt-Lasts a anchor event outcome now lines at_it) v
  Cause-Lasts event outcome now lines (observed s h k) = observed s h k

  -- The state is healthy only for a cause.
  abbrev Backed : RuntimeState → List JournalLine → Type 0
  Backed s lines = s ≡ healthy → Cause lines

  abbrev Ends : RuntimeState → World → Type 0
  Ends s w = Backed s w.journal

  Backed-Lasts : (s : RuntimeState) → Lasts a (Backed s)
  Backed-Lasts s event outcome now lines b h = Cause-Lasts event outcome now lines (b h)

  module _ (J : List JournalLine → Type 0) (lasts : Lasts a J) where
    append_left-Lasts :
        (event : JournalEvent) (outcome : Dict String) (now : Time) (left : ℕ) (w : World)
        → J w.journal
        → Post (λ _ v. J v.journal) Any (append_left (journal_record event a outcome now) left w)
    append_left-Lasts event outcome now zero w j = tt
    append_left-Lasts event outcome now (suc n) w j = lasts event outcome now w.journal j

    note-Lasts :
        (event : JournalEvent) (outcome : Dict String)
        → Triple (λ w. J w.journal) (note host a event outcome) (λ _ v. J v.journal) Any
    unfolding note append
    note-Lasts event outcome w j =
        append_left-Lasts event outcome (host.clock (length w.journal)) w.left w j

    after_note :
        (event : JournalEvent) (outcome : Dict String) (k : Run RuntimeState)
        → Triple (λ w. J w.journal) k Ends Any
        → Triple (λ w. J w.journal) (note host a event outcome >> k) Ends Any
    after_note event outcome k t =
        >>=-Triple (λ _ w. J w.journal) Ends Any (λ w. J w.journal) (note host a event outcome)
          (λ _. k) (note-Lasts event outcome) (λ _. t)

  record_lem :
      (s : RuntimeState) (source : String)
      → Triple (λ w. Backed s w.journal) (record_result_or_unknown host a s source) Ends Any
  unfolding record_result_or_unknown
  record_lem s source =
      try_run-Triple (λ _ w. Backed s w.journal) Ends Any (λ w. Backed s w.journal)
        (λ w. Backed s w.journal)
        (transact host.result_commit (record_runtime_result a s source host.now host.result_id)) _
        (λ _. answer s)
        (transact-Triple (Backed s) host.result_commit
          (record_runtime_result a s source host.now host.result_id))
        (λ _.
          >>=-Triple (λ _. Any) Ends Any (λ w. Backed s w.journal) (note host a db_disconnected [])
            (λ _. answer unknown)
            (trivial-Triple (λ w. Backed s w.journal) (note host a db_disconnected []))
            (λ _ _ _ h. absurd (cc)))
        (λ _ _ backed. backed)

  finish_lem :
      (s : RuntimeState) (source : String)
      → Triple (λ w. Backed s w.journal) (finish host a s source) Ends Any
  unfolding finish
  finish_lem s source =
      after_note (Backed s) (Backed-Lasts s) attempt_terminal (state_outcome s) _
        (record_lem s source)

  conclude_lem :
      (passed : Bool)
      → Triple
          (λ w. Backed (passed_state host a passed) w.journal)
          (conclude_health host a passed)
          Ends
          Any
  unfolding conclude_health
  conclude_lem passed =
      let s = passed_state host a passed in
      after_note (Backed s) (Backed-Lasts s) (passed_event host a passed) _ _
        (finish_lem s "health")

  not_passed : (lines : List JournalLine) → Backed (passed_state host a false) lines
  not_passed lines h = absurd (cc)

  passed_lem :
      (passed : Bool) (lines : List JournalLine)
      → (passed ≡ true → Cause lines)
      → Backed (passed_state host a passed) lines
  passed_lem true lines c _ = c refl
  passed_lem false lines c h = absurd (cc)

  judged :
      (anchor : Time) (answered : Result HealthCycle)
      → host.verify_health (anchor + seconds health_deadline_seconds) ≡ answered
      → Triple
          (λ w. AnchorAt a anchor w.journal)
          (try_run
            (lift answered)
            (λ e.
              note host a health_failed (error_outcome (error_name e))
              >> conclude_health host a false)
            (λ cycle.
              conclude_health host a
                (cycle_passed a (anchor + seconds health_deadline_seconds) cycle)))
          Ends
          Any
  judged anchor (err e) h w at_it =
      after_note (λ _. Unit) (λ _ _ _ _ _. tt) health_failed (error_outcome (error_name e))
        (conclude_health host a false) (λ w _. conclude_lem false w (not_passed w.journal)) w tt
  judged anchor (ok cycle) h w at_it =
      let passed = cycle_passed a (anchor + seconds health_deadline_seconds) cycle in
      conclude_lem passed w (
        passed_lem passed w.journal (λ shown. verified anchor at_it (record {
          cycle = cycle;
          answered = h;
          shows = cycle_passed-ShowsHealthy a anchor cycle shown;
        })))

  judge_lem :
      (rows : List JournalRecord) (o : Option Time)
      → health_anchor rows ≡ o
      → Triple (λ w. load_journal a w.journal ≡ ok rows) (judge_health host a o) Ends Any
  unfolding judge_health
  judge_lem rows none h w read =
      after_note (λ _. Unit) (λ _ _ _ _ _. tt) health_failed _ _
        (λ w _. finish_lem failed "health" w (λ s. absurd (cc))) w tt
  judge_lem rows (some anchor) h w read =
      judged anchor (host.verify_health (anchor + seconds health_deadline_seconds)) refl w
        (rows, read, h)

  health_lem : Triple (λ w. Readable a w.journal) (health_locked host a) Ends Any
  unfolding health_locked read_journal
  health_lem =
      after_note (Readable a) (Readable-Lasts a) health_started [] _
        (λ w (rows, read). rw read (judge_lem rows (health_anchor rows) refl w read))

  healthy_walk : Walk host a (Readable a) Ends
  healthy_walk = record {
    noted = λ event outcome _. note-Lasts (Readable a) (Readable-Lasts a) event outcome;
    told_unknown = λ w h. absurd (cc);
    failing = λ source w _. finish_lem failed source w (λ h. absurd (cc));
    verifying = health_lem;
    finishing = λ s source seen w _. finish_lem s.state source w (λ h. observed s seen h);
  }

-- An execution of an attempt without a terminal record that returns HEALTHY has, for a cause, a health
-- cycle that was read within the window of the journal that it leaves and shows every required check to be
-- true, the attempt's digest and commit, and its migration, if it asks for one; or else that Docker itself
-- was observed to be healthy. Neither a mutation that Docker accepted nor a lost answer is a cause.
pub execute-Cause :
    (library : Library) (host : Host) (id : Uuid) (w v : World) (a : SupervisorAttempt)
    (rows : List JournalRecord)
    → load_answer library host id w.db ≡ ok a
    → load_journal a w.journal ≡ ok rows
    → has_event attempt_terminal rows ≡ false
    → execute library host id w ≡ (returned healthy, v)
    → Cause host a v.journal
unfolding execute load read_journal
execute-Cause library host id w v a rows loaded read unended h =
    let first : resume host a library rows w ≡ (returned healthy, v) = rw (loaded, read) at h in
    of_returned (Ends host a) (resume host a library rows w) healthy v
      (resume_lem host a (Readable a) (Ends host a) (healthy_walk host a) library rows unended w
        (rows, read))
      first refl
