-- ===== src/Supervisor/Replay.antt =====
-- That app/services/production_supervisor.py replays a verdict once it is in the journal.
pub mod Verdict
use maoxx_os.Prelude.{
  ◌≡◌, ◌≢◌, ◌⊎◌, inl, inr, refl, ℕ, zero, suc, Bool, true, false, List, [], ◌∷◌, Option, none, some,
  Result, ok, err, Error, Uuid, Time, String, Dict, dict_get, length, ◌==◌, arith, any_of,
  string_eq, subst,
}
use maoxx_os.Tables.{Db}
use maoxx_os.Supervisor.Attempt.{
  RuntimeState, not_started, in_progress, healthy, failed, unknown,
  mutation_completed_health_unknown, runtime_state_eq, state_text, state_of_text, SupervisorAttempt,
}
use maoxx_os.Supervisor.Journal.{
  JournalEvent, JournalEvent-discrete, journal_event_eq, JournalRecord, JournalLine, journal_record,
  load_journal, has_event, attempt_accepted, mutation_submitted, mutation_completed,
  mutation_failed, health_started, health_failed, attempt_terminal, reconciliation_started,
  reconciliation_result, db_disconnected,
}
use maoxx_os.Supervisor.Run.{
  World, Outcome, returned, Run, try_run, Commit, ◌>>=◌, ◌>>◌, lift, answer, append, append_left,
  submit, submit_left, transact,
}
use maoxx_os.Supervisor.Terminal.{
  state_outcome, terminal_rows, outcome_state, only_terminal, ends_disconnected, terminal_state,
  health_anchor, is_final,
}
use maoxx_os.Supervisor.Resources.{collect, require_fresh}
use maoxx_os.Supervisor.Evidence.{record_runtime_result}
use maoxx_os.Supervisor.Host.{Library, Host}
use maoxx_os.Supervisor.Execute.{
  note, record_result_or_unknown, finish, passed_event, passed_state, conclude_health, judge_health,
  read_journal, health_locked, resolve_state, reconcile_locked, mutation_refused, submit_failed,
  disconnected, mutate, accept, fresh_answer, start_fresh, resume, load, load_answer, execute,
}
use maoxx_os.Supervisor.Lines.{load-own}
use maoxx_os.Supervisor.Logic.{
  Post, Triple, Any, >>=-Triple, try_run-Triple, if-Triple, lift-Triple, lift-Any, trivial-Triple,
  transact-Triple,
}
use maoxx_os.Supervisor.Walk.{Walk, resume_lem, of_returned}
use maoxx_os.Supervisor.Replay.Verdict.{
  NoVerdict, note_other, Undecided, Final, open_rows, after_note, finish_lem, then_unknown,
  disconnected_lem, after_lift,
}

module _ (host : Host) (a : SupervisorAttempt) where
  passed_other : (passed : Bool) → (passed_event host a passed == attempt_terminal) ≡ false
  unfolding JournalEvent-discrete
  passed_other true = refl
  passed_other false = refl

  conclude_lem :
      (passed : Bool) → Triple (Undecided a) (conclude_health host a passed) (Final a) Any
  unfolding conclude_health
  conclude_lem passed =
      after_note host a (passed_event host a passed) _ _ (passed_other passed)
        (finish_lem host a (passed_state host a passed) "health")

  judge_lem : (o : Option Time) → Triple (Undecided a) (judge_health host a o) (Final a) Any
  unfolding judge_health JournalEvent-discrete
  judge_lem none = after_note host a health_failed _ _ refl (finish_lem host a failed "health")
  judge_lem (some anchor) =
      try_run-Triple (λ _. Undecided a) (Final a) Any (Undecided a) (Undecided a) _ _ _
        (lift-Triple (Undecided a) _)
        (λ e. after_note host a health_failed _ _ refl (conclude_lem false))
        (λ cycle. conclude_lem _)

  health_lem : Triple (Undecided a) (health_locked host a) (Final a) Any
  unfolding health_locked read_journal JournalEvent-discrete
  health_lem = after_note host a health_started [] _ refl (λ w u.
      after_lift host a (load_journal a w.journal) _ (λ rows. judge_lem (health_anchor rows)) w u)

  replay_walk : Walk host a (NoVerdict a) (Final a)
  replay_walk = record {
    noted = note_other host a;
    told_unknown = λ w. inl refl;
    failing = finish_lem host a failed;
    verifying = health_lem;
    finishing = λ s source _. finish_lem host a s.state source;
  }

replayed :
    (host : Host) (a : SupervisorAttempt) (library : Library) (s : RuntimeState)
    (rows : List JournalRecord) (w : World)
    → has_event attempt_terminal rows ≡ true
    → terminal_state rows ≡ ok s
    → resume host a library rows w ≡ (returned s, w)
unfolding resume
replayed host a library s [] w h t = absurd (unfold has_event any_of in cc)
replayed host a library s (r ∷ rows) w h t = rw (h, t) refl

-- A verdict is replayed. Where an execution, from a journal without a terminal record, has returned a state
-- other than UNKNOWN, executing the attempt again on the world that it left, if the attempt loads there as
-- before, returns the same state, whatever the host answers, and changes nothing: neither Docker, nor the
-- journal, nor the database. A reconciliation between the two is not covered.
pub execute-replays :
    (library : Library) (host later : Host) (id : Uuid) (w v : World) (a : SupervisorAttempt)
    (rows : List JournalRecord) (s : RuntimeState)
    → load_answer library host id w.db ≡ ok a
    → load_journal a w.journal ≡ ok rows
    → has_event attempt_terminal rows ≡ false
    → execute library host id w ≡ (returned s, v)
    → s ≢ unknown
    → load_answer library later id v.db ≡ ok a
    → execute library later id v ≡ (returned s, v)
unfolding execute load read_journal
execute-replays library host later id w v a rows s loaded read unended h known again =
    let first : resume host a library rows w ≡ (returned s, v) = rw (loaded, read) at h in
    let final =
      of_returned (Final a) (resume host a library rows w) s v
        (resume_lem host a (NoVerdict a) (Final a) (replay_walk host a) library rows unended w
          (rows, read, open_rows rows unended))
        first in
    elim final [
      | inl lost ↦ absurd (known lost)
      | inr (rows', read', ended, state) ↦
          rw (again, read') (replayed later a library s rows' v ended state)
    ]
