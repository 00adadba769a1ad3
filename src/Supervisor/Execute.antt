-- ===== src/Supervisor/Execute.antt =====
-- `ProductionDeploymentSupervisor` of app/services/production_supervisor.py. What the host, Docker and
-- the database answer to a call is its `Host`.
use maoxx_os.Prelude.{
  ◌+◌, String, Bool, true, false, Option, none, some, List, [], ◌∷◌, Result, raise_if, err, Error,
  supervisor_error, other_exception, nat_eq, string_eq, option_eq, ◌==◌, Uuid, Time, seconds, Dict,
  if◌then◌else◌,
}
use maoxx_os.Tables.{Db}
use maoxx_os.Supervisor.Attempt.{
  RuntimeState, mutation_completed_health_unknown, failed, healthy, unknown, runtime_state_eq,
  SupervisorAttempt,
}
use maoxx_os.Supervisor.Resources.{require_fresh, collect}
use maoxx_os.Supervisor.Journal.{
  JournalEvent, JournalRecord, attempt_accepted, mutation_completed, mutation_failed,
  health_started, health_passed, health_failed, reconciliation_started, reconciliation_result,
  db_disconnected, attempt_terminal, journal_event_eq, load_journal, has_event,
}
use maoxx_os.Supervisor.Journal
use maoxx_os.Supervisor.Run.{Run, ◌>>=◌, ◌>>◌, answer, lift, try_run, append, transact, submit}
use maoxx_os.Supervisor.Authority.{load_attempt}
use maoxx_os.Supervisor.Evidence.{
  record_resource, record_runtime_result, record_mutation_submitted, mutation_submitted,
}
use maoxx_os.Supervisor.Host.{Library, Host, if_reads}
use maoxx_os.Supervisor.Terminal.{
  state_outcome, error_name, error_outcome, terminal_state, health_anchor, health_deadline_seconds,
  cycle_passed, is_final,
}

module _ (host : Host) (a : SupervisorAttempt) where
  -- `journal.append(event, attempt, outcome)`
  unfoldable pub note : JournalEvent → Dict String → Run (Unit {0})
  note event outcome = append host.clock event a outcome

  -- `_record_result_or_unknown`
  unfoldable pub record_result_or_unknown : RuntimeState → String → Run RuntimeState
  record_result_or_unknown state source =
      try_run
        (transact host.result_commit (record_runtime_result a state source host.now host.result_id))
        (λ _. note db_disconnected [] >> answer unknown) (λ _. answer state)

  -- `ATTEMPT_TERMINAL` and the result
  unfoldable pub finish : RuntimeState → String → Run RuntimeState
  finish state source =
      note attempt_terminal (state_outcome state) >> record_result_or_unknown state source

  abbrev pub passed_event : Bool → JournalEvent
  passed_event true = health_passed
  passed_event false = health_failed

  abbrev pub passed_state : Bool → RuntimeState
  passed_state true = healthy
  passed_state false = failed

  unfoldable pub conclude_health : Bool → Run RuntimeState
  conclude_health passed =
      note (passed_event passed) (state_outcome (passed_state passed))
      >> finish (passed_state passed) "health"

  -- By the anchor of the window.
  unfoldable pub judge_health : Option Time → Run RuntimeState
  judge_health none =
      note health_failed (error_outcome "health_window_anchor_missing") >> finish failed "health"
  judge_health (some completed_at) =
      let deadline = completed_at + seconds health_deadline_seconds in
      try_run (lift (host.verify_health deadline))
        (λ e. note health_failed (error_outcome (error_name e)) >> conclude_health false)
        (λ cycle. conclude_health (cycle_passed a deadline cycle))

  -- `journal.load(attempt)`
  unfoldable pub read_journal : Run (List JournalRecord)
  read_journal w = lift (load_journal a w.journal) w

  -- `_health_locked`
  unfoldable pub health_locked : Run RuntimeState
  health_locked = do note health_started []; rows ← read_journal; judge_health (health_anchor rows)

  -- By the state that was observed.
  unfoldable pub resolve_state : RuntimeState → Run RuntimeState
  resolve_state state =
      if state == mutation_completed_health_unknown
      then health_locked
      else if is_final state
      then finish state "reconciliation"
      else record_result_or_unknown unknown "reconciliation" >>= λ _. answer unknown

  -- `_reconcile_locked`
  unfoldable pub reconcile_locked : Run RuntimeState
  reconcile_locked = do
    note reconciliation_started []
    snapshot ← lift host.first_observed
    note reconciliation_result (state_outcome snapshot.state)
    resolve_state snapshot.state

  abbrev pub mutation_refused : Error → Bool
  mutation_refused (supervisor_error code) = code == "docker_mutation_failed"
  mutation_refused _ = false

  -- The handlers of `submit`.
  unfoldable pub submit_failed : Error → Run RuntimeState
  submit_failed e =
      if mutation_refused e
      then note mutation_failed (error_outcome (error_name e)) >> finish failed "mutation"
      else reconcile_locked

  -- `journal.append(DB_DISCONNECTED); return UNKNOWN`
  unfoldable pub disconnected : Run RuntimeState
  disconnected = note db_disconnected [] >> answer unknown

  -- From the journal's `MUTATION_SUBMITTED` on.
  unfoldable pub mutate : Run RuntimeState
  mutate = do
    note Journal.mutation_submitted []
    try_run (submit host.submitted) submit_failed (λ _. note mutation_completed [] >> health_locked)

  module _ (library : Library) where
    -- From `ATTEMPT_ACCEPTED` on.
    unfoldable pub accept : Run RuntimeState
    accept = do
      note attempt_accepted []
      lift host.plan
      resources ← lift (collect host.sample host.now)
      lift (require_fresh resources host.now)
      try_run
          (transact host.resource_commit
            (record_resource library.resource_payload resources host.now host.resource_id))
          (λ _. disconnected)
          (λ _.
            try_run
              (transact host.marker_commit (record_mutation_submitted a host.now host.marker_id))
              (λ _. disconnected) (λ _. mutate))

    -- `not events and self._authority.mutation_submitted(attempt)`, on an empty journal
    unfoldable pub fresh_answer : Db → Result (Unit {0})
    fresh_answer db =
        if host.marker_reads
        then raise_if (mutation_submitted a db)
            (supervisor_error "journal_missing_after_db_submission")
        else err other_exception

    unfoldable pub start_fresh : Run RuntimeState
    start_fresh w = (lift (fresh_answer w.db) >> accept) w

    -- By the records that are there.
    unfoldable pub resume : List JournalRecord → Run RuntimeState
    resume [] = start_fresh
    resume (r ∷ rows) =
        if has_event attempt_terminal (r ∷ rows)
        then lift (terminal_state (r ∷ rows))
        else if has_event Journal.mutation_submitted (r ∷ rows)
        then reconcile_locked
        else accept

module _ (library : Library) (host : Host) where
  open library use {from_iso, hashing, json_dumps}

  -- `self._authority.load`, under the file lock
  unfoldable pub load_answer : Uuid → Db → Result SupervisorAttempt
  load_answer id db =
      if host.lock_busy
      then err (supervisor_error "host_execution_lock_busy")
      else if_reads host.load_reads
          (load_attempt from_iso hashing json_dumps id host.ci host.now db)
          (supervisor_error "db_disconnected")

  unfoldable pub load : Uuid → Run SupervisorAttempt
  load id w = lift (load_answer id w.db) w

  unfoldable pub execute : Uuid → Run RuntimeState
  execute id = do a ← load id; rows ← read_journal host a; resume host a library rows

  unfoldable pub reconcile : Uuid → Run RuntimeState
  reconcile id = do a ← load id; _ ← read_journal host a; reconcile_locked host a
