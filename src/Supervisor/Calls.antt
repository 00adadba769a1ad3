-- ===== src/Supervisor/Calls.antt =====
-- The parts of the calls of app/services/production_supervisor.py that leave Docker alone.
use maoxx_os.Prelude.{
  Bool, true, false, Option, none, some, [], String, Error, ◌||◌, ◌+◌, seconds, ◌==◌, if◌then◌else◌,
  Uuid, Time, Dict,
}
use maoxx_os.Supervisor.Attempt.{
  RuntimeState, SupervisorAttempt, RuntimeSnapshot, failed, unknown,
  mutation_completed_health_unknown, runtime_state_eq,
}
use maoxx_os.Supervisor.Journal.{
  JournalEvent, load_journal, health_started, health_failed, reconciliation_started,
  reconciliation_result, mutation_failed, db_disconnected, attempt_terminal,
}
use maoxx_os.Supervisor.Run.{Run, ◌>>=◌, ◌>>◌, lift, answer, transact}
use maoxx_os.Supervisor.Evidence.{record_runtime_result}
use maoxx_os.Supervisor.Terminal.{
  state_outcome, error_outcome, error_name, health_deadline_seconds, cycle_passed, health_anchor,
  is_final,
}
use maoxx_os.Supervisor.Host.{Library, Host}
use maoxx_os.Supervisor.Execute.{
  note, record_result_or_unknown, finish, passed_event, passed_state, conclude_health, judge_health,
  read_journal, health_locked, resolve_state, reconcile_locked, mutation_refused, submit_failed,
  disconnected, load, load_answer, reconcile,
}
use maoxx_os.Supervisor.Takeover.{observe_again, prove_quiescent_takeover, takeover_verdict}
use maoxx_os.Supervisor.Quiet.{
  Quiet, Grows-refl, >>=-Quiet, >>-Quiet, try_run-Quiet, lift-Quiet, append-Quiet, transact-Quiet,
  record_runtime_result-Keeps,
}

pub answer-Quiet : {A : Type 0} (a : A) → Quiet (answer a)
answer-Quiet a w = Grows-refl w

if-Quiet : {A : Type 0} (b : Bool) (m k : Run A) → Quiet m → Quiet k → Quiet (if b then m else k)
if-Quiet true m k q r = q
if-Quiet false m k q r = r

module _ (host : Host) (a : SupervisorAttempt) where
  pub note-Quiet :
      (event : JournalEvent) (outcome : Dict String) → Quiet (note host a event outcome)
  unfolding note
  note-Quiet event outcome = append-Quiet host.clock event a outcome

  pub disconnected-Quiet : Quiet (disconnected host a)
  unfolding disconnected
  disconnected-Quiet =
      >>-Quiet (note host a db_disconnected []) (answer unknown) (note-Quiet db_disconnected [])
        (answer-Quiet unknown)

  record_result_or_unknown-Quiet :
      (state : RuntimeState) (source : String)
      → Quiet (record_result_or_unknown host a state source)
  unfolding record_result_or_unknown disconnected
  record_result_or_unknown-Quiet state source =
      let write = record_runtime_result a state source host.now host.result_id in
      try_run-Quiet (transact host.result_commit write) (λ _. disconnected host a)
        (λ _. answer state)
        (transact-Quiet host.result_commit write
          (record_runtime_result-Keeps a state source host.now host.result_id))
        (λ _. disconnected-Quiet) (λ _. answer-Quiet state)

  finish-Quiet : (state : RuntimeState) (source : String) → Quiet (finish host a state source)
  unfolding finish
  finish-Quiet state source =
      >>-Quiet (note host a attempt_terminal (state_outcome state))
        (record_result_or_unknown host a state source)
        (note-Quiet attempt_terminal (state_outcome state))
        (record_result_or_unknown-Quiet state source)

  conclude_health-Quiet : (passed : Bool) → Quiet (conclude_health host a passed)
  unfolding conclude_health
  conclude_health-Quiet passed =
      >>-Quiet
        (note host a (passed_event host a passed) (state_outcome (passed_state host a passed)))
        (finish host a (passed_state host a passed) "health")
        (note-Quiet (passed_event host a passed) (state_outcome (passed_state host a passed)))
        (finish-Quiet (passed_state host a passed) "health")

  judge_health-Quiet : (anchor : Option Time) → Quiet (judge_health host a anchor)
  unfolding judge_health
  judge_health-Quiet none =
      >>-Quiet (note host a health_failed (error_outcome "health_window_anchor_missing"))
        (finish host a failed "health")
        (note-Quiet health_failed (error_outcome "health_window_anchor_missing"))
        (finish-Quiet failed "health")
  judge_health-Quiet (some completed_at) =
      let deadline = completed_at + seconds health_deadline_seconds in
      try_run-Quiet (lift (host.verify_health deadline))
        (λ e.
          note host a health_failed (error_outcome (error_name e)) >> conclude_health host a false)
        (λ cycle. conclude_health host a (cycle_passed a deadline cycle))
        (lift-Quiet (host.verify_health deadline))
        (λ e.
          >>-Quiet (note host a health_failed (error_outcome (error_name e)))
            (conclude_health host a false) (note-Quiet health_failed (error_outcome (error_name e)))
            (conclude_health-Quiet false))
        (λ cycle. conclude_health-Quiet (cycle_passed a deadline cycle))

  pub read_journal-Quiet : Quiet (read_journal host a)
  unfolding read_journal
  read_journal-Quiet w = lift-Quiet (load_journal a w.journal) w

  pub health_locked-Quiet : Quiet (health_locked host a)
  unfolding health_locked
  health_locked-Quiet =
      >>-Quiet (note host a health_started [])
        (read_journal host a >>= λ rows. judge_health host a (health_anchor rows))
        (note-Quiet health_started [])
        (>>=-Quiet (read_journal host a) (λ rows. judge_health host a (health_anchor rows))
          read_journal-Quiet (λ rows. judge_health-Quiet (health_anchor rows)))

  resolve_state-Quiet : (state : RuntimeState) → Quiet (resolve_state host a state)
  unfolding resolve_state
  resolve_state-Quiet state =
      let unclear =
        >>=-Quiet (record_result_or_unknown host a unknown "reconciliation") (λ _. answer unknown)
          (record_result_or_unknown-Quiet unknown "reconciliation") (λ _. answer-Quiet unknown) in
      if-Quiet (state == mutation_completed_health_unknown) (health_locked host a) _
        health_locked-Quiet
        (if-Quiet (is_final state) (finish host a state "reconciliation") _
          (finish-Quiet state "reconciliation") unclear)

  pub reconcile_locked-Quiet : Quiet (reconcile_locked host a)
  unfolding reconcile_locked
  reconcile_locked-Quiet =
      >>-Quiet (note host a reconciliation_started []) _ (note-Quiet reconciliation_started []) (
        >>=-Quiet (lift host.first_observed) _ (lift-Quiet host.first_observed) (λ snapshot.
          >>-Quiet (note host a reconciliation_result (state_outcome snapshot.state))
            (resolve_state host a snapshot.state)
            (note-Quiet reconciliation_result (state_outcome snapshot.state))
            (resolve_state-Quiet snapshot.state)))

  pub submit_failed-Quiet : (e : Error) → Quiet (submit_failed host a e)
  unfolding submit_failed
  submit_failed-Quiet e =
      if-Quiet (mutation_refused host a e) _ (reconcile_locked host a)
        (>>-Quiet (note host a mutation_failed (error_outcome (error_name e)))
          (finish host a failed "mutation")
          (note-Quiet mutation_failed (error_outcome (error_name e)))
          (finish-Quiet failed "mutation"))
        reconcile_locked-Quiet

module _ (library : Library) (host : Host) (id : Uuid) where
  pub load-Quiet : Quiet (load library host id)
  unfolding load
  load-Quiet w = lift-Quiet (load_answer library host id w.db) w

  pub reconcile-Quiet : Quiet (reconcile library host id)
  unfolding reconcile
  reconcile-Quiet = >>=-Quiet (load library host id) _ load-Quiet (λ a.
      >>=-Quiet (read_journal host a) (λ _. reconcile_locked host a) (read_journal-Quiet host a)
        (λ _. reconcile_locked-Quiet host a))

  observe_again-Quiet :
      (a : SupervisorAttempt) (first : RuntimeSnapshot) → Quiet (observe_again library host a first)
  unfolding observe_again
  observe_again-Quiet a first =
      >>=-Quiet (lift (host.second_observed 10)) _ (lift-Quiet (host.second_observed 10)) (λ second.
        >>-Quiet _ _ (note-Quiet host a _ _)
          (answer-Quiet (takeover_verdict library host first second)))

  pub prove_quiescent_takeover-Quiet : Quiet (prove_quiescent_takeover library host id)
  unfolding prove_quiescent_takeover
  prove_quiescent_takeover-Quiet = >>=-Quiet (load library host id) _ load-Quiet (λ a.
      >>=-Quiet (read_journal host a) _ (read_journal-Quiet host a) (λ _.
        >>-Quiet (note host a reconciliation_started []) _
          (note-Quiet host a reconciliation_started [])
          (>>=-Quiet (lift host.first_observed) _ (lift-Quiet host.first_observed) (λ first.
            if-Quiet (first.docker_client_active || first.transitional) _ _
              (>>-Quiet _ _ (note-Quiet host a _ _) (answer-Quiet false))
              (observe_again-Quiet a first)))))
