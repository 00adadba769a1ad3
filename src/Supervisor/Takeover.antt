-- ===== src/Supervisor/Takeover.antt =====
-- `prove_quiescent_takeover` of app/services/production_supervisor.py.
use maoxx_os.Supervisor.Fingerprint.{stable_fingerprint}
use maoxx_os.Supervisor.Host.{Library, Host}
use maoxx_os.Supervisor.Terminal.{state_outcome, is_final}
use maoxx_os.Supervisor.Execute.{note, read_journal, load}
use maoxx_os.Prelude.{
  ℕ, Bool, false, not, ◌||◌, ◌&&◌, [], nat_eq, string_eq, option_eq, ◌==◌, Uuid, if◌then◌else◌,
}
use maoxx_os.Supervisor.Attempt.{
  not_started, mutation_completed_health_unknown, unknown, runtime_state_eq, SupervisorAttempt,
  RuntimeSnapshot,
}
use maoxx_os.Supervisor.Journal.{reconciliation_started, reconciliation_result, journal_event_eq}
use maoxx_os.Supervisor.Run.{Run, ◌>>=◌, ◌>>◌, answer, lift}

-- QUIESCENCE_SECONDS
abbrev pub quiescence_seconds : ℕ
quiescence_seconds = 10

unfoldable pub takeover_safe : RuntimeSnapshot → RuntimeSnapshot → Bool → Bool → Bool
takeover_safe first second same_fingerprint events =
    not second.docker_client_active
    && not second.transitional
    && same_fingerprint
    && not events
    && (is_final second.state
        || second.state == not_started
        || second.state == mutation_completed_health_unknown)

module _ (library : Library) (host : Host) where
  open library use {hashing, fingerprint_dumps}

  -- `safe`
  unfoldable pub takeover_verdict : RuntimeSnapshot → RuntimeSnapshot → Bool
  takeover_verdict first second =
      takeover_safe first second
        (stable_fingerprint hashing fingerprint_dumps first
          == stable_fingerprint hashing fingerprint_dumps second)
        host.events_between

  -- The second observation, behind a first one that found no Docker client and nothing in transition.
  unfoldable pub observe_again : SupervisorAttempt → RuntimeSnapshot → Run Bool
  observe_again a first = do
    second ← lift (host.second_observed quiescence_seconds)
    let safe = takeover_verdict first second
    note host a reconciliation_result (state_outcome (if safe then second.state else unknown))
    answer safe

  unfoldable pub prove_quiescent_takeover : Uuid → Run Bool
  prove_quiescent_takeover id = do
    a ← load library host id
    _ ← read_journal host a
    note host a reconciliation_started []
    first ← lift host.first_observed
    if first.docker_client_active || first.transitional
        then note host a reconciliation_result (state_outcome unknown) >> answer false
        else observe_again a first
