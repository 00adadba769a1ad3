-- ===== src/Supervisor/Terminal.antt =====
-- What app/services/production_supervisor.py reads from the records of a journal: the terminal state and
-- the anchor of the health window; and how it judges a health cycle.
use maoxx_os.Prelude.{
  ℕ, String, Bool, false, ◌||◌, ◌&&◌, Option, none, some, List, [], ◌∷◌, map, Result, ok, err,
  Error, supervisor_error, leb, nat_eq, string_eq, option_eq, ◌==◌, Time, Dict, dict_get,
  if◌then◌else◌,
}
use maoxx_os.Policy.Health.{health_checks_are_complete}
use maoxx_os.Supervisor.Attempt.{
  RuntimeState, failed, healthy, unknown, runtime_state_eq, state_text, state_of_text,
  SupervisorAttempt, HealthCycle,
}
use maoxx_os.Supervisor.Journal.{
  JournalRecord, mutation_completed, health_started, db_disconnected, attempt_terminal,
  journal_event_eq,
}

abbrev pub state_outcome : RuntimeState → Dict String
state_outcome s = ("state", state_text s) ∷ []

-- `type(exc).__name__`; the classes of other exceptions are not told apart
unfoldable pub error_name : Error → String
error_name (supervisor_error _) = "SupervisorError"
error_name _ = "Exception"

abbrev pub error_outcome : String → Dict String
error_outcome name = ("error_type", name) ∷ []

-- `scalar_one_or_none` of the newest records: the terminal ones.
unfoldable pub terminal_rows : List JournalRecord → List JournalRecord
terminal_rows [] = []
terminal_rows (r ∷ rows) =
    let rest = terminal_rows rows in if r.event == attempt_terminal then r ∷ rest else rest

-- `RuntimeState(outcome["state"])`
unfoldable pub outcome_state : Option String → Result RuntimeState
outcome_state none = err (supervisor_error "journal_terminal_corrupt")
outcome_state (some t) = elim (state_of_text t) [
  | some s ↦ ok s
  | none ↦ err (supervisor_error "journal_terminal_corrupt")
]

unfoldable pub only_terminal : List JournalRecord → Result RuntimeState
only_terminal (r ∷ []) = outcome_state (dict_get "state" r.outcome)
only_terminal _ = err (supervisor_error "journal_terminal_ambiguous")

-- `records and records[-1]["event"] == DB_DISCONNECTED`
unfoldable pub ends_disconnected : List JournalRecord → Bool
ends_disconnected [] = false
ends_disconnected (r ∷ _) = r.event == db_disconnected

-- `_terminal_state`
unfoldable pub terminal_state : List JournalRecord → Result RuntimeState
terminal_state rows =
    if ends_disconnected rows then ok unknown else only_terminal (terminal_rows rows)

-- The timestamp of the first record of a completed mutation or of a started verification.
unfoldable pub health_anchor : List JournalRecord → Option Time
health_anchor [] = none
health_anchor (r ∷ rows) = elim (health_anchor rows) [
  | some t ↦ some t
  | none ↦
      if r.event == mutation_completed || r.event == health_started then some r.timestamp else none
]

abbrev pub health_deadline_seconds : ℕ
health_deadline_seconds = 120

-- `sorted(attempt.service_images)`, of which the order is not read
abbrev pub attempt_services : SupervisorAttempt → List String
attempt_services a = map (λ kv. kv.0) a.service_images

unfoldable pub cycle_passed : SupervisorAttempt → Time → HealthCycle → Bool
cycle_passed a deadline cycle =
    health_checks_are_complete (attempt_services a) cycle.checks
    && cycle.observed_digest == a.artifact_digest
    && cycle.observed_sha == a.target_sha
    && (a.expected_migration_revision == none
        || cycle.migration_revision == a.expected_migration_revision)
    && leb cycle.completed_at deadline

-- `state in {HEALTHY, FAILED}`
abbrev pub is_final : RuntimeState → Bool
is_final s = s == healthy || s == failed
