-- ===== src/Supervisor/Journal.antt =====
-- `DurableExecutionJournal` of app/services/production_supervisor.py: the lines of one attempt's
-- file, the newest first.
use maoxx_os.Prelude.{
  ℕ, String, Bool, ◌||◌, List, [], ◌∷◌, Result, ok, err, supervisor_error, raise_if, ◌>>=◌, ◌>>◌,
  any_of, nat_eq, string_eq, ◌!=◌, Uuid, Time, Dict, Eq, discrete_eq, ◌==◌,
}
use maoxx_os.Supervisor.Attempt.{SupervisorAttempt}

pub data JournalEvent : Type 0 where
  attempt_accepted mutation_submitted mutation_completed mutation_failed : JournalEvent
  health_started health_passed health_failed : JournalEvent
  reconciliation_started reconciliation_result db_disconnected attempt_terminal : JournalEvent

unfoldable pub JournalEvent-discrete : Discrete JournalEvent
JournalEvent-discrete = hlevel

instance abbrev pub journal_event_eq : Eq JournalEvent
journal_event_eq = discrete_eq JournalEvent-discrete

pub record JournalRecord : Type 0 where
  pub event : JournalEvent
  pub deployment_id : Uuid
  pub execution_attempt_id : Uuid
  pub fencing_epoch : ℕ
  pub intent_hash : String
  pub timestamp : Time
  pub outcome : Dict String

-- The record that `append` writes.
abbrev pub journal_record : JournalEvent → SupervisorAttempt → Dict String → Time → JournalRecord
journal_record event attempt outcome now = record {
  event = event;
  deployment_id = attempt.deployment_id;
  execution_attempt_id = attempt.execution_attempt_id;
  fencing_epoch = attempt.fencing_epoch;
  intent_hash = attempt.intent_hash;
  timestamp = now;
  outcome = outcome;
}

unfoldable pub binding_mismatch : SupervisorAttempt → JournalRecord → Bool
binding_mismatch attempt row =
    row.deployment_id != attempt.deployment_id
    || row.execution_attempt_id != attempt.execution_attempt_id
    || row.fencing_epoch != attempt.fencing_epoch
    || row.intent_hash != attempt.intent_hash

-- A line of the file: the JSON of a record, or what is none, such as a line that a crash cut short.
pub data JournalLine : Type 0 where
  row : JournalRecord → JournalLine
  unreadable : JournalLine

-- The loop's body, at the rows that were read before.
unfoldable pub read_line :
    SupervisorAttempt → JournalLine → List JournalRecord → Result (List JournalRecord)
read_line attempt unreadable rows = err (supervisor_error "journal_corrupt")
read_line attempt (row r) rows =
    raise_if (binding_mismatch attempt r) (supervisor_error "journal_binding_mismatch")
    >> ok (r ∷ rows)

-- `load`
unfoldable pub load_journal : SupervisorAttempt → List JournalLine → Result (List JournalRecord)
load_journal attempt [] = ok []
load_journal attempt (line ∷ older) =
    load_journal attempt older >>= λ rows. read_line attempt line rows

-- `event in events`
unfoldable pub has_event : JournalEvent → List JournalRecord → Bool
has_event event rows = any_of (λ row. row.event == event) rows
