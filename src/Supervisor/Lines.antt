-- ===== src/Supervisor/Lines.antt =====
-- Reading back the journal of app/services/production_supervisor.py.
use maoxx_os.Prelude.{
  ◌≡◌, refl, ap, not, false, List, ◌∷◌, ok, ==_refl, nat_eq, string_eq, String, Time, Dict,
}
use maoxx_os.Supervisor.Attempt.{SupervisorAttempt}
use maoxx_os.Supervisor.Journal.{
  JournalEvent, JournalRecord, JournalLine, row, journal_record, binding_mismatch, read_line,
  load_journal,
}

module _ (a : SupervisorAttempt) where
  own_record :
      (event : JournalEvent) (outcome : Dict String) (now : Time)
      → binding_mismatch a (journal_record event a outcome now) ≡ false
  unfolding binding_mismatch
  own_record event outcome now =
      rw (==_refl a.deployment_id, ==_refl a.execution_attempt_id, ==_refl a.fencing_epoch)
        (ap not (==_refl a.intent_hash))

  pub load-own :
      (event : JournalEvent) (outcome : Dict String) (now : Time) (lines : List JournalLine)
      (rows : List JournalRecord)
      → load_journal a lines ≡ ok rows
      → load_journal a (row (journal_record event a outcome now) ∷ lines)
        ≡ ok (journal_record event a outcome now ∷ rows)
  unfolding load_journal read_line
  load-own event outcome now lines rows h = rw (h, own_record event outcome now) refl
