-- ===== src/Supervisor/Healthy.antt =====
-- What a health verification of app/services/production_supervisor.py rests on.
use maoxx_os.Prelude.{◌≡◌, refl, List, [], ◌∷◌, some, ok, Time, length, arith}
use maoxx_os.Supervisor.Attempt.{healthy, runtime_state_eq, SupervisorAttempt}
use maoxx_os.Supervisor.Journal.{
  JournalRecord, load_journal, health_started, journal_event_eq, journal_record,
}
use maoxx_os.Supervisor.Run.{World, returned, append}
use maoxx_os.Supervisor.Terminal.{health_anchor}
use maoxx_os.Supervisor.Host.{Host}
use maoxx_os.Supervisor.Execute.{note, health_locked}
use maoxx_os.Supervisor.Verdicts.{told, Verified, OnlyIf, judged_lines}

earlier :
    (r : JournalRecord) (rows : List JournalRecord) (anchor t : Time)
    → health_anchor (r ∷ rows) ≡ some anchor
    → health_anchor rows ≡ some t
    → anchor ≡ t
unfolding health_anchor
earlier r rows anchor t h k = ground arith

module _ (host : Host) (a : SupervisorAttempt) where
  -- A verification that returns HEALTHY has read a passing cycle, which was completed within 120
  -- seconds of the window's anchor. Where the journal has an anchor already, it is the same: no restart
  -- of the supervisor extends the window.
  pub health_locked-Verified :
      (w v : World) (rows : List JournalRecord)
      → load_journal a w.journal ≡ ok rows
      → health_locked host a w ≡ (returned healthy, v)
      → (anchor : Time) × ((t : Time) → health_anchor rows ≡ some t → anchor ≡ t)
        × Verified host a anchor
  unfolding health_locked note append
  health_locked-Verified w v rows read h =
      let now = host.clock (length w.journal) in
      let P =
        (anchor : Time) × ((t : Time) → health_anchor rows ≡ some t → anchor ≡ t)
        × Verified host a anchor in
      told (OnlyIf host a P) (health_locked host a w) healthy v
        (judged_lines host a P rows w.left w read (λ anchor at_it shown. (
          anchor,
          λ t. earlier (journal_record health_started a [] now) rows anchor t at_it,
          shown,
        )))
        h refl
