-- ===== src/Supervisor/Deployed.antt =====
-- The supervisor of app/services/production_supervisor.py with its Docker Compose runtime.
use maoxx_os.Prelude.{
  ℕ, ◌+◌, ◌≡◌, ◌≢◌, String, Bool, false, Option, none, some, List, [], ◌∷◌, ok, Uuid, Time, arith,
  sym, ◌∙◌, Dict,
}
use maoxx_os.Supervisor.Attempt.{healthy, SupervisorAttempt, HealthCycle, Container}
use maoxx_os.Supervisor.Journal.{
  JournalRecord, JournalLine, load_journal, has_event, attempt_terminal,
}
use maoxx_os.Supervisor.Run.{World, returned}
use maoxx_os.Supervisor.Host.{Library, Host}
use maoxx_os.Supervisor.Compose.{PsRow, classify, observe}
use maoxx_os.Supervisor.Cycle.{Probes, health_cycle_once}
use maoxx_os.Supervisor.Polling.{verify_health, poll-ok}
use maoxx_os.Supervisor.Execute.{load_answer, execute}
use maoxx_os.Supervisor.Verdicts.{ShowsHealthy}
use maoxx_os.Supervisor.Anchored.{AnchorAt, Cause, verified, observed, execute-Cause}

module _ (int_text : ℕ → String) (lower : String → String) where
  classify_lem :
      (a : SupervisorAttempt) (selected : Dict Container)
      → classify int_text lower a selected ≢ healthy
  unfolding classify
  classify_lem a [] h = cc
  classify_lem a (c ∷ cs) h = ground arith

  -- Docker is never observed to be healthy: that is for the health cycle to find.
  observe_lem :
      (a : SupervisorAttempt) (listed : Option (List PsRow)) (inspect : String → Option Container)
      (client_active : Bool) (now : Time)
      → (observe int_text lower a listed inspect client_active now).state ≢ healthy
  unfolding observe
  observe_lem a none inspect client_active now h = cc
  observe_lem a (some rows) inspect client_active now h = classify_lem a _ h

  -- A host that answers as the Docker Compose runtime does, at any output of the commands.
  pub record IsCompose (host : Host) (a : SupervisorAttempt) : Type 0 where
    pub listed : Option (List PsRow)
    pub inspect : String → Option Container
    pub client_active : Bool
    pub observed_at : Time
    pub observes :
        host.first_observed ≡ ok (observe int_text lower a listed inspect client_active observed_at)
    pub probes : ℕ → Probes
    pub started : Time
    pub took : ℕ → Time
    pub sleep : ℕ → Time → Time → Time
    pub verifies :
        (deadline : Time) (c : HealthCycle)
        → host.verify_health deadline ≡ ok c
        → verify_health
            (λ i. health_cycle_once int_text a (probes i) deadline)
            took
            sleep
            deadline
            started
            25
          ≡ some (ok c)

  module _ (host : Host) (a : SupervisorAttempt) (compose : IsCompose host a) where
    cause_lem :
        (lines : List JournalLine)
        → Cause host a lines
        → (anchor : Time) × AnchorAt a anchor lines
          × (j : ℕ) × (c : HealthCycle) × (health_cycle_once int_text a
                (compose.probes j)
                (anchor + 120000000)
              ≡ ok c)
          × ShowsHealthy a anchor c
    unfolding verify_health
    cause_lem lines (observed s h state) = absurd (
        observe_lem a compose.listed compose.inspect compose.client_active compose.observed_at (
          let same : ok (
                observe int_text lower a compose.listed compose.inspect compose.client_active
                  compose.observed_at)
              ≡ ok s =
            sym compose.observes ∙ h in
          cc))
    cause_lem lines (verified anchor at_it v) =
        let deadline = anchor + 120000000 in
        let (j, h) =
          poll-ok (λ i. health_cycle_once int_text a (compose.probes i) deadline) compose.took
            compose.sleep deadline 25 0 compose.started none v.cycle
            (compose.verifies deadline v.cycle v.answered) in
        (anchor, at_it, j, v.cycle, h, v.shows)

    -- The supervisor with its Docker Compose runtime: an execution of an attempt without a terminal
    -- record returns HEALTHY only where one of the polled cycles was run to its end and shows the
    -- attempt's digest, commit and migration and every required check to be true, within 120 seconds of
    -- the anchor that the journal it leaves gives for the window. What Docker is observed to be never suffices.
    pub execute-ShowsHealthy :
        (library : Library) (id : Uuid) (w v : World) (rows : List JournalRecord)
        → load_answer library host id w.db ≡ ok a
        → load_journal a w.journal ≡ ok rows
        → has_event attempt_terminal rows ≡ false
        → execute library host id w ≡ (returned healthy, v)
        → (anchor : Time) × AnchorAt a anchor v.journal
          × (j : ℕ) × (c : HealthCycle) × (health_cycle_once int_text a
                (compose.probes j)
                (anchor + 120000000)
              ≡ ok c)
          × ShowsHealthy a anchor c
    execute-ShowsHealthy library id w v rows loaded read unended h =
        cause_lem v.journal (execute-Cause library host id w v a rows loaded read unended h)
