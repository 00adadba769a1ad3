-- ===== src/Supervisor/Verdicts.antt =====
-- What a verdict of app/services/production_supervisor.py rests on: a deployment that is healthy, and a
-- takeover that is safe.
use maoxx_os.Prelude.{
  subst, zero, suc, ℕ, length, ◌≡◌, ◌≤◌, ◌+◌, ◌⊎◌, inl, inr, refl, Bool, true, false, List, [], ◌∷◌,
  Option, none, some, Result, ok, err, Error, Time, seconds, String, arith, Bool-cases, nat_eq,
  string_eq, option_eq, ==→≡, ◌==◌,
}
use maoxx_os.Policy.Health.{health_checks_are_complete}
use maoxx_os.Supervisor.Attempt.{
  RuntimeState, healthy, failed, unknown, runtime_state_eq, SupervisorAttempt, HealthCycle,
}
use maoxx_os.Supervisor.Journal.{
  JournalRecord, row, load_journal, journal_record, health_started, health_failed, attempt_terminal,
  db_disconnected, journal_event_eq,
}
use maoxx_os.Supervisor.Run.{
  World, Outcome, stopped, raised, returned, Run, continue, handle, ◌>>=◌, ◌>>◌, lift, answer,
  append_left, transact,
}
use maoxx_os.Supervisor.Terminal.{
  health_anchor, health_deadline_seconds, cycle_passed, attempt_services, state_outcome,
  error_outcome, error_name,
}
use maoxx_os.Supervisor.Host.{Host}
use maoxx_os.Supervisor.Lines.{load-own}
use maoxx_os.Supervisor.Evidence.{record_runtime_result}
use maoxx_os.Supervisor.Execute.{
  note, record_result_or_unknown, finish, passed_event, passed_state, conclude_health, judge_health,
  read_journal,
}

abbrev pub Told : {A : Type 0} → (A → Type 0) → Outcome A → Type 0
Told Q stopped = Unit
Told Q (raised e) = Unit
Told Q (returned a) = Q a

-- What holds of every value that a call returns.
abbrev pub Returns : {A : Type 0} → (A → Type 0) → Run A → Type 0
Returns Q m = (w : World) → Told Q (m w).0

pub continue-Told :
    {A B : Type 0} (Q : B → Type 0) (f : A → Run B)
    → ((a : A) → Returns Q (f a))
    → (p : Outcome A × World) → Told Q (continue f p).0
continue-Told Q f r (stopped, w) = tt
continue-Told Q f r (raised e, w) = tt
continue-Told Q f r (returned a, w) = r a w

pub handle-Told :
    {A B : Type 0} (Q : B → Type 0) (f : A → Run B) (h : Error → Run B)
    → ((e : Error) → Returns Q (h e))
    → ((a : A) → Returns Q (f a))
    → (p : Outcome A × World) → Told Q (handle f h p).0
handle-Told Q f h s r (stopped, w) = tt
handle-Told Q f h s r (raised e, w) = s e w
handle-Told Q f h s r (returned a, w) = r a w

pub after-Returns :
    {A B : Type 0} (Q : B → Type 0) (m : Run A) (f : A → Run B)
    → ((a : A) → Returns Q (f a))
    → Returns Q (m >>= f)
after-Returns Q m f r w = continue-Told Q f r (m w)

pub told :
    {A : Type 0} (Q : A → Type 0) (p : Outcome A × World) (a : A) (v : World)
    → Told Q p.0
    → p ≡ (returned a, v)
    → Q a
told Q (stopped, w) a v t h = absurd (cc)
told Q (raised e, w) a v t h = absurd (cc)
told Q (returned b, w) a v t h = let same : b ≡ a = cc in subst Q same t

-- What a cycle shows of an attempt within a window that starts at `anchor`.
pub record ShowsHealthy (a : SupervisorAttempt) (anchor : Time) (cycle : HealthCycle) : Type 0 where
  pub complete : health_checks_are_complete (attempt_services a) cycle.checks ≡ true
  pub digest : cycle.observed_digest ≡ a.artifact_digest
  pub sha : cycle.observed_sha ≡ a.target_sha
  pub migration :
      (a.expected_migration_revision ≡ none)
      ⊎ (cycle.migration_revision ≡ a.expected_migration_revision)
  pub in_time : cycle.completed_at ≤ anchor + 120000000

pub cycle_passed-ShowsHealthy :
    (a : SupervisorAttempt) (anchor : Time) (cycle : HealthCycle)
    → cycle_passed a (anchor + seconds health_deadline_seconds) cycle ≡ true
    → ShowsHealthy a anchor cycle
unfolding cycle_passed
cycle_passed-ShowsHealthy a anchor cycle h = record {
  complete = ground arith;
  digest = ==→≡ cycle.observed_digest a.artifact_digest (ground arith);
  sha = ==→≡ cycle.observed_sha a.target_sha (ground arith);
  migration = elim (Bool-cases (a.expected_migration_revision == none)) [
    | inl not_asked ↦ inl (==→≡ a.expected_migration_revision none not_asked)
    | inr asked ↦ inr (==→≡ cycle.migration_revision a.expected_migration_revision (ground arith))
  ];
  in_time = ground arith;
}

-- The verdict of a window that starts at `anchor`.
pub record Verified (host : Host) (a : SupervisorAttempt) (anchor : Time) : Type 0 where
  pub cycle : HealthCycle
  pub answered : host.verify_health (anchor + 120000000) ≡ ok cycle
  pub shows : ShowsHealthy a anchor cycle

module _ (host : Host) (a : SupervisorAttempt) where
  -- A state is healthy only where `P` holds.
  abbrev pub OnlyIf : Type 0 → RuntimeState → Type 0
  OnlyIf P state = (state ≡ healthy) → P

  pub result-OnlyIf :
      (P : Type 0) (state : RuntimeState) (source : String)
      → OnlyIf P state
      → Returns (OnlyIf P) (record_result_or_unknown host a state source)
  unfolding record_result_or_unknown
  result-OnlyIf P state source only w =
      handle-Told (OnlyIf P) (λ (_ : Unit {0}). answer state)
        (λ _. note host a db_disconnected [] >> answer unknown)
        (λ _.
          after-Returns (OnlyIf P) (note host a db_disconnected []) (λ _. answer unknown)
            (λ _ _ h. cc))
        (λ _ _. only)
        (transact host.result_commit (record_runtime_result a state source host.now host.result_id)
          w)

  pub finish-OnlyIf :
      (P : Type 0) (state : RuntimeState) (source : String)
      → OnlyIf P state
      → Returns (OnlyIf P) (finish host a state source)
  unfolding finish
  finish-OnlyIf P state source only =
      after-Returns (OnlyIf P) (note host a attempt_terminal (state_outcome state)) _
        (λ _. result-OnlyIf P state source only)

  conclude-OnlyIf :
      (P : Type 0) (passed : Bool)
      → OnlyIf P (passed_state host a passed)
      → Returns (OnlyIf P) (conclude_health host a passed)
  unfolding conclude_health
  conclude-OnlyIf P passed only =
      after-Returns (OnlyIf P) (note host a (passed_event host a passed) _) _
        (λ _. finish-OnlyIf P (passed_state host a passed) "health" only)

  passed-OnlyIf :
      (P : Type 0) (passed : Bool) → (passed ≡ true → P) → OnlyIf P (passed_state host a passed)
  passed-OnlyIf P true p _ = p refl
  passed-OnlyIf P false p h = absurd (cc)

  judged :
      (P : Type 0) (anchor : Time) (answer : Result HealthCycle)
      → (Verified host a anchor → P)
      → host.verify_health (anchor + seconds health_deadline_seconds) ≡ answer
      → (w : World)
      → Told
          (OnlyIf P)
          (handle
            (λ cycle.
              conclude_health host a
                (cycle_passed a (anchor + seconds health_deadline_seconds) cycle))
            (λ e.
              note host a health_failed (error_outcome (error_name e))
              >> conclude_health host a false)
            (lift answer w)).0
  judged P anchor (err e) p h w =
      after-Returns (OnlyIf P) (note host a health_failed (error_outcome (error_name e)))
        (λ _. conclude_health host a false) (λ _. conclude-OnlyIf P false (λ s. absurd (cc))) w
  judged P anchor (ok cycle) p h w =
      let passed = cycle_passed a (anchor + seconds health_deadline_seconds) cycle in
      conclude-OnlyIf P passed
        (passed-OnlyIf P passed (λ shown. p (record {
          cycle = cycle;
          answered = h;
          shows = cycle_passed-ShowsHealthy a anchor cycle shown;
        })))
        w

  pub judge-OnlyIf :
      (P : Type 0) (o : Option Time)
      → ((anchor : Time) → o ≡ some anchor → Verified host a anchor → P)
      → Returns (OnlyIf P) (judge_health host a o)
  unfolding judge_health
  judge-OnlyIf P none p =
      after-Returns (OnlyIf P) (note host a health_failed _) (λ _. finish host a failed "health")
        (λ _. finish-OnlyIf P failed "health" (λ s. absurd (cc)))
  judge-OnlyIf P (some anchor) p =
      judged P anchor (host.verify_health (anchor + seconds health_deadline_seconds))
        (p anchor refl) refl

  -- Behind `HEALTH_STARTED`, where the file was readable before.
  pub judged_lines :
      (P : Type 0) (rows : List JournalRecord) (left : ℕ) (w : World)
      → load_journal a w.journal ≡ ok rows
      → ((anchor : Time)
          → health_anchor
              (journal_record health_started a [] (host.clock (length w.journal)) ∷ rows)
            ≡ some anchor
          → Verified host a anchor
          → P)
      → Told
          (OnlyIf P)
          (continue
            (λ (_ : Unit {0}).
              read_journal host a >>= λ rows. judge_health host a (health_anchor rows))
            (append_left
              (journal_record health_started a [] (host.clock (length w.journal)))
              left
              w)).0
  unfolding read_journal
  judged_lines P rows zero w h p = tt
  judged_lines P rows (suc n) w h p =
      let now = host.clock (length w.journal) in
      rw (load-own a health_started [] now w.journal rows h) (
        judge-OnlyIf P (health_anchor (journal_record health_started a [] now ∷ rows)) p (record w {
          journal = row (journal_record health_started a [] now) ∷ w.journal;
          left = n;
        }))
