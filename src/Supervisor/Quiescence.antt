-- ===== src/Supervisor/Quiescence.antt =====
-- What a takeover rests on that `prove_quiescent_takeover` of app/services/production_supervisor.py calls
-- safe.
use maoxx_os.Prelude.{
  ◌≡◌, ◌≢◌, refl, Bool, true, false, [], Result, ok, err, Uuid, Bool-cases, inl, inr, ◌||◌,
  ||-false, arith, ==→≡, string_eq, subst, ◌==◌, if◌then◌else◌,
}
use maoxx_os.Supervisor.Attempt.{
  RuntimeState, RuntimeState-discrete, runtime_state_eq, in_progress, unknown, not_started,
  mutation_completed_health_unknown, healthy, failed, SupervisorAttempt, RuntimeSnapshot,
}
use maoxx_os.Supervisor.Journal.{reconciliation_started, reconciliation_result}
use maoxx_os.Supervisor.Run.{World, Outcome, returned, ◌>>=◌, ◌>>◌, lift, answer}
use maoxx_os.Supervisor.Terminal.{state_outcome, is_final}
use maoxx_os.Supervisor.Fingerprint.{stable_fingerprint}
use maoxx_os.Supervisor.Host.{Library, Host}
use maoxx_os.Supervisor.Execute.{note, read_journal, load}
use maoxx_os.Supervisor.Takeover.{
  takeover_safe, takeover_verdict, observe_again, prove_quiescent_takeover,
}
use maoxx_os.Supervisor.Quiet.{Grows}
use maoxx_os.Supervisor.Calls.{prove_quiescent_takeover-Quiet}
use maoxx_os.Supervisor.Verdicts.{Returns, after-Returns, told}

-- No Docker client runs, and no container is in transition.
abbrev pub IsAtRest : RuntimeSnapshot → Type 0
IsAtRest s = (s.docker_client_active ≡ false) × (s.transitional ≡ false)

pub record Quiescent (library : Library) (host : Host) : Type 0 where
  pub first : RuntimeSnapshot
  pub second : RuntimeSnapshot
  pub observed_first : host.first_observed ≡ ok first
  pub observed_second : host.second_observed 10 ≡ ok second
  pub first_rests : IsAtRest first
  pub second_rests : IsAtRest second
  pub same_fingerprint :
      stable_fingerprint library.hashing library.fingerprint_dumps first
      ≡ stable_fingerprint library.hashing library.fingerprint_dumps second
  pub no_events : host.events_between ≡ false
  pub decided : (second.state ≢ in_progress) × (second.state ≢ unknown)

decided_lem :
    (s : RuntimeState)
    → (is_final s || s == not_started || s == mutation_completed_health_unknown) ≡ true
    → (s ≢ in_progress) × (s ≢ unknown)
unfolding RuntimeState-discrete
decided_lem in_progress h = absurd (cc)
decided_lem unknown h = absurd (cc)
decided_lem not_started h = (λ p. cc, λ p. cc)
decided_lem mutation_completed_health_unknown h = (λ p. cc, λ p. cc)
decided_lem failed h = (λ p. cc, λ p. cc)
decided_lem healthy h = (λ p. cc, λ p. cc)

safe_parts :
    (first second : RuntimeSnapshot) (same events : Bool)
    → takeover_safe first second same events ≡ true
    → IsAtRest second
      × (same ≡ true)
      × (events ≡ false)
      × ((is_final second.state
            || second.state == not_started
            || second.state == mutation_completed_health_unknown)
          ≡ true)
unfolding takeover_safe
safe_parts first second same events h = ground arith

module _ (library : Library) (host : Host) where
  abbrev Proves : Bool → Type 0
  Proves b = b ≡ true → Quiescent library host

  verdict_lem :
      (first second : RuntimeSnapshot)
      → host.first_observed ≡ ok first
      → host.second_observed 10 ≡ ok second
      → IsAtRest first
      → Proves (takeover_verdict library host first second)
  unfolding takeover_verdict
  verdict_lem first second h k rests safe =
      let print = stable_fingerprint library.hashing library.fingerprint_dumps in
      let (rests', same, quiet, known) =
        safe_parts first second (print first == print second) host.events_between safe in
      record {
        first = first;
        second = second;
        observed_first = h;
        observed_second = k;
        first_rests = rests;
        second_rests = rests';
        same_fingerprint = ==→≡ (print first) (print second) same;
        no_events = quiet;
        decided = decided_lem second.state known;
      }

  second_look :
      (a : SupervisorAttempt) (first : RuntimeSnapshot) (o : Result RuntimeSnapshot)
      → host.first_observed ≡ ok first
      → IsAtRest first
      → host.second_observed 10 ≡ o
      → Returns Proves (
          lift o >>= λ second.
          note host a reconciliation_result (
            state_outcome
              (if takeover_verdict library host first second then second.state else unknown))
          >> answer (takeover_verdict library host first second))
  second_look a first (err e) h rests k w = tt
  second_look a first (ok second) h rests k w =
      after-Returns Proves (note host a reconciliation_result _)
        (λ _. answer (takeover_verdict library host first second))
        (λ _ _. verdict_lem first second h k rests) w

  first_look :
      (a : SupervisorAttempt) (o : Result RuntimeSnapshot)
      → host.first_observed ≡ o
      → Returns Proves (
          lift o >>= λ first.
          if first.docker_client_active || first.transitional
          then note host a reconciliation_result (state_outcome unknown) >> answer false
          else observe_again library host a first)
  unfolding observe_again
  first_look a (err e) h w = tt
  first_look a (ok first) h w =
      elim (Bool-cases (first.docker_client_active || first.transitional)) [
        | inl active ↦ rw active (
            after-Returns Proves (note host a reconciliation_result _) (λ _. answer false)
              (λ _ _ p. absurd (cc)) w)
        | inr rests ↦ rw rests (
            second_look a first (host.second_observed 10) h
              (||-false first.docker_client_active first.transitional rests) refl w)
      ]

  looks : (id : Uuid) → Returns Proves (prove_quiescent_takeover library host id)
  unfolding prove_quiescent_takeover
  looks id = after-Returns Proves (load library host id) _ (λ a.
      after-Returns Proves (read_journal host a) _ (λ _.
        after-Returns Proves (note host a reconciliation_started []) _
          (λ _. first_look a host.first_observed refl)))

  -- A takeover that is called safe has observed the runtime twice, the second time behind a sleep of ten
  -- seconds: each time without a Docker client
  -- and without a container in transition, with the same fingerprint and no Docker event between, and
  -- last in a state that is neither in progress nor unknown. The proof itself changes nothing of
  -- Docker.
  pub prove_quiescent_takeover-Quiescent :
      (id : Uuid) (w v : World)
      → prove_quiescent_takeover library host id w ≡ (returned true, v)
      → Quiescent library host × (v.mutations ≡ w.mutations)
  prove_quiescent_takeover-Quiescent id w v h =
      let quiet : Grows w v =
        subst (λ (p : Outcome Bool × World). Grows w p.1) h
          (prove_quiescent_takeover-Quiet library host id w) in
      (
        told Proves (prove_quiescent_takeover library host id w) true v (looks id w) h refl,
        quiet.same_mutations,
      )
