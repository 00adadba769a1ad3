-- ===== src/Supervisor/Complete.antt =====
-- The health cycle and the test of it in app/services/production_supervisor.py.
use maoxx_os.Prelude.{
  ℕ, ◌≡◌, ◌≤◌, refl, String, Bool, true, false, ◌&&◌, ◌||◌, none, some, [], ◌∷◌, ok, arith, all_of,
  elem, string_eq, option_eq, nat_eq, ==_refl, Time, Dict, le→leb, Bool-cases, inl, inr, ◌==◌, ==→≡,
}
use maoxx_os.Policy.Health.{
  HealthChecks, required_health_checks, keys, values, subset, health_checks_are_complete, get,
}
use maoxx_os.Supervisor.Attempt.{SupervisorAttempt, HealthCycle}
use maoxx_os.Supervisor.Terminal.{attempt_services, cycle_passed}
use maoxx_os.Supervisor.Compose.{dict_put}
use maoxx_os.Supervisor.Cycle.{
  Probes, first_checks, check_service, check_services, cycle_checks, health_cycle_once,
}

-- The images of an attempt whose services are approved for production; a dict keeps any order.
pub data Served : Dict String → Type 0 where
  api : (i : String) → Served (("api", i) ∷ [])
  worker : (j : String) → Served (("feishu-worker", j) ∷ [])
  api_first : (i j : String) → Served (("api", i) ∷ ("feishu-worker", j) ∷ [])
  worker_first : (i j : String) → Served (("feishu-worker", j) ∷ ("api", i) ∷ [])

get-same : (k : String) (v : Bool) (d : HealthChecks) → get k (dict_put k v d) ≡ some v
unfolding get dict_put
get-same k v [] = rw (==_refl k) refl
get-same k v ((j, u) ∷ d) = elim (Bool-cases (k == j)) [
  | inl here ↦ rw here (rw (==_refl k) refl)
  | inr later ↦ rw later (rw later (get-same k v d))
]

get-other :
    (k j : String) (v : Bool) (d : HealthChecks)
    → (k == j) ≡ false
    → get k (dict_put j v d) ≡ get k d
unfolding get dict_put
get-other k j v [] h = rw h refl
get-other k j v ((i, u) ∷ d) h = elim (Bool-cases (j == i)) [
  | inl here ↦ let same = ==→≡ j i here in rw here (rw (← same, h) refl)
  | inr later ↦ rw later (ground (arith, get-other k j v d h))
]

get-true :
    (k : String) (d : HealthChecks) (b : Bool)
    → all_of (λ v. v) (values d) ≡ true
    → get k d ≡ some b
    → b ≡ true
unfolding get values all_of
get-true k [] b h g = cc
get-true k ((j, v) ∷ d) b h g = ground (arith, get-true k d b)

module _ (int_text : ℕ → String) (p : Probes) where
  -- An attempt at these images.
  abbrev with_images : SupervisorAttempt → Dict String → SupervisorAttempt
  with_images a images = record a { service_images = images }

  abbrev EndsWithRequired : SupervisorAttempt → Time → Type 0
  EndsWithRequired a deadline =
      let ks = keys (cycle_checks int_text a p deadline) in
      let required = required_health_checks (attempt_services a) in
      (subset ks required && subset required ks) ≡ true

  required_keys :
      (a : SupervisorAttempt) (images : Dict String) (deadline : Time)
      → Served images
      → EndsWithRequired (with_images a images) deadline
  unfolding keys cycle_checks check_services check_service dict_put first_checks
      required_health_checks elem subset all_of
  required_keys a _ deadline (api i) = refl
  required_keys a _ deadline (worker j) = refl
  required_keys a _ deadline (api_first i j) = refl
  required_keys a _ deadline (worker_first i j) = refl

  once_lem :
      (a : SupervisorAttempt) (deadline : Time) (c : HealthCycle)
      → health_cycle_once int_text a p deadline ≡ ok c
      → (all_of (λ v. v) (values (cycle_checks int_text a p deadline)) ≡ true)
        × (c.checks ≡ cycle_checks int_text a p deadline)
        × (c.observed_digest ≡ a.artifact_digest)
        × (c.observed_sha ≡ a.target_sha)
        × (c.migration_revision ≡ p.migration)
  unfolding health_cycle_once
  once_lem a deadline c h = ground arith

  migrated :
      (a : SupervisorAttempt) (deadline : Time)
      → all_of (λ v. v) (values (cycle_checks int_text a p deadline)) ≡ true
      → (a.expected_migration_revision == none || p.migration == a.expected_migration_revision)
        ≡ true
  unfolding cycle_checks
  migrated a deadline h = get-true "migration" (cycle_checks int_text a p deadline) _ h (
      rw
        (
          get-other "migration" "verification_within_timeout" _ _ refl,
          get-other "migration" "critical_regression" _ _ refl,
          get-other "migration" "smoke" _ _ refl,
        )
        (get-same "migration" _ _))

  -- A cycle that is returned, of an attempt whose services are approved, passes the test of
  -- `_health_locked` if it was completed by the deadline: it answers exactly the required checks, each
  -- with true, for the attempt's digest, commit and migration.
  pub health_cycle_once-cycle_passed :
      (a : SupervisorAttempt) (deadline : Time) (c : HealthCycle)
      → Served a.service_images
      → health_cycle_once int_text a p deadline ≡ ok c
      → c.completed_at ≤ deadline
      → cycle_passed a deadline c ≡ true
  unfolding cycle_passed health_checks_are_complete
  health_cycle_once-cycle_passed a deadline c served h in_time =
      let (all, checks, digest, sha, migration) = once_lem a deadline c h in
      let required : EndsWithRequired a deadline =
        required_keys a a.service_images deadline served in
      let right = migrated a deadline all in
      let early = le→leb c.completed_at deadline in_time in
      rw (checks, digest, sha, migration, ==_refl a.artifact_digest, ==_refl a.target_sha)
        (ground (arith, required, all, right, early))
