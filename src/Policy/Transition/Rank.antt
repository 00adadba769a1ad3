-- ===== src/Policy/Transition/Rank.antt =====
-- The state diagram of `require_transition`, app/services/deployment_policy.py, as a relation, and the
-- distance of each state from the start.
use maoxx_os.Prelude.{ℕ, suc, ◌≡◌, refl, ◌↔◌, Option, none, some, ok, true, arith, elem, ==→≡}
use maoxx_os.Policy.Transition.{
  DeploymentState, intent_created, artifact_recorded, staging_deploying, staging_validated,
  staging_failed, production_approval_pending, production_deploying, production_healthy,
  production_failed, rollback_approval_pending, rollback_deploying, rolled_back, rollback_failed,
  DeploymentState-discrete, state_eq, deployment_transitions, require_transition,
}

-- The allowed steps, as a relation.
infix 40 ◌⟶◌
pub data ◌⟶◌ : DeploymentState → DeploymentState → Type 0 where
  record_artifact : intent_created ⟶ artifact_recorded
  begin_staging : artifact_recorded ⟶ staging_deploying
  accept_staging : staging_deploying ⟶ staging_validated
  fail_staging : staging_deploying ⟶ staging_failed
  bind_production : staging_validated ⟶ production_approval_pending
  bind_rollback : staging_validated ⟶ rollback_approval_pending
  start_production : production_approval_pending ⟶ production_deploying
  start_rollback : rollback_approval_pending ⟶ rollback_deploying
  production_succeeds : production_deploying ⟶ production_healthy
  production_fails : production_deploying ⟶ production_failed
  rollback_succeeds : rollback_deploying ⟶ rolled_back
  rollback_fails : rollback_deploying ⟶ rollback_failed

pub ruleset edges = (
  record_artifact, begin_staging, accept_staging, fail_staging, bind_production, bind_rollback,
  start_production, start_rollback, production_succeeds, production_fails, rollback_succeeds,
  rollback_fails,
)

abbrev pub rank : DeploymentState → ℕ
rank intent_created = 1
rank artifact_recorded = 2
rank staging_deploying = 3
rank staging_validated = 4
rank staging_failed = 4
rank production_approval_pending = 5
rank rollback_approval_pending = 5
rank production_deploying = 6
rank rollback_deploying = 6
rank _ = 7

passes-elem :
    (f : Option DeploymentState) (t : DeploymentState)
    → require_transition f t ≡ ok tt
    → elem t (deployment_transitions f) ≡ true
unfolding require_transition
passes-elem f t h = ground arith

elem-⟶ : (s t : DeploymentState) → elem t (deployment_transitions (some s)) ≡ true → s ⟶ t
unfolding elem deployment_transitions DeploymentState-discrete
elem-⟶ intent_created artifact_recorded h = record_artifact
elem-⟶ artifact_recorded staging_deploying h = begin_staging
elem-⟶ staging_deploying staging_validated h = accept_staging
elem-⟶ staging_deploying staging_failed h = fail_staging
elem-⟶ staging_validated production_approval_pending h = bind_production
elem-⟶ staging_validated rollback_approval_pending h = bind_rollback
elem-⟶ production_approval_pending production_deploying h = start_production
elem-⟶ rollback_approval_pending rollback_deploying h = start_rollback
elem-⟶ production_deploying production_healthy h = production_succeeds
elem-⟶ production_deploying production_failed h = production_fails
elem-⟶ rollback_deploying rolled_back h = rollback_succeeds
elem-⟶ rollback_deploying rollback_failed h = rollback_fails
elem-⟶ _ _ h = absurd (cc)

⟶-passes : {s t : DeploymentState} → s ⟶ t → require_transition (some s) t ≡ ok tt
unfolding require_transition elem deployment_transitions DeploymentState-discrete
⟶-passes record_artifact = refl
⟶-passes begin_staging = refl
⟶-passes accept_staging = refl
⟶-passes fail_staging = refl
⟶-passes bind_production = refl
⟶-passes bind_rollback = refl
⟶-passes start_production = refl
⟶-passes start_rollback = refl
⟶-passes production_succeeds = refl
⟶-passes production_fails = refl
⟶-passes rollback_succeeds = refl
⟶-passes rollback_fails = refl

-- A step from a recorded state passes exactly when it is an edge of the diagram.
pub require_transition_iff :
    (s t : DeploymentState) → (require_transition (some s) t ≡ ok tt) ↔ (s ⟶ t)
require_transition_iff s t = (λ h. elem-⟶ s t (passes-elem (some s) t h), ⟶-passes)

pub require_transition_initial :
    (t : DeploymentState) → require_transition none t ≡ ok tt → t ≡ intent_created
unfolding elem deployment_transitions
require_transition_initial t h = ==→≡ t intent_created (ground (arith, passes-elem none t h))

-- Each step goes one layer on.
pub ⟶-rank : {s t : DeploymentState} → s ⟶ t → rank t ≡ suc (rank s)
⟶-rank record_artifact = refl
⟶-rank begin_staging = refl
⟶-rank accept_staging = refl
⟶-rank fail_staging = refl
⟶-rank bind_production = refl
⟶-rank bind_rollback = refl
⟶-rank start_production = refl
⟶-rank start_rollback = refl
⟶-rank production_succeeds = refl
⟶-rank production_fails = refl
⟶-rank rollback_succeeds = refl
⟶-rank rollback_fails = refl

abbrev pub IsTerminal : DeploymentState → Type 0
IsTerminal s = (t : DeploymentState) → ¬ (s ⟶ t)

pub production_healthy-IsTerminal : IsTerminal production_healthy
production_healthy-IsTerminal t h = elim h [ ]
