-- ===== src/Policy/Transition.antt =====
-- The states of a deployment, and `require_transition` of app/services/deployment_policy.py. The
-- callers pass the state names as literals, so the names are an enumeration; `none` is
-- INITIAL_STATE.
pub mod Rank
use maoxx_os.Prelude.{
  Option, none, some, List, [], ◌∷◌, Result, policy_error, raise_if, not, elem, Eq, discrete_eq,
}

pub data DeploymentState : Type 0 where
  intent_created artifact_recorded staging_deploying staging_validated staging_failed :
      DeploymentState
  production_approval_pending production_deploying production_healthy production_failed :
      DeploymentState
  rollback_approval_pending rollback_deploying rolled_back rollback_failed : DeploymentState

unfoldable pub DeploymentState-discrete : Discrete DeploymentState
DeploymentState-discrete = hlevel

instance abbrev pub state_eq : Eq DeploymentState
state_eq = discrete_eq DeploymentState-discrete

-- DEPLOYMENT_TRANSITIONS, with `.get(key, frozenset())`
unfoldable pub deployment_transitions : Option DeploymentState → List DeploymentState
deployment_transitions none = intent_created ∷ []
deployment_transitions (some intent_created) = artifact_recorded ∷ []
deployment_transitions (some artifact_recorded) = staging_deploying ∷ []
deployment_transitions (some staging_deploying) = staging_validated ∷ staging_failed ∷ []
deployment_transitions (some staging_validated) =
    production_approval_pending ∷ rollback_approval_pending ∷ []
deployment_transitions (some production_approval_pending) = production_deploying ∷ []
deployment_transitions (some production_deploying) = production_healthy ∷ production_failed ∷ []
deployment_transitions (some rollback_approval_pending) = rollback_deploying ∷ []
deployment_transitions (some rollback_deploying) = rolled_back ∷ rollback_failed ∷ []
deployment_transitions (some _) = []

unfoldable pub require_transition : Option DeploymentState → DeploymentState → Result (Unit {0})
require_transition from_state to_state =
    raise_if (not (elem to_state (deployment_transitions from_state)))
      (policy_error "illegal deployment transition")
