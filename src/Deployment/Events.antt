-- ===== src/Deployment/Events.antt =====
-- The state of a deployment: `_latest_state_event` and `_append_state_event` of
-- app/services/deployment_service.py.
pub mod Log
use maoxx_os.Prelude.{
  ℕ, suc, ◌+◌, String, Bool, not, Option, none, some, List, [], ◌∷◌, Result, ok, policy_error,
  raise_if, ◌>>◌, ◌>>=◌, ltb, nat_eq, ◌==◌, Uuid, Time, Payload, if◌then◌else◌,
}
use maoxx_os.Policy.Artifact.{fingerprint_pattern}
use maoxx_os.Policy.Transition.{DeploymentState, require_transition}
use maoxx_os.Tables.{Db, DeploymentStateEvent}

abbrev pub newer : DeploymentStateEvent → Option DeploymentStateEvent → DeploymentStateEvent
newer e none = e
newer e (some f) = if ltb e.sequence f.sequence then f else e

-- `ORDER BY sequence DESC LIMIT 1`
unfoldable pub latest_state_event : Uuid → List DeploymentStateEvent → Option DeploymentStateEvent
latest_state_event d [] = none
latest_state_event d (e ∷ es) =
    let rest = latest_state_event d es in if e.deployment_id == d then some (newer e rest) else rest

abbrev pub state_of : Option DeploymentStateEvent → Option DeploymentState
state_of none = none
state_of (some e) = some e.to_state

abbrev pub next_sequence : Option DeploymentStateEvent → ℕ
next_sequence none = 1
next_sequence (some e) = e.sequence + 1

pub record Transition : Type 0 where
  pub deployment_id : Uuid
  pub to_state : DeploymentState
  pub event_code : String
  pub actor_fingerprint : String
  pub evidence : Payload
  pub occurred_at : Time

abbrev pub next_event : Transition → Uuid → Option DeploymentStateEvent → DeploymentStateEvent
next_event t new_id latest = record {
  id = new_id;
  deployment_id = t.deployment_id;
  sequence = next_sequence latest;
  from_state = state_of latest;
  to_state = t.to_state;
  event_code = t.event_code;
  actor_identity_fingerprint = t.actor_fingerprint;
  evidence = t.evidence;
  occurred_at = t.occurred_at;
}

-- The new rows of the table of events.
unfoldable pub append_state_event :
    Transition → Uuid → List DeploymentStateEvent → Result (List DeploymentStateEvent)
append_state_event t new_id events =
    let latest = latest_state_event t.deployment_id events in
    raise_if (not (fingerprint_pattern t.actor_fingerprint))
      (policy_error "invalid actor fingerprint")
    >> require_transition (state_of latest) t.to_state
    >> ok (next_event t new_id latest ∷ events)
