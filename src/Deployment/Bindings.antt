-- ===== src/Deployment/Bindings.antt =====
-- `create_bound_production_approval`, `bind_production_approval` and `create_rollback_link` of
-- app/services/deployment_service.py. `raced` holds the approval requests that other transactions
-- commit between the query of the key and the flush.
use maoxx_os.Prelude.{
  ℕ, ◌+◌, String, Bool, not, ◌||◌, Option, none, some, List, [], ◌∷◌, ◌++◌, Result, ok, err,
  policy_error, gate_error, integrity_error, no_result_found, raise_if, or_raise, ◌>>=◌, ◌>>◌, find,
  any_of, ltb, nat_eq, string_eq, option_eq, ◌==◌, ◌!=◌, Uuid, uuid_text, Time, seconds, text,
  Hashing, if◌then◌else◌,
}
use maoxx_os.Policy.Artifact.{sha_pattern}
use maoxx_os.Policy.Transition.{
  DeploymentState, production_approval_pending, rollback_approval_pending, production_failed,
  state_eq,
}
use maoxx_os.Tables.{
  Db, DeploymentIntent, DeploymentArtifact, ApprovalRequest, DeploymentApprovalBinding,
  DeploymentRollback,
}
use maoxx_os.Approval.Patterns.{idempotency_key_pattern}
use maoxx_os.Approval.Fields.{is_none}
use maoxx_os.Approval.Requests.{request_of_id, request_of_key, request_conflicts}
use maoxx_os.Deployment.Authority.{resolve_human_identity, human_fingerprint}
use maoxx_os.Deployment.Events.{Transition, latest_state_event, state_of, append_state_event}
use maoxx_os.Deployment.Intents.{intent_of_id}
use maoxx_os.Deployment.Artifacts.{artifact_of}

unfoldable pub binding_of : Uuid → List DeploymentApprovalBinding → Option DeploymentApprovalBinding
binding_of d = find (λ b. b.deployment_id == d)

pub record BindingCall : Type 0 where
  pub deployment_id : Uuid
  pub idempotency_key : String
  pub ttl_seconds : ℕ

-- The ids that are drawn for the request, the binding and the event.
pub record BindingIds : Type 0 where
  pub request_id : Uuid
  pub binding_id : Uuid
  pub event_id : Uuid

abbrev pub bound_request : BindingCall → DeploymentIntent → Time → Uuid → ApprovalRequest
bound_request c intent now new_id = record {
  id = new_id;
  user_id = intent.user_id;
  action_code = intent.action_code;
  repository = intent.repository;
  pull_request_number = none;
  target_sha = intent.target_sha;
  target_environment = "production";
  deployment_id = some intent.id;
  artifact_digest = some intent.artifact_digest;
  idempotency_key = c.idempotency_key;
  requested_at = now;
  expires_at = now + seconds c.ttl_seconds;
  card_message_id = none;
}

abbrev pub new_binding :
    BindingCall → DeploymentIntent → String → Uuid → Uuid → DeploymentApprovalBinding
new_binding c intent fingerprint request_id new_id = record {
  id = new_id;
  deployment_id = c.deployment_id;
  approval_request_id = request_id;
  repository = intent.repository;
  target_sha = intent.target_sha;
  target_environment = intent.target_environment;
  action_code = intent.action_code;
  artifact_digest = intent.artifact_digest;
  requester_identity_fingerprint = fingerprint;
  requester_user_id = intent.user_id;
}

unfoldable pub pending_state : DeploymentIntent → DeploymentState
pending_state intent =
    if intent.intent_kind == "deploy"
    then production_approval_pending
    else rollback_approval_pending

abbrev pub bound_transition : BindingCall → DeploymentIntent → String → Uuid → Time → Transition
bound_transition c intent fingerprint request_id now = record {
  deployment_id = c.deployment_id;
  to_state = pending_state intent;
  event_code = "approval_bound";
  actor_fingerprint = fingerprint;
  evidence =
      ("approval_request_id", text (uuid_text request_id))
      ∷ ("deployment_id", text (uuid_text intent.id))
      ∷ ("artifact_digest", text intent.artifact_digest)
      ∷ [];
  occurred_at = now;
}

-- The primary key and the two unique keys of the table.
unfoldable pub binding_conflicts : DeploymentApprovalBinding → List DeploymentApprovalBinding → Bool
binding_conflicts b = any_of (λ a.
    a.id == b.id
    || a.deployment_id == b.deployment_id
    || a.approval_request_id == b.approval_request_id)

-- The rows that a new binding writes.
unfoldable pub insert_binding :
    BindingCall
    → DeploymentIntent
    → String
    → Time
    → BindingIds
    → List ApprovalRequest
    → Db
    → Result ((ApprovalRequest × DeploymentApprovalBinding) × Db)
insert_binding c intent fingerprint now ids raced db =
    let request = bound_request c intent now ids.request_id in
    let requests = raced ++ db.approval_requests in
    let binding = new_binding c intent fingerprint ids.request_id ids.binding_id in
    raise_if (request_conflicts request requests) integrity_error
    >> append_state_event (bound_transition c intent fingerprint ids.request_id now) ids.event_id
        db.deployment_state_events
    >>= λ events.
        raise_if (binding_conflicts binding db.deployment_approval_bindings) integrity_error
        >> ok (
          (request, binding),
          record db {
            approval_requests = request ∷ requests;
            deployment_approval_bindings = binding ∷ db.deployment_approval_bindings;
            deployment_state_events = events;
          },
        )

-- By the binding of the deployment, where there is one.
unfoldable pub reuse_or_bind :
    BindingCall
    → DeploymentIntent
    → String
    → Time
    → BindingIds
    → List ApprovalRequest
    → Db
    → Option DeploymentApprovalBinding
    → Result ((ApprovalRequest × DeploymentApprovalBinding) × Db)
reuse_or_bind c intent fingerprint now ids raced db (some existing) =
    or_raise (request_of_id existing.approval_request_id db.approval_requests) no_result_found
    >>= λ request.
        raise_if (request.idempotency_key != c.idempotency_key)
          (gate_error "approval_binding_replay_conflict")
        >> ok ((request, existing), db)
reuse_or_bind c intent fingerprint now ids raced db none =
    raise_if (not (is_none (request_of_key c.idempotency_key db.approval_requests)))
      (gate_error "precreated_approval_attachment_forbidden")
    >> insert_binding c intent fingerprint now ids raced db

module _ (hashing : Hashing) where
  -- By the intent and the artifact of the deployment.
  unfoldable pub bind_rows :
      BindingCall
      → Time
      → BindingIds
      → List ApprovalRequest
      → Db
      → Option DeploymentIntent
      → Option DeploymentArtifact
      → Result ((ApprovalRequest × DeploymentApprovalBinding) × Db)
  bind_rows c now ids raced db (some intent) (some artifact) =
      resolve_human_identity db intent.user_id >>= λ user_id.
      raise_if (human_fingerprint hashing user_id != intent.requested_by_identity_fingerprint)
        (gate_error "canonical_requester_mismatch")
      >> reuse_or_bind c intent (human_fingerprint hashing user_id) now ids raced db
          (binding_of c.deployment_id db.deployment_approval_bindings)
  bind_rows c now ids raced db _ _ = err (gate_error "missing_immutable_deployment_intent")

  unfoldable pub create_bound_production_approval :
      BindingCall
      → Time
      → BindingIds
      → List ApprovalRequest
      → Db
      → Result ((ApprovalRequest × DeploymentApprovalBinding) × Db)
  create_bound_production_approval c now ids raced db =
      raise_if (not (idempotency_key_pattern c.idempotency_key))
        (policy_error "invalid approval idempotency key")
      >> raise_if (ltb c.ttl_seconds 1 || ltb 86400 c.ttl_seconds)
          (policy_error "invalid approval ttl")
      >> bind_rows c now ids raced db (intent_of_id c.deployment_id db.deployment_intents)
          (artifact_of c.deployment_id db.deployment_artifacts)

-- The guard that stands where a request was once attached afterwards.
unfoldable pub bind_production_approval : Db → Result (DeploymentApprovalBinding × Db)
bind_production_approval db = err (gate_error "precreated_approval_attachment_forbidden")

-- The primary key and the unique key of the table.
unfoldable pub rollback_conflicts : DeploymentRollback → List DeploymentRollback → Bool
rollback_conflicts r = any_of (λ q. q.id == r.id || q.deployment_id == r.deployment_id)

-- `rollback_target_mismatch`
unfoldable pub rollback_mismatch : DeploymentRollback → DeploymentIntent → Bool
rollback_mismatch r intent =
    intent.target_sha != r.rollback_target_sha
    || intent.artifact_digest != r.rollback_artifact_digest
    || not (sha_pattern r.current_production_sha)

-- By the intent of the rollback.
unfoldable pub link_rows :
    DeploymentRollback → Db → Option DeploymentIntent → Result (DeploymentRollback × Db)
link_rows r db none = err (gate_error "invalid_rollback_intent")
link_rows r db (some intent) =
    raise_if (intent.intent_kind != "rollback") (gate_error "invalid_rollback_intent")
    >> raise_if (is_none (intent_of_id r.failed_deployment_id db.deployment_intents))
        (gate_error "unknown_failed_deployment")
    >> raise_if
        (state_of (latest_state_event r.failed_deployment_id db.deployment_state_events)
          != some production_failed)
        (gate_error "failed_deployment_not_failed")
    >> raise_if (rollback_mismatch r intent) (gate_error "rollback_target_mismatch")
    >> raise_if (rollback_conflicts r db.deployment_rollbacks) integrity_error
    >> ok (r, record db { deployment_rollbacks = r ∷ db.deployment_rollbacks })

-- Of the columns of the link, with the id that is drawn.
unfoldable pub create_rollback_link : DeploymentRollback → Db → Result (DeploymentRollback × Db)
create_rollback_link r db = link_rows r db (intent_of_id r.deployment_id db.deployment_intents)
