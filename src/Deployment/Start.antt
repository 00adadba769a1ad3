-- ===== src/Deployment/Start.antt =====
-- `start_production_deployment` of app/services/deployment_service.py and `calculate_intent_hash` of
-- app/services/production_supervisor.py. The row of the intent is locked, so no other transaction
-- starts the same deployment meanwhile. `json_dumps` is `json.dumps` with sorted keys and without
-- spaces, at the object that is hashed.
pub mod Guards
pub mod Laws
use maoxx_os.Prelude.{
  ℕ, String, ◌<>◌, Bool, not, ◌||◌, Option, none, some, List, [], ◌∷◌, Result, ok, err, gate_error,
  integrity_error, no_result_found, raise_if, or_raise, ◌>>=◌, ◌>>◌, find, any_of, leb, nat_eq,
  string_eq, option_eq, ◌==◌, ◌!=◌, Uuid, uuid_text, Time, Dict, Json, text, number, Payload,
  Hashing, if◌then◌else◌,
}
use maoxx_os.Policy.Transition.{DeploymentState, production_deploying, rollback_deploying}
use maoxx_os.Tables.{
  Db, DeploymentIntent, DeploymentArtifact, ApprovalRequest, ApprovalDecision, DeploymentLock,
  DeploymentApprovalBinding, DeploymentApprovalConsumption, DeploymentExecutionAttempt,
  DeploymentEvidence, DeploymentStateEvent,
}
use maoxx_os.Approval.Requests.{request_of_id}
use maoxx_os.Approval.Decisions.{decision_of_request}
use maoxx_os.Deployment.Authority.{resolve_executor_identity}
use maoxx_os.Deployment.Events.{Transition, append_state_event}
use maoxx_os.Deployment.Intents.{intent_of_id}
use maoxx_os.Deployment.Evidence.{add_evidence}
use maoxx_os.Deployment.Artifacts.{artifact_of}
use maoxx_os.Deployment.Bindings.{binding_of}

pub data StartCode : Type 0 where
  reconciliation_required execution_prepared : StartCode

pub record StartOutcome : Type 0 where
  pub code : StartCode
  pub execution_id : Uuid
  pub fencing_token : ℕ

-- The object that is hashed.
pub record IntentBody : Type 0 where
  pub deployment_id : Uuid
  pub execution_attempt_id : Uuid
  pub fencing_epoch : ℕ
  pub repository : String
  pub target_sha : String
  pub service_images : Dict String
  pub artifact_digest : String
  pub expected_migration_revision : Option String

pub record StartCall : Type 0 where
  pub deployment_id : Uuid
  pub owner_identity : String
  pub fencing_token : ℕ

-- The ids that are drawn for the new rows.
pub record StartIds : Type 0 where
  pub event_id : Uuid
  pub consumption_id : Uuid
  pub attempt_id : Uuid
  pub evidence_id : Uuid

unfoldable pub attempt_of :
    Uuid → List DeploymentExecutionAttempt → Option DeploymentExecutionAttempt
attempt_of d = find (λ a. a.deployment_id == d)

-- `deployment_lock_or_approval_invalid`, where the rows are there
unfoldable pub lock_invalid : StartCall → Time → DeploymentLock → Bool
lock_invalid c now lock =
    lock.deployment_id != c.deployment_id
    || lock.owner_identity != c.owner_identity
    || lock.fencing_token != c.fencing_token
    || leb lock.lease_expires_at now

-- `approval_binding_or_separation_invalid`
unfoldable pub approval_invalid :
    StartCall → Time → DeploymentIntent → ApprovalRequest → ApprovalDecision → Bool
approval_invalid c now intent request decision =
    request.deployment_id != some c.deployment_id
    || request.artifact_digest != some intent.artifact_digest
    || leb request.expires_at now
    || leb request.expires_at decision.decided_at
    || decision.decision_code != "approved"
    || decision.actor_user_id == intent.user_id

-- The approval of the deployment and its lock, by what the queries of a binding read.
unfoldable pub authorized_rows :
    StartCall
    → Time
    → DeploymentIntent
    → Option ApprovalRequest
    → Option ApprovalDecision
    → Option DeploymentLock
    → Result (ApprovalRequest × ApprovalDecision)
authorized_rows c now intent (some request) (some decision) (some lock) =
    if lock_invalid c now lock
    then err (gate_error "deployment_lock_or_approval_invalid")
    else if approval_invalid c now intent request decision
    then err (gate_error "approval_binding_or_separation_invalid")
    else ok (request, decision)
authorized_rows c now intent _ _ _ = err (gate_error "deployment_lock_or_approval_invalid")

unfoldable pub authorize :
    StartCall
    → Time
    → DeploymentIntent
    → Db
    → Option DeploymentApprovalBinding
    → Result (ApprovalRequest × ApprovalDecision)
authorize c now intent db none = err (gate_error "missing_approval")
authorize c now intent db (some binding) =
    authorized_rows c now intent (request_of_id binding.approval_request_id db.approval_requests)
      (decision_of_request binding.approval_request_id db.approval_decisions) db.deployment_lock

unfoldable pub deploying_state : DeploymentIntent → DeploymentState
deploying_state intent =
    if intent.intent_kind == "deploy" then production_deploying else rollback_deploying

abbrev pub start_transition : StartCall → DeploymentIntent → Time → Transition
start_transition c intent now = record {
  deployment_id = c.deployment_id;
  to_state = deploying_state intent;
  event_code = "approval_consumed_and_execution_prepared";
  actor_fingerprint = intent.requested_by_identity_fingerprint;
  evidence = ("fencing_token", number c.fencing_token) ∷ [];
  occurred_at = now;
}

abbrev pub new_consumption :
    StartCall → StartIds → Time → ApprovalRequest → ApprovalDecision → DeploymentApprovalConsumption
new_consumption c ids now request decision = record {
  id = ids.consumption_id;
  deployment_id = c.deployment_id;
  approval_request_id = request.id;
  approval_decision_id = decision.id;
  state_event_id = ids.event_id;
  consumed_at = now;
}

abbrev pub body_of : StartCall → StartIds → DeploymentIntent → DeploymentArtifact → IntentBody
body_of c ids intent artifact = record {
  deployment_id = c.deployment_id;
  execution_attempt_id = ids.attempt_id;
  fencing_epoch = c.fencing_token;
  repository = intent.repository;
  target_sha = intent.target_sha;
  service_images = artifact.service_images;
  artifact_digest = intent.artifact_digest;
  expected_migration_revision = intent.migration_revision;
}

abbrev pub new_attempt : StartCall → StartIds → String → DeploymentExecutionAttempt
new_attempt c ids intent_hash = record {
  id = ids.attempt_id;
  deployment_id = c.deployment_id;
  execution_key = "execution-" <> uuid_text ids.attempt_id;
  executor_identity = c.owner_identity;
  fencing_token = c.fencing_token;
  intent_hash = intent_hash;
}

abbrev pub attempt_evidence : DeploymentExecutionAttempt → Time → Uuid → DeploymentEvidence
attempt_evidence attempt now new_id = record {
  id = new_id;
  deployment_id = attempt.deployment_id;
  evidence_type = "execution_attempt";
  evidence_key = attempt.execution_key;
  status_code = "recorded";
  payload =
      ("execution_id", text (uuid_text attempt.id))
      ∷ ("executor_identity", text attempt.executor_identity)
      ∷ ("fencing_token", number attempt.fencing_token)
      ∷ ("intent_hash", text attempt.intent_hash)
      ∷ [];
  occurred_at = now;
}

-- The primary key, the unique keys and the check of the two tables.
unfoldable pub consumption_conflicts :
    DeploymentApprovalConsumption → List DeploymentApprovalConsumption → Bool
consumption_conflicts c = any_of (λ b.
    b.id == c.id
    || b.deployment_id == c.deployment_id
    || b.approval_request_id == c.approval_request_id
    || b.approval_decision_id == c.approval_decision_id)

unfoldable pub attempt_conflicts :
    DeploymentExecutionAttempt → List DeploymentExecutionAttempt → Bool
attempt_conflicts a rows =
    any_of
      (λ b.
        b.id == a.id || b.deployment_id == a.deployment_id || b.execution_key == a.execution_key)
      rows
    || leb a.fencing_token 0

abbrev pub prepared : StartCall → StartIds → StartOutcome
prepared c ids = record {
  code = execution_prepared;
  execution_id = ids.attempt_id;
  fencing_token = c.fencing_token;
}

abbrev pub outcome_of_attempt : DeploymentExecutionAttempt → StartOutcome
outcome_of_attempt a = record {
  code = reconciliation_required;
  execution_id = a.id;
  fencing_token = a.fencing_token;
}

-- The flush of the consumption and the attempt, the evidence, and the commit.
unfoldable pub commit_start :
    StartCall
    → StartIds
    → Time
    → Db
    → DeploymentApprovalConsumption
    → DeploymentExecutionAttempt
    → List DeploymentStateEvent
    → Result (StartOutcome × Db)
commit_start c ids now db consumption attempt events =
    raise_if (consumption_conflicts consumption db.deployment_approval_consumptions) integrity_error
    >> raise_if (attempt_conflicts attempt db.deployment_execution_attempts) integrity_error
    >> add_evidence (attempt_evidence attempt now ids.evidence_id) db.deployment_evidence
    >>= λ (added : DeploymentEvidence × List DeploymentEvidence). ok (
      prepared c ids,
      record db {
        deployment_state_events = events;
        deployment_approval_consumptions = consumption ∷ db.deployment_approval_consumptions;
        deployment_execution_attempts = attempt ∷ db.deployment_execution_attempts;
        deployment_evidence = added.1;
      },
    )

module _ (hashing : Hashing) (json_dumps : IntentBody → String) where
  open hashing use {sha256_hex}

  unfoldable pub calculate_intent_hash : IntentBody → String
  calculate_intent_hash body = sha256_hex (json_dumps body)

  -- Behind the authorization.
  unfoldable pub prepare :
      StartCall
      → StartIds
      → Time
      → DeploymentIntent
      → Db
      → ApprovalRequest × ApprovalDecision
      → Result (StartOutcome × Db)
  prepare c ids now intent db (request, decision) =
      append_state_event (start_transition c intent now) ids.event_id db.deployment_state_events
      >>= λ events.
          or_raise (artifact_of c.deployment_id db.deployment_artifacts) no_result_found
          >>= λ artifact.
              commit_start c ids now db (new_consumption c ids now request decision)
                (new_attempt c ids (calculate_intent_hash (body_of c ids intent artifact))) events

  -- By the attempt of the deployment, where there is one.
  unfoldable pub start_or_reconcile :
      StartCall
      → StartIds
      → Time
      → DeploymentIntent
      → Db
      → Option DeploymentExecutionAttempt
      → Result (StartOutcome × Db)
  start_or_reconcile c ids now intent db (some existing) = ok (outcome_of_attempt existing, db)
  start_or_reconcile c ids now intent db none =
      authorize c now intent db (binding_of c.deployment_id db.deployment_approval_bindings)
      >>= prepare c ids now intent db

  unfoldable pub start_production_deployment :
      StartCall → StartIds → Time → Db → Result (StartOutcome × Db)
  start_production_deployment c ids now db =
      resolve_executor_identity c.owner_identity >>= λ (_ : String).
      or_raise (intent_of_id c.deployment_id db.deployment_intents)
        (gate_error "unknown_deployment")
      >>= λ intent.
          start_or_reconcile c ids now intent db
            (attempt_of c.deployment_id db.deployment_execution_attempts)
