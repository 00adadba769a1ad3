-- ===== src/Tables/Execution.antt =====
-- app/models/core.py: approval bindings and consumptions, the lock, attempts, evidence, rollbacks.
use maoxx_os.Prelude.{ℕ, String, Option, Uuid, Time, Payload}

pub record DeploymentApprovalBinding : Type 0 where
  pub id : Uuid
  pub deployment_id : Uuid
  pub approval_request_id : Uuid
  pub repository : String
  pub target_sha : String
  pub target_environment : String
  pub action_code : String
  pub artifact_digest : String
  pub requester_identity_fingerprint : String
  pub requester_user_id : Uuid

pub record DeploymentApprovalConsumption : Type 0 where
  pub id : Uuid
  pub deployment_id : Uuid
  pub approval_request_id : Uuid
  pub approval_decision_id : Uuid
  pub state_event_id : Uuid
  pub consumed_at : Time

pub record DeploymentLock : Type 0 where
  pub environment : String
  pub deployment_id : Uuid
  pub owner_identity : String
  pub fencing_token : ℕ
  pub acquired_at : Time
  pub renewed_at : Time
  pub lease_expires_at : Time
  pub stale_reconciled_at : Option Time
  pub stale_reconciled_token : Option ℕ
  pub stale_reconciliation_evidence_key : Option String

pub record DeploymentExecutionAttempt : Type 0 where
  pub id : Uuid
  pub deployment_id : Uuid
  pub execution_key : String
  pub executor_identity : String
  pub fencing_token : ℕ
  pub intent_hash : String

pub record DeploymentEvidence : Type 0 where
  pub id : Uuid
  pub deployment_id : Uuid
  pub evidence_type : String
  pub evidence_key : String
  pub status_code : String
  pub payload : Payload
  pub occurred_at : Time

pub record DeploymentRollback : Type 0 where
  pub id : Uuid
  pub deployment_id : Uuid
  pub failed_deployment_id : Uuid
  pub current_production_sha : String
  pub rollback_target_sha : String
  pub rollback_artifact_digest : String
