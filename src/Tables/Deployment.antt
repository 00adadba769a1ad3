-- ===== src/Tables/Deployment.antt =====
-- app/models/core.py: intents, artifacts, state events and staging acceptances.
use maoxx_os.Prelude.{ℕ, String, Bool, Option, List, Uuid, Time, Dict, Payload}
use maoxx_os.Policy.Transition.{DeploymentState}
use maoxx_os.Policy.Migration.{MigrationRisk}

pub record DeploymentIntent : Type 0 where
  pub id : Uuid
  pub user_id : Uuid
  pub requester_principal_id : Uuid
  pub requester_external_identity_id : Uuid
  pub intent_kind : String
  pub action_code : String
  pub repository : String
  pub target_sha : String
  pub target_environment : String
  pub artifact_digest : String
  pub requested_by_identity_fingerprint : String
  pub service_set : List String
  pub migration_risk : MigrationRisk
  pub migration_revision : Option String
  pub rollback_runbook_ref : Option String
  pub config_fingerprint : String
  pub idempotency_key : String

-- `{**provenance, "ci_verification": ...}`
pub record Provenance : Type 0 where
  pub given : Payload
  pub ci_verification : Dict String

pub record DeploymentArtifact : Type 0 where
  pub id : Uuid
  pub deployment_id : Uuid
  pub repository : String
  pub target_sha : String
  pub digest : String
  pub image_reference : String
  pub service_images : Dict String
  pub ci_run_id : ℕ
  pub ci_event : String
  pub ci_status : String
  pub ci_conclusion : String
  pub ci_head_sha : String
  pub quality_gate_conclusion : String
  pub protected_main_verified : Bool
  pub ci_workflow_name : String
  pub ci_repository : String
  pub ci_verified_at : Time
  pub ci_provenance_source : String
  pub provenance : Provenance

pub record DeploymentStateEvent : Type 0 where
  pub id : Uuid
  pub deployment_id : Uuid
  pub sequence : ℕ
  pub from_state : Option DeploymentState
  pub to_state : DeploymentState
  pub event_code : String
  pub actor_identity_fingerprint : String
  pub evidence : Payload
  pub occurred_at : Time

pub record StagingAcceptance : Type 0 where
  pub id : Uuid
  pub deployment_id : Uuid
  pub repository : String
  pub target_sha : String
  pub artifact_digest : String
  pub environment : String
  pub validation_suite_version : String
  pub config_fingerprint : String
  pub accepted_by_identity_fingerprint : String
  pub completed_at : Time
  pub valid_until : Time

pub record StagingAcceptanceInvalidation : Type 0 where
  pub id : Uuid
  pub acceptance_id : Uuid
  pub reason_code : String
