-- ===== src/Tables/Approval.antt =====
-- app/models/core.py: identities, approval requests and approval decisions. `created_at` columns
-- that the server fills and nothing reads are left out.
use maoxx_os.Prelude.{ℕ, String, Option, Uuid, Time}

pub record ExternalIdentity : Type 0 where
  pub id : Uuid
  pub provider : String
  pub tenant_fingerprint : String
  pub subject_fingerprint : String
  pub principal_id : Uuid
  pub mapping_version : ℕ
  pub valid_from : Time
  pub valid_to : Option Time
  pub audit_event_id : Uuid

pub record Principal : Type 0 where
  pub id : Uuid
  pub principal_type : String
  pub user_id : Option Uuid
  pub identity_key : String

pub record ApprovalRequest : Type 0 where
  pub id : Uuid
  pub user_id : Uuid
  pub action_code : String
  pub repository : String
  pub pull_request_number : Option ℕ
  pub target_sha : String
  pub target_environment : String
  pub deployment_id : Option Uuid
  pub artifact_digest : Option String
  pub idempotency_key : String
  pub requested_at : Time
  pub expires_at : Time
  pub card_message_id : Option String

pub record ApprovalDecision : Type 0 where
  pub id : Uuid
  pub request_id : Uuid
  pub decision_code : String
  pub actor_user_id : Uuid
  pub actor_external_identity_id : Option Uuid
  pub approver_identity_fingerprint : String
  pub feishu_event_id : String
  pub decided_at : Time
