-- ===== src/Tests/Data.antt =====
-- A deployment that is ready to start, and the rows that led to it.
use maoxx_os.Prelude.{
  ℕ, String, ◌≡◌, refl, true, Option, none, some, List, [], ◌∷◌, Result, ok, err, Hashing, hex_run,
  codes, Uuid, Time,
}
use maoxx_os.Policy.Migration.{low}
use maoxx_os.Policy.Transition.{
  DeploymentState, intent_created, artifact_recorded, staging_deploying, staging_validated,
  production_approval_pending,
}
use maoxx_os.Tables.{
  Db, empty_db, DeploymentIntent, DeploymentArtifact, DeploymentStateEvent, ApprovalRequest,
  ApprovalDecision, DeploymentApprovalBinding, DeploymentLock,
}
use maoxx_os.Deployment.Start.{IntentBody}

abbrev pub zeros : String
zeros = "0000000000000000000000000000000000000000000000000000000000000000"

abbrev pub digest : String
digest = "sha256:0000000000000000000000000000000000000000000000000000000000000000"

abbrev pub sha : String
sha = "0000000000000000000000000000000000000000"

pub zeros-hex : hex_run 64 (codes zeros) ≡ true
unfolding hex_run codes
zeros-hex = refl

-- A digest of the right form, the same for every text.
abbrev pub hashing : Hashing
hashing = record { sha256_hex = λ _. zeros; digest_form = λ _. zeros-hex }

abbrev pub json_dumps : IntentBody → String
json_dumps body = body.repository

abbrev pub supervisor : String
supervisor = "maoxx-production-deployment-supervisor"

abbrev pub intent : DeploymentIntent
intent = record {
  id = 1;
  user_id = 10;
  requester_principal_id = 20;
  requester_external_identity_id = 30;
  intent_kind = "deploy";
  action_code = "production_deploy";
  repository = "Mxx1233/Maoxx-OS";
  target_sha = sha;
  target_environment = "production";
  artifact_digest = digest;
  requested_by_identity_fingerprint = zeros;
  service_set = "api" ∷ [];
  migration_risk = low;
  migration_revision = none;
  rollback_runbook_ref = none;
  config_fingerprint = digest;
  idempotency_key = "deploy-1";
}

abbrev pub artifact : DeploymentArtifact
artifact = record {
  id = 2;
  deployment_id = 1;
  repository = "Mxx1233/Maoxx-OS";
  target_sha = sha;
  digest = digest;
  image_reference =
      "ghcr.io/app@sha256:0000000000000000000000000000000000000000000000000000000000000000";
  service_images = [];
  ci_run_id = 7;
  ci_event = "push";
  ci_status = "completed";
  ci_conclusion = "success";
  ci_head_sha = sha;
  quality_gate_conclusion = "success";
  protected_main_verified = true;
  ci_workflow_name = "CI";
  ci_repository = "Mxx1233/Maoxx-OS";
  ci_verified_at = 3;
  ci_provenance_source = "github_checks_api";
  provenance = record { given = []; ci_verification = [] };
}

abbrev pub event : ℕ → Option DeploymentState → DeploymentState → DeploymentStateEvent
event n from to = record {
  id = n;
  deployment_id = 1;
  sequence = n;
  from_state = from;
  to_state = to;
  event_code = "event";
  actor_identity_fingerprint = zeros;
  evidence = [];
  occurred_at = n;
}

abbrev pub events : List DeploymentStateEvent
events =
    event 5 (some staging_validated) production_approval_pending
    ∷ event 4 (some staging_deploying) staging_validated
    ∷ event 3 (some artifact_recorded) staging_deploying
    ∷ event 2 (some intent_created) artifact_recorded
    ∷ event 1 none intent_created
    ∷ []

abbrev pub request : ApprovalRequest
request = record {
  id = 40;
  user_id = 10;
  action_code = "production_deploy";
  repository = "Mxx1233/Maoxx-OS";
  pull_request_number = none;
  target_sha = sha;
  target_environment = "production";
  deployment_id = some 1;
  artifact_digest = some digest;
  idempotency_key = "approval-1";
  requested_at = 5;
  expires_at = 100;
  card_message_id = none;
}

abbrev pub binding : DeploymentApprovalBinding
binding = record {
  id = 41;
  deployment_id = 1;
  approval_request_id = 40;
  repository = "Mxx1233/Maoxx-OS";
  target_sha = sha;
  target_environment = "production";
  action_code = "production_deploy";
  artifact_digest = digest;
  requester_identity_fingerprint = zeros;
  requester_user_id = 10;
}

abbrev pub decision : ApprovalDecision
decision = record {
  id = 50;
  request_id = 40;
  decision_code = "approved";
  actor_user_id = 11;
  actor_external_identity_id = some 31;
  approver_identity_fingerprint = zeros;
  feishu_event_id = "event-1";
  decided_at = 20;
}

abbrev pub lock_of : Uuid → Time → Option ℕ → DeploymentLock
lock_of d expires reconciled = record {
  environment = "production";
  deployment_id = d;
  owner_identity = supervisor;
  fencing_token = 3;
  acquired_at = 10;
  renewed_at = 10;
  lease_expires_at = expires;
  stale_reconciled_at = some 12;
  stale_reconciled_token = reconciled;
  stale_reconciliation_evidence_key = some "reconciliation-3";
}

-- Approved, with the lock held, and not started.
abbrev pub ready : Db
ready = record empty_db {
  deployment_intents = intent ∷ [];
  deployment_artifacts = artifact ∷ [];
  deployment_state_events = events;
  approval_requests = request ∷ [];
  deployment_approval_bindings = binding ∷ [];
  approval_decisions = decision ∷ [];
  deployment_lock = some (lock_of 1 1000 none);
}

-- What a call returns that does not raise.
abbrev pub returned {ℓ} : {A : Type ℓ} → A → Result A → A
returned a (ok b) = b
returned a (err _) = a
