-- ===== src/Supervisor/Authority.antt =====
-- `SQLAlchemyAttemptAuthority.load` of app/services/production_supervisor.py: the whole authorization of
-- an attempt, read again. `from_iso` is `datetime.fromisoformat`, none where it raises.
use maoxx_os.Prelude.{
  ◌+◌, String, Bool, false, not, ◌||◌, ◌&&◌, Option, none, some, List, Result, ok, map, find,
  supervisor_error, raise_if, or_raise, ◌>>=◌, ◌>>◌, ltb, leb, nat_eq, string_eq, ◌!=◌, ◌==◌, Uuid,
  Time, seconds, Json, text, dict_get, Dict, Hashing, option_eq,
}
use maoxx_os.Policy.Health.{subset}
use maoxx_os.Tables.{
  Db, DeploymentIntent, DeploymentArtifact, StagingAcceptance, DeploymentLock,
  DeploymentApprovalConsumption, ApprovalRequest, ApprovalDecision, DeploymentEvidence,
  DeploymentExecutionAttempt,
}
use maoxx_os.Approval.Requests.{request_of_id}
use maoxx_os.Approval.Decisions.{decision_of_request}
use maoxx_os.Deployment.Authority.{VerifiedCiEvidence, supervisor_identity}
use maoxx_os.Deployment.Intents.{intent_of_id}
use maoxx_os.Deployment.Artifacts.{artifact_of}
use maoxx_os.Deployment.Staging.{acceptance_of}
use maoxx_os.Deployment.Bindings.{binding_of}
use maoxx_os.Deployment.Start.{IntentBody, calculate_intent_hash}
use maoxx_os.Deployment.Evidence.{latest_evidence}
use maoxx_os.Supervisor.Attempt.{SupervisorAttempt}

unfoldable pub attempt_of_id :
    Uuid → List DeploymentExecutionAttempt → Option DeploymentExecutionAttempt
attempt_of_id id = find (λ a. a.id == id)

unfoldable pub consumption_of :
    Uuid → List DeploymentApprovalConsumption → Option DeploymentApprovalConsumption
consumption_of deployment_id = find (λ c. c.deployment_id == deployment_id)

-- The rows that `load` reads.
pub record AttemptFacts : Type 0 where
  pub execution : DeploymentExecutionAttempt
  pub intent : DeploymentIntent
  pub artifact : DeploymentArtifact
  pub acceptance : StagingAcceptance
  pub lock : DeploymentLock
  pub consumption : DeploymentApprovalConsumption
  pub request : ApprovalRequest
  pub decision : ApprovalDecision
  pub backup : DeploymentEvidence

-- The queries, and the test that each has an answer.
unfoldable pub read_facts : Uuid → Db → Result AttemptFacts
read_facts id db = do
  execution ←
      or_raise (attempt_of_id id db.deployment_execution_attempts)
        (supervisor_error "unknown_execution_attempt")
  let e = supervisor_error "attempt_authority_incomplete"
  intent ← or_raise (intent_of_id execution.deployment_id db.deployment_intents) e
  artifact ← or_raise (artifact_of execution.deployment_id db.deployment_artifacts) e
  acceptance ← or_raise (acceptance_of execution.deployment_id db.staging_acceptances) e
  lock ← or_raise db.deployment_lock e
  binding ← or_raise (binding_of execution.deployment_id db.deployment_approval_bindings) e
  consumption ←
      or_raise (consumption_of execution.deployment_id db.deployment_approval_consumptions) e
  request ← or_raise (request_of_id binding.approval_request_id db.approval_requests) e
  decision ← or_raise (decision_of_request binding.approval_request_id db.approval_decisions) e
  backup ←
      or_raise (latest_evidence execution.deployment_id "predeploy_backup" db.deployment_evidence) e
  ok (record {
    execution = execution;
    intent = intent;
    artifact = artifact;
    acceptance = acceptance;
    lock = lock;
    consumption = consumption;
    request = request;
    decision = decision;
    backup = backup;
  })

abbrev pub facts_body : AttemptFacts → IntentBody
facts_body f = record {
  deployment_id = f.intent.id;
  execution_attempt_id = f.execution.id;
  fencing_epoch = f.execution.fencing_token;
  repository = f.intent.repository;
  target_sha = f.intent.target_sha;
  service_images = f.artifact.service_images;
  artifact_digest = f.intent.artifact_digest;
  expected_migration_revision = f.intent.migration_revision;
}

abbrev pub facts_attempt : AttemptFacts → SupervisorAttempt
facts_attempt f = record {
  deployment_id = f.intent.id;
  execution_attempt_id = f.execution.id;
  fencing_epoch = f.execution.fencing_token;
  repository = f.intent.repository;
  target_sha = f.intent.target_sha;
  intent_hash = f.execution.intent_hash;
  service_images = f.artifact.service_images;
  artifact_digest = f.intent.artifact_digest;
  expected_migration_revision = f.intent.migration_revision;
  staging_accepted_at = f.acceptance.completed_at;
}

-- `set(service_images) != set(intent.service_set)`
unfoldable pub services_differ : Dict String → List String → Bool
services_differ images services =
    not (subset (map (λ kv. kv.0) images) services && subset services (map (λ kv. kv.0) images))

unfoldable pub is_text : String → Option Json → Bool
is_text s (some (text t)) = s == t
is_text s _ = false

-- The part of the test that stands before the backup's times, at the hash that was calculated.
unfoldable pub rows_mismatch : AttemptFacts → String → Time → Bool
rows_mismatch f calculated now =
    f.execution.intent_hash != calculated
    || f.lock.deployment_id != f.intent.id
    || f.lock.fencing_token != f.execution.fencing_token
    || f.lock.owner_identity != supervisor_identity
    || f.acceptance.artifact_digest != f.intent.artifact_digest
    || leb f.acceptance.valid_until now
    || services_differ f.artifact.service_images f.intent.service_set
    || f.request.deployment_id != some f.intent.id
    || f.request.artifact_digest != some f.intent.artifact_digest
    || f.decision.decision_code != "approved"
    || f.consumption.approval_decision_id != f.decision.id
    || f.backup.status_code != "passed"
    || not (
        is_text "maoxx-production-backup-authority" (dict_get "producer_identity" f.backup.payload))

-- The part on the CI evidence.
unfoldable pub ci_mismatch : AttemptFacts → VerifiedCiEvidence → Time → Bool
ci_mismatch f verified now =
    verified.repository != f.intent.repository
    || verified.target_sha != f.intent.target_sha
    || verified.run_id != f.artifact.ci_run_id
    || ltb (verified.verified_at + seconds 900) now

module _ (from_iso : String → Option Time) where
  -- `datetime.fromisoformat(payload[key])`
  unfoldable pub time_of : Option Json → Option Time
  time_of (some (text t)) = from_iso t
  time_of _ = none

  -- What is asked of the facts. Whatever else is raised becomes `db_disconnected`.
  unfoldable pub check_facts :
      AttemptFacts → String → VerifiedCiEvidence → Time → Result SupervisorAttempt
  check_facts f calculated verified now = do
    let mismatch = supervisor_error "attempt_authority_mismatch"
    let broken = supervisor_error "db_disconnected"
    raise_if (rows_mismatch f calculated now) mismatch
    created_at ← or_raise (time_of (dict_get "created_at" f.backup.payload)) broken
    raise_if (ltb created_at f.acceptance.completed_at) mismatch
    verified_at ← or_raise (time_of (dict_get "verified_at" f.backup.payload)) broken
    raise_if (ltb (verified_at + seconds 1800) now) mismatch
    raise_if (ci_mismatch f verified now) mismatch
    ok (facts_attempt f)

  module _ (hashing : Hashing) (json_dumps : IntentBody → String) where
    -- `load`, by what the CI verifier answers, if it does.
    unfoldable pub load_attempt :
        Uuid → Option VerifiedCiEvidence → Time → Db → Result SupervisorAttempt
    load_attempt id answer now db = do
      f ← read_facts id db
      verified ← or_raise answer (supervisor_error "db_disconnected")
      check_facts f (calculate_intent_hash hashing json_dumps (facts_body f)) verified now
