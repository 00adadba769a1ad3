-- ===== src/Deployment/Staging.antt =====
-- `begin_staging_deployment`, `record_staging_failure`, `record_staging_acceptance` and
-- `invalidate_staging_acceptance` of app/services/deployment_service.py.
use maoxx_os.Prelude.{
  ℕ, ◌+◌, String, Bool, not, ◌||◌, Option, none, some, List, [], ◌∷◌, Result, ok, err, policy_error,
  gate_error, integrity_error, raise_if, ◌>>=◌, ◌>>◌, find, any_of, ltb, nat_eq, string_eq,
  option_eq, ◌==◌, ◌!=◌, Uuid, Time, seconds, text, Payload, if◌then◌else◌,
}
use maoxx_os.Policy.Artifact.{fingerprint_pattern}
use maoxx_os.Policy.Transition.{
  DeploymentState, staging_deploying, staging_failed, staging_validated, state_eq,
}
use maoxx_os.Tables.{
  Db, DeploymentIntent, DeploymentArtifact, StagingAcceptance, StagingAcceptanceInvalidation,
}
use maoxx_os.Approval.Fields.{is_none}
use maoxx_os.Deployment.Events.{Transition, latest_state_event, state_of, append_state_event}
use maoxx_os.Deployment.Intents.{intent_of_id}
use maoxx_os.Deployment.Artifacts.{artifact_of}

abbrev pub staging_transition :
    Uuid → DeploymentState → String → String → Payload → Time → Transition
staging_transition d to_state event_code actor evidence now = record {
  deployment_id = d;
  to_state = to_state;
  event_code = event_code;
  actor_fingerprint = actor;
  evidence = evidence;
  occurred_at = now;
}

-- An append, and nothing else.
unfoldable pub append_only : Transition → Uuid → Db → Result Db
append_only t event_id db = append_state_event t event_id db.deployment_state_events >>= λ events.
    ok (record db { deployment_state_events = events })

unfoldable pub begin_staging_deployment : Uuid → String → Time → Uuid → Db → Result Db
begin_staging_deployment d actor now event_id db =
    raise_if (is_none (intent_of_id d db.deployment_intents)) (gate_error "unknown_deployment")
    >> (if state_of (latest_state_event d db.deployment_state_events) == some staging_deploying
        then ok db
        else append_only (staging_transition d staging_deploying "staging_deploying" actor [] now)
            event_id db)

unfoldable pub record_staging_failure : Uuid → String → String → Time → Uuid → Db → Result Db
record_staging_failure d actor failure_code now event_id db =
    raise_if (is_none (intent_of_id d db.deployment_intents)) (gate_error "unknown_deployment")
    >> append_only
        (staging_transition d staging_failed "staging_failed" actor
          (("failure_code", text failure_code) ∷ []) now)
        event_id db

pub record AcceptanceFields : Type 0 where
  pub deployment_id : Uuid
  pub repository : String
  pub target_sha : String
  pub artifact_digest : String
  pub validation_suite_version : String
  pub config_fingerprint : String
  pub accepted_by_fingerprint : String
  pub validity_seconds : ℕ

unfoldable pub acceptance_of : Uuid → List StagingAcceptance → Option StagingAcceptance
acceptance_of d = find (λ a. a.deployment_id == d)

-- `staging_binding_mismatch`
unfoldable pub acceptance_mismatch : AcceptanceFields → DeploymentIntent → DeploymentArtifact → Bool
acceptance_mismatch f intent artifact =
    f.repository != intent.repository
    || f.target_sha != intent.target_sha
    || f.artifact_digest != intent.artifact_digest
    || artifact.digest != f.artifact_digest
    || f.config_fingerprint != intent.config_fingerprint

-- `actual != expected`
unfoldable pub acceptance_differs : StagingAcceptance → AcceptanceFields → Bool
acceptance_differs a f =
    a.repository != f.repository
    || a.target_sha != f.target_sha
    || a.artifact_digest != f.artifact_digest
    || a.validation_suite_version != f.validation_suite_version
    || a.config_fingerprint != f.config_fingerprint
    || a.accepted_by_identity_fingerprint != f.accepted_by_fingerprint

abbrev pub new_acceptance : AcceptanceFields → Time → Uuid → StagingAcceptance
new_acceptance f now new_id = record {
  id = new_id;
  deployment_id = f.deployment_id;
  repository = f.repository;
  target_sha = f.target_sha;
  artifact_digest = f.artifact_digest;
  environment = "staging";
  validation_suite_version = f.validation_suite_version;
  config_fingerprint = f.config_fingerprint;
  accepted_by_identity_fingerprint = f.accepted_by_fingerprint;
  completed_at = now;
  valid_until = now + seconds f.validity_seconds;
}

abbrev pub accepted_transition : AcceptanceFields → Time → Transition
accepted_transition f now =
    staging_transition f.deployment_id staging_validated "staging_accepted"
      f.accepted_by_fingerprint
      (("artifact_digest", text f.artifact_digest)
        ∷ ("validation_suite_version", text f.validation_suite_version)
        ∷ [])
      now

-- The primary key and the unique key of the table.
unfoldable pub acceptance_conflicts : StagingAcceptance → List StagingAcceptance → Bool
acceptance_conflicts a = any_of (λ b. b.id == a.id || b.deployment_id == a.deployment_id)

-- By what the query of the deployment reads.
unfoldable pub reuse_or_insert_acceptance :
    AcceptanceFields
    → Time
    → Uuid
    → Uuid
    → Db
    → Option StagingAcceptance
    → Result (StagingAcceptance × Db)
reuse_or_insert_acceptance f now new_id event_id db (some existing) =
    raise_if (acceptance_differs existing f) (gate_error "staging_acceptance_replay_conflict")
    >> ok (existing, db)
reuse_or_insert_acceptance f now new_id event_id db none =
    let a = new_acceptance f now new_id in
    append_state_event (accepted_transition f now) event_id db.deployment_state_events >>= λ events.
    raise_if (acceptance_conflicts a db.staging_acceptances) integrity_error
    >> ok (
      a,
      record db {
        staging_acceptances = a ∷ db.staging_acceptances;
        deployment_state_events = events;
      },
    )

-- By the intent and the artifact of the deployment.
unfoldable pub accept_rows :
    AcceptanceFields
    → Time
    → Uuid
    → Uuid
    → Db
    → Option DeploymentIntent
    → Option DeploymentArtifact
    → Result (StagingAcceptance × Db)
accept_rows f now new_id event_id db (some intent) (some artifact) =
    raise_if (acceptance_mismatch f intent artifact) (gate_error "staging_binding_mismatch")
    >> reuse_or_insert_acceptance f now new_id event_id db
        (acceptance_of f.deployment_id db.staging_acceptances)
accept_rows f now new_id event_id db _ _ = err (gate_error "missing_artifact")

unfoldable pub record_staging_acceptance :
    AcceptanceFields → Time → Uuid → Uuid → Db → Result (StagingAcceptance × Db)
record_staging_acceptance f now new_id event_id db =
    raise_if (ltb f.validity_seconds 1 || ltb 86400 f.validity_seconds)
      (policy_error "invalid staging acceptance validity")
    >> raise_if (not (fingerprint_pattern f.accepted_by_fingerprint))
        (policy_error "invalid staging actor fingerprint")
    >> accept_rows f now new_id event_id db (intent_of_id f.deployment_id db.deployment_intents)
        (artifact_of f.deployment_id db.deployment_artifacts)

-- The primary key and the unique key of the table.
unfoldable pub invalidation_conflicts :
    StagingAcceptanceInvalidation → List StagingAcceptanceInvalidation → Bool
invalidation_conflicts i = any_of (λ j. j.id == i.id || j.acceptance_id == i.acceptance_id)

unfoldable pub invalidate_staging_acceptance : Uuid → String → Uuid → Db → Result Db
invalidate_staging_acceptance acceptance_id reason_code new_id db =
    let i : StagingAcceptanceInvalidation = record {
      id = new_id;
      acceptance_id = acceptance_id;
      reason_code = reason_code;
    } in
    raise_if (is_none (find (λ a. a.id == acceptance_id) db.staging_acceptances))
      (gate_error "unknown_staging_acceptance")
    >> raise_if (invalidation_conflicts i db.staging_acceptance_invalidations) integrity_error
    >> ok (record db { staging_acceptance_invalidations = i ∷ db.staging_acceptance_invalidations })
