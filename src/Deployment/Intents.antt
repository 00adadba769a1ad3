-- ===== src/Deployment/Intents.antt =====
-- `_validate_intent_fields` and `create_deployment_intent` of app/services/deployment_service.py.
use maoxx_os.Prelude.{
  String, Bool, not, ◌||◌, Option, none, some, List, [], ◌∷◌, Result, ok, policy_error, gate_error,
  integrity_error, raise_if, or_raise, ◌>>=◌, ◌>>◌, find, any_of, codes, nat_eq, string_eq,
  option_eq, list_eq, ◌==◌, ◌!=◌, Uuid, Time, Hashing, if◌then◌else◌,
}
use maoxx_os.Policy.Artifact.{digest_pattern, sha_pattern, fingerprint_pattern}
use maoxx_os.Policy.Migration.{MigrationRisk, risk_eq, validate_migration_plan}
use maoxx_os.Policy.Services.{validate_service_set}
use maoxx_os.Policy.Transition.{intent_created}
use maoxx_os.Tables.{Db, DeploymentIntent}
use maoxx_os.Approval.Patterns.{idempotency_key_pattern}
use maoxx_os.Approval.Fields.{bad_repository}
use maoxx_os.Deployment.Authority.{
  ResolvedExternalHuman, human_fingerprint, resolve_feishu_principal,
}
use maoxx_os.Deployment.Events.{Transition, append_state_event}

pub record IntentFields : Type 0 where
  pub authenticated_feishu_tenant_id : String
  pub authenticated_feishu_open_id : String
  pub intent_kind : String
  pub repository : String
  pub target_sha : String
  pub artifact_digest : String
  pub services : List String
  pub migration_risk : MigrationRisk
  pub migration_revision : Option String
  pub rollback_runbook_ref : Option String
  pub config_fingerprint : String
  pub idempotency_key : String

-- The dict of actions, by the kind of an intent.
unfoldable pub expected_action : String → Option String
expected_action intent_kind =
    if intent_kind == "deploy"
    then some "production_deploy"
    else if intent_kind == "rollback"
    then some "rollback_production"
    else none

abbrev pub action_or_empty : Option String → String
action_or_empty none = ""
action_or_empty (some a) = a

unfoldable pub validate_intent_fields : IntentFields → String → String → Result (List String)
validate_intent_fields f action_code requester_fingerprint =
    raise_if (expected_action f.intent_kind != some action_code)
      (policy_error "intent/action mismatch")
    >> raise_if (bad_repository f.repository) (policy_error "invalid repository")
    >> raise_if (not (sha_pattern f.target_sha)) (policy_error "invalid target SHA")
    >> raise_if (not (digest_pattern (codes f.artifact_digest)))
        (policy_error "invalid artifact digest")
    >> raise_if (not (fingerprint_pattern requester_fingerprint))
        (policy_error "invalid requester fingerprint")
    >> raise_if (not (digest_pattern (codes f.config_fingerprint)))
        (policy_error "invalid config fingerprint")
    >> raise_if (not (idempotency_key_pattern f.idempotency_key))
        (policy_error "invalid idempotency key")
    >> validate_migration_plan f.migration_risk f.migration_revision f.rollback_runbook_ref
    >> validate_service_set f.services

-- `WHERE id = deployment_id`
unfoldable pub intent_of_id : Uuid → List DeploymentIntent → Option DeploymentIntent
intent_of_id d = find (λ i. i.id == d)

unfoldable pub intent_of_key : String → List DeploymentIntent → Option DeploymentIntent
intent_of_key key = find (λ i. i.idempotency_key == key)

-- The row that the fields ask for.
abbrev pub new_intent :
    IntentFields → ResolvedExternalHuman → String → List String → String → Uuid → DeploymentIntent
new_intent f requester fingerprint services action_code new_id = record {
  id = new_id;
  user_id = requester.user_id;
  requester_principal_id = requester.principal_id;
  requester_external_identity_id = requester.mapping_id;
  intent_kind = f.intent_kind;
  action_code = action_code;
  repository = f.repository;
  target_sha = f.target_sha;
  target_environment = "production";
  artifact_digest = f.artifact_digest;
  requested_by_identity_fingerprint = fingerprint;
  service_set = services;
  migration_risk = f.migration_risk;
  migration_revision = f.migration_revision;
  rollback_runbook_ref = f.rollback_runbook_ref;
  config_fingerprint = f.config_fingerprint;
  idempotency_key = f.idempotency_key;
}

-- `actual != expected`, of the row that is stored and the row that is asked for
unfoldable pub intent_differs : DeploymentIntent → DeploymentIntent → Bool
intent_differs a e =
    a.user_id != e.user_id
    || a.requester_principal_id != e.requester_principal_id
    || a.requester_external_identity_id != e.requester_external_identity_id
    || a.intent_kind != e.intent_kind
    || a.repository != e.repository
    || a.target_sha != e.target_sha
    || a.artifact_digest != e.artifact_digest
    || a.requested_by_identity_fingerprint != e.requested_by_identity_fingerprint
    || a.service_set != e.service_set
    || a.migration_risk != e.migration_risk
    || a.migration_revision != e.migration_revision
    || a.rollback_runbook_ref != e.rollback_runbook_ref
    || a.config_fingerprint != e.config_fingerprint

-- The primary key and the unique key of the table.
unfoldable pub intent_conflicts : DeploymentIntent → List DeploymentIntent → Bool
intent_conflicts i = any_of (λ j. j.id == i.id || j.idempotency_key == i.idempotency_key)

abbrev pub created_transition : DeploymentIntent → Time → Transition
created_transition intent now = record {
  deployment_id = intent.id;
  to_state = intent_created;
  event_code = "intent_created";
  actor_fingerprint = intent.requested_by_identity_fingerprint;
  evidence = [];
  occurred_at = now;
}

-- By what the query of the key reads; `raced` tells whether another transaction has committed a row of the
-- key or the id since.
unfoldable pub reuse_or_insert_intent :
    DeploymentIntent
    → Time
    → Uuid
    → Bool
    → Db
    → Option DeploymentIntent
    → Result (DeploymentIntent × Db)
reuse_or_insert_intent intent now event_id raced db (some existing) =
    raise_if (intent_differs existing intent) (policy_error "deployment idempotency conflict")
    >> ok (existing, db)
reuse_or_insert_intent intent now event_id raced db none =
    raise_if (raced || intent_conflicts intent db.deployment_intents) integrity_error
    >> append_state_event (created_transition intent now) event_id db.deployment_state_events
    >>= λ events. ok (
      intent,
      record db {
        deployment_intents = intent ∷ db.deployment_intents;
        deployment_state_events = events;
      },
    )

module _ (hashing : Hashing) where
  unfoldable pub create_deployment_intent :
      IntentFields → Time → Uuid → Uuid → Bool → Db → Result (DeploymentIntent × Db)
  create_deployment_intent f now new_id event_id raced db =
      or_raise
        (resolve_feishu_principal hashing db f.authenticated_feishu_tenant_id
          f.authenticated_feishu_open_id)
        (gate_error "unknown_or_ambiguous_requester_identity")
      >>= λ requester.
          let fingerprint = human_fingerprint hashing requester.user_id in
          let action_code = action_or_empty (expected_action f.intent_kind) in
          validate_intent_fields f action_code fingerprint >>= λ services.
          reuse_or_insert_intent (new_intent f requester fingerprint services action_code new_id)
            now event_id raced db (intent_of_key f.idempotency_key db.deployment_intents)
