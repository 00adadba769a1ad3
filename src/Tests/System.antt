-- ===== src/Tests/System.antt =====
-- The laws of a run, at a run that records one intent.
use maoxx_os.Prelude.{
  false, ◌≡◌, ◌≢◌, refl, none, some, [], ◌∷◌, Result, ok, find, any_of, all_of, elem, codes,
  hex_run, strip_prefix, uuid_text,
}
use maoxx_os.Policy.Artifact.{digest_pattern, sha_pattern, fingerprint_pattern}
use maoxx_os.Policy.Migration.{low, MigrationRisk-discrete, validate_migration_plan, is_given}
use maoxx_os.Policy.Services.{text_lt, insert_sorted, sorted_set, approved, validate_service_set}
use maoxx_os.Policy.Transition.{
  DeploymentState-discrete, deployment_transitions, require_transition,
}
use maoxx_os.Tables.{
  Db, empty_db, Principal, ExternalIdentity, DeploymentIntent, DeploymentRollback,
}
use maoxx_os.Approval.Patterns.{
  is_name_char, segment_pattern, split_slash, repository_pattern, ends_with, is_key_char,
  idempotency_key_pattern,
}
use maoxx_os.Approval.Fields.{bad_repository}
use maoxx_os.Deployment.Authority.{
  mapped_rows, only_row, human_fingerprint, external_identity_fingerprint, resolve_feishu_principal,
}
use maoxx_os.Deployment.Events.{latest_state_event, append_state_event}
use maoxx_os.Deployment.Events.Log.{IsLog}
use maoxx_os.Deployment.Intents.{
  IntentFields, expected_action, validate_intent_fields, intent_of_key, intent_conflicts,
  reuse_or_insert_intent, create_deployment_intent,
}
use maoxx_os.Deployment.Bindings.{create_rollback_link}
use maoxx_os.Deployment.System.Steps.{
  intend, Reach, start, then_step, Reach-IsLog, Reach-create_rollback_link,
}
use maoxx_os.Tests.Data.{zeros, digest, sha, hashing, json_dumps, intent, returned}

abbrev requester : Principal
requester = record {
  id = 20;
  principal_type = "HUMAN";
  user_id = some 10;
  identity_key = "user-10";
}

abbrev mapping : ExternalIdentity
mapping = record {
  id = 30;
  provider = "feishu";
  tenant_fingerprint = zeros;
  subject_fingerprint = zeros;
  principal_id = 20;
  mapping_version = 1;
  valid_from = 0;
  valid_to = none;
  audit_event_id = 31;
}

abbrev known : Db
known = record empty_db { principals = requester ∷ []; external_identities = mapping ∷ [] }

abbrev intent_fields : IntentFields
intent_fields = record {
  authenticated_feishu_tenant_id = "tenant";
  authenticated_feishu_open_id = "ou_1";
  intent_kind = "deploy";
  repository = "Mxx1233/Maoxx-OS";
  target_sha = sha;
  artifact_digest = digest;
  services = "api" ∷ [];
  migration_risk = low;
  migration_revision = none;
  rollback_runbook_ref = none;
  config_fingerprint = digest;
  idempotency_key = "deploy-1";
}

abbrev created : Result (DeploymentIntent × Db)
created = create_deployment_intent hashing intent_fields 1 1 1 false known

abbrev after_intent : Db
after_intent = (returned (intent, known) created).1

intent_returns : created ≡ ok (intent, after_intent)
unfolding create_deployment_intent reuse_or_insert_intent intent_conflicts intent_of_key
    validate_intent_fields expected_action resolve_feishu_principal mapped_rows only_row
    human_fingerprint external_identity_fingerprint append_state_event latest_state_event
    require_transition deployment_transitions DeploymentState-discrete validate_service_set approved
    sorted_set insert_sorted text_lt validate_migration_plan is_given MigrationRisk-discrete
    digest_pattern sha_pattern fingerprint_pattern bad_repository repository_pattern split_slash
    segment_pattern is_name_char ends_with is_key_char idempotency_key_pattern find any_of all_of
    elem codes hex_run strip_prefix uuid_text
intent_returns = refl

intent-Reach : Reach hashing json_dumps after_intent
intent-Reach =
    then_step known after_intent (start (requester ∷ []) (mapping ∷ []))
      (intend intent_fields 1 1 1 false intent after_intent intent_returns)

Reach-IsLog_example : IsLog after_intent.deployment_state_events
Reach-IsLog_example = Reach-IsLog hashing json_dumps after_intent intent-Reach

abbrev rollback : DeploymentRollback
rollback = record {
  id = 90;
  deployment_id = 1;
  failed_deployment_id = 1;
  current_production_sha = sha;
  rollback_target_sha = sha;
  rollback_artifact_digest = digest;
}

Reach-create_rollback_link_example :
    create_rollback_link rollback after_intent ≢ ok (rollback, after_intent)
Reach-create_rollback_link_example =
    Reach-create_rollback_link hashing json_dumps after_intent intent-Reach rollback rollback
      after_intent
