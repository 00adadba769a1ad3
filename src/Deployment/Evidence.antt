-- ===== src/Deployment/Evidence.antt =====
-- `_add_evidence`, `record_deployment_evidence`, `record_resource_gate`, `_require_passed_evidence` of
-- app/services/deployment_service.py.
use maoxx_os.Prelude.{
  String, ◌<>◌, Bool, not, ◌&&◌, ◌||◌, Option, none, some, List, [], ◌∷◌, Result, ok, err,
  policy_error, gate_error, integrity_error, raise_if, or_raise, ◌>>=◌, ◌>>◌, find, any_of, elem,
  ltb, nat_eq, string_eq, option_eq, ◌==◌, ◌!=◌, Uuid, payload_beq, if◌then◌else◌,
}
use maoxx_os.Tables.{Db, DeploymentEvidence}
use maoxx_os.Approval.Patterns.{idempotency_key_pattern}
use maoxx_os.Approval.Fields.{is_none}
use maoxx_os.Deployment.Intents.{intent_of_id}

abbrev pub evidence_types : List String
evidence_types =
    "predeploy_backup" ∷ "resource_gate" ∷ "lock_acquired" ∷ "lock_renewed" ∷ "lock_released"
    ∷ "stale_lock_reconciled" ∷ "executor_started" ∷ "executor_result" ∷ "health_verification"
    ∷ "interruption_reconciliation" ∷ "stale_lock_reconciliation" ∷ "execution_attempt"
    ∷ "mutation_started" ∷ "runtime_observation" ∷ "feishu_notification" ∷ "migration_plan"
    ∷ "failure" ∷ []

abbrev pub evidence_statuses : List String
evidence_statuses = "pending" ∷ "passed" ∷ "failed" ∷ "recorded" ∷ []

-- The columns of the row that is asked for; its id is drawn when it is inserted.
unfoldable pub evidence_of_key :
    DeploymentEvidence → List DeploymentEvidence → Option DeploymentEvidence
evidence_of_key e = find (λ f.
    f.deployment_id == e.deployment_id
    && f.evidence_type == e.evidence_type
    && f.evidence_key == e.evidence_key)

-- The primary key; the unique key is the query's.
unfoldable pub evidence_conflicts : DeploymentEvidence → List DeploymentEvidence → Bool
evidence_conflicts e = any_of (λ f. f.id == e.id)

-- By what the query of the key reads.
unfoldable pub reuse_or_insert_evidence :
    DeploymentEvidence
    → List DeploymentEvidence
    → Option DeploymentEvidence
    → Result (DeploymentEvidence × List DeploymentEvidence)
reuse_or_insert_evidence e rows (some existing) =
    raise_if (existing.status_code != e.status_code || not (payload_beq existing.payload e.payload))
      (gate_error "evidence_replay_conflict")
    >> ok (existing, rows)
reuse_or_insert_evidence e rows none =
    raise_if (evidence_conflicts e rows) integrity_error >> ok (e, e ∷ rows)

-- `_add_evidence`
unfoldable pub add_evidence :
    DeploymentEvidence
    → List DeploymentEvidence
    → Result (DeploymentEvidence × List DeploymentEvidence)
add_evidence e rows =
    raise_if (not (elem e.evidence_type evidence_types)) (policy_error "unsupported evidence type")
    >> raise_if (not (idempotency_key_pattern e.evidence_key)) (policy_error "invalid evidence key")
    >> raise_if (not (elem e.status_code evidence_statuses))
        (policy_error "invalid evidence status")
    >> reuse_or_insert_evidence e rows (evidence_of_key e rows)

unfoldable pub record_deployment_evidence :
    DeploymentEvidence → Db → Result (DeploymentEvidence × Db)
record_deployment_evidence e db =
    raise_if (is_none (intent_of_id e.deployment_id db.deployment_intents))
      (gate_error "unknown_deployment")
    >> raise_if (e.evidence_type == "resource_gate")
        (gate_error "resource_evidence_must_be_evaluated")
    >> raise_if (e.evidence_type == "predeploy_backup" && e.status_code == "passed")
        (gate_error "backup_evidence_must_be_authority_verified")
    >> add_evidence e db.deployment_evidence
    >>= λ (evidence, rows). ok (evidence, record db { deployment_evidence = rows })

-- It raises at once: the samples are the supervisor's to collect.
unfoldable pub record_resource_gate : Db → Result (DeploymentEvidence × Db)
record_resource_gate db = err (gate_error "trusted_production_resource_collector_required")

-- The later of a row and what the rest of its table has; of rows of one time, the query may give any.
abbrev newer : DeploymentEvidence → Option DeploymentEvidence → DeploymentEvidence
newer e none = e
newer e (some f) = if ltb e.occurred_at f.occurred_at then f else e

-- `ORDER BY occurred_at DESC LIMIT 1`
unfoldable pub latest_evidence : Uuid → String → List DeploymentEvidence → Option DeploymentEvidence
latest_evidence d evidence_type [] = none
latest_evidence d evidence_type (e ∷ es) =
    let rest = latest_evidence d evidence_type es in
    if e.deployment_id == d && e.evidence_type == evidence_type then some (newer e rest) else rest

-- `_require_passed_evidence`
unfoldable pub require_passed_evidence : Uuid → String → Db → Result DeploymentEvidence
require_passed_evidence d evidence_type db =
    or_raise (latest_evidence d evidence_type db.deployment_evidence)
      (gate_error ("missing_" <> evidence_type))
    >>= λ evidence.
        raise_if (evidence.status_code != "passed") (gate_error ("missing_" <> evidence_type))
        >> ok evidence
