-- ===== src/Supervisor/Evidence.antt =====
-- What the supervisor of app/services/production_supervisor.py writes to the table of evidence, past
-- `_add_evidence`: `record_resource`, `record_runtime_result`, `record_mutation_submitted`; and
-- `mutation_submitted`.
use maoxx_os.Prelude.{
  String, ◌<>◌, Bool, not, ◌||◌, ◌&&◌, [], ◌∷◌, Result, ok, supervisor_error, integrity_error,
  raise_if, ◌>>◌, any_of, nat_eq, string_eq, ◌==◌, Uuid, uuid_text, Time, text, number, Payload,
  if◌then◌else◌,
}
use maoxx_os.Tables.{Db, DeploymentEvidence}
use maoxx_os.Approval.Fields.{is_none}
use maoxx_os.Deployment.Authority.{supervisor_identity}
use maoxx_os.Deployment.Evidence.{evidence_of_key}
use maoxx_os.Supervisor.Attempt.{
  RuntimeState, healthy, failed, runtime_state_eq, state_text, SupervisorAttempt,
}
use maoxx_os.Supervisor.Resources.{TrustedResourceResult, require_fresh}

-- The unique keys of the table: the id, and the deployment with the type and the key.
unfoldable pub insert_evidence : DeploymentEvidence → Db → Result Db
insert_evidence e db =
    raise_if
      (any_of (λ f. f.id == e.id) db.deployment_evidence
        || not (is_none (evidence_of_key e db.deployment_evidence)))
      integrity_error
    >> ok (record db { deployment_evidence = e ∷ db.deployment_evidence })

abbrev pub attempt_payload : SupervisorAttempt → Payload
attempt_payload a =
    ("deployment_id", text (uuid_text a.deployment_id))
    ∷ ("execution_attempt_id", text (uuid_text a.execution_attempt_id))
    ∷ ("fencing_epoch", number a.fencing_epoch)
    ∷ ("intent_hash", text a.intent_hash)
    ∷ []

unfoldable pub result_status : RuntimeState → String
result_status state =
    if state == healthy then "passed" else if state == failed then "failed" else "pending"

abbrev pub result_row : SupervisorAttempt → RuntimeState → String → Time → Uuid → DeploymentEvidence
result_row a state source now new_id = record {
  id = new_id;
  deployment_id = a.deployment_id;
  evidence_type = "supervisor_runtime_result";
  evidence_key = uuid_text a.execution_attempt_id <> ":" <> source <> ":" <> state_text state;
  status_code = result_status state;
  payload =
      ("runtime_state", text (state_text state))
      ∷ ("source", text source)
      ∷ ("producer_identity", text supervisor_identity)
      ∷ attempt_payload a;
  occurred_at = now;
}

unfoldable pub record_runtime_result :
    SupervisorAttempt → RuntimeState → String → Time → Uuid → Db → Result Db
record_runtime_result a state source now new_id =
    insert_evidence (result_row a state source now new_id)

abbrev pub marker_row : SupervisorAttempt → Time → Uuid → DeploymentEvidence
marker_row a now new_id = record {
  id = new_id;
  deployment_id = a.deployment_id;
  evidence_type = "mutation_submitted";
  evidence_key = uuid_text a.execution_attempt_id;
  status_code = "recorded";
  payload = ("producer_identity", text supervisor_identity) ∷ attempt_payload a;
  occurred_at = now;
}

unfoldable pub is_marker : Uuid → Uuid → DeploymentEvidence → Bool
is_marker deployment_id attempt_id e =
    e.deployment_id == deployment_id
    && e.evidence_type == "mutation_submitted"
    && e.evidence_key == uuid_text attempt_id

unfoldable pub is_marked : Uuid → Uuid → Db → Bool
is_marked deployment_id attempt_id db =
    any_of (is_marker deployment_id attempt_id) db.deployment_evidence

unfoldable pub mutation_submitted : SupervisorAttempt → Db → Bool
mutation_submitted a db = is_marked a.deployment_id a.execution_attempt_id db

unfoldable pub record_mutation_submitted : SupervisorAttempt → Time → Uuid → Db → Result Db
record_mutation_submitted a now new_id db =
    if mutation_submitted a db then ok db else insert_evidence (marker_row a now new_id) db

abbrev pub resource_row : TrustedResourceResult → Payload → Uuid → DeploymentEvidence
resource_row r payload new_id = record {
  id = new_id;
  deployment_id = r.deployment_id;
  evidence_type = "resource_gate";
  evidence_key = uuid_text r.checkpoint_nonce;
  status_code = if r.passed then "passed" else "failed";
  payload = payload;
  occurred_at = r.evaluated_at;
}

module _ (resource_payload : TrustedResourceResult → Payload) where
  -- `record_resource`. The payload, which holds the result and its samples again, is an argument.
  unfoldable pub record_resource : TrustedResourceResult → Time → Uuid → Db → Result Db
  record_resource r now new_id db =
      let e = resource_row r (resource_payload r) new_id in
      require_fresh r now
      >> raise_if (not (is_none (evidence_of_key e db.deployment_evidence)))
          (supervisor_error "resource_checkpoint_already_used")
      >> insert_evidence e db
