-- ===== src/Tests/Approval.antt =====
-- The laws of the approvals, at concrete inputs.
use maoxx_os.Prelude.{
  inr, arith, ==_false→≢, ◌≤◌, length, ◌≡◌, ◌≢◌, refl, String, Bool, false, Option, none, some,
  List, [], ◌∷◌, ok, ◌==◌, string_eq, find, any_of, all_of, elem, codes, hex_run, strip_prefix,
  uuid_text, Uuid, Time,
}
use maoxx_os.Policy.Artifact.{sha_pattern}
use maoxx_os.Tables.{Db, empty_db, ApprovalRequest, ApprovalDecision}
use maoxx_os.Feishu.Authorization.{missing, authorize_feishu_message}
use maoxx_os.Approval.Patterns.{
  is_name_char, segment_pattern, split_slash, repository_pattern, ends_with, is_key_char,
  idempotency_key_pattern,
}
use maoxx_os.Approval.Fields.{
  ApprovalFields, bad_number, expected_environment, bad_repository,
  validate_approval_request_fields,
}
use maoxx_os.Approval.Requests.{
  request_of_key, request_of_id, differs, new_request, request_conflicts, require_matching,
  commit_request, reuse_or_create, create_approval_request,
}
use maoxx_os.Approval.Requests.Laws.{Matches, create_approval_request_idem}
use maoxx_os.Approval.Decisions.{
  ApprovalCommand, ApprovalOutcome, outcome_of, recorded, duplicate, Actor, decision_of_event,
  decision_of_request, bad_event, deployment_unauthorized, decision_conflicts, commit_decision,
  new_decision, decide_request, record_approval_decision, approval_identity_fingerprint,
}
use maoxx_os.Approval.Decisions.Laws.{
  Recorded, record_recorded, record_approval_decision-recorded, record_final,
}
use maoxx_os.Approval.Decisions.Fresh
use maoxx_os.Approval.Actions.{
  Supervision, Delivery, CardAction, ApprovalMessage, wrong_chat, card_refused,
  process_approval_card_action, process_approval_message,
}
use maoxx_os.Approval.Actions.Guards.{Approver, card_recorded-Approver, message_recorded-Approver}
use maoxx_os.Approval.Command.{
  is_space, strip_left, strip_right, is_blank, skip_blanks, blanks, hex_group, dash_then,
  uuid_pattern, digit_value, uuid_value, parse_request, parse_approval_command,
}
use maoxx_os.Tests.Data.{zeros, sha, hashing, ready, request}

abbrev fields : ApprovalFields
fields = record {
  user_id = 10;
  action_code = "merge_pr";
  repository = "Mxx1233/Maoxx-OS";
  pull_request_number = some 7;
  target_sha = sha;
  target_environment = "staging";
  idempotency_key = "merge-7";
  ttl_seconds = 60;
}

abbrev merge_request : ApprovalRequest
merge_request = new_request fields 5 80

abbrev after_create : Db
after_create = record empty_db { approval_requests = merge_request ∷ [] }

create_returns : create_approval_request fields 5 80 [] empty_db ≡ ok (merge_request, after_create)
unfolding create_approval_request reuse_or_create commit_request request_of_key request_conflicts
    require_matching validate_approval_request_fields bad_number expected_environment bad_repository
    repository_pattern split_slash segment_pattern is_name_char ends_with sha_pattern
    idempotency_key_pattern is_key_char find any_of all_of elem codes hex_run
create_returns = refl

create_approval_request_idem_example :
    (request_of_key fields.idempotency_key after_create.approval_requests ≡ some merge_request)
    × Matches fields merge_request
    × ((later : Time) (other_id : Uuid) (others : List ApprovalRequest)
        → create_approval_request fields later other_id others after_create
          ≡ ok (merge_request, after_create))
create_approval_request_idem_example =
    create_approval_request_idem fields 5 80 [] empty_db merge_request after_create create_returns

abbrev command : ApprovalCommand
command = record { decision_code = "approved"; request_id = 40 }

abbrev actor : Actor
actor = record {
  feishu_event_id = "event-1";
  actor_user_id = 11;
  actor_open_id = "ou_2";
  actor_external_identity_id = some 31;
}

-- Bound, and not decided yet.
abbrev pending : Db
pending = record ready { approval_decisions = [] }

abbrev decided : Db
decided = record pending { approval_decisions = new_decision command actor zeros 20 50 ∷ [] }

decision_returns :
    record_approval_decision hashing false command actor 20 50 [] pending
    ≡ (outcome_of recorded "approved", decided)
unfolding record_approval_decision decide_request commit_decision decision_conflicts
    decision_of_event decision_of_request request_of_id deployment_unauthorized bad_event find
    any_of codes
decision_returns = refl

record_recorded_example :
    (r : ApprovalRequest) × (request_of_id 40 pending.approval_requests ≡ some r)
    × (◌≢◌ {A = String} "event-1" "")
    × (length (codes "event-1") ≤ 200)
    × Recorded r
        (new_decision command actor zeros 20 50)
        actor
        20
        []
        pending
        (record_approval_decision hashing false command actor 20 50 [] pending).1
unfolding record_approval_decision decide_request commit_decision decision_conflicts
    decision_of_event decision_of_request request_of_id deployment_unauthorized bad_event find
    any_of codes
record_recorded_example = record_recorded hashing false command actor 20 50 [] pending refl

request_there : request_of_id 40 pending.approval_requests ≡ some request
unfolding request_of_id find
request_there = refl

record_approval_decision-recorded_example :
    (record_approval_decision hashing false command actor 20 50 [] pending).0.code ≡ recorded
unfolding codes
record_approval_decision-recorded_example =
    record_approval_decision-recorded hashing command actor 20 50 [] pending request
      (==_false→≢ {A = String} "event-1" "" refl) (omega arith) request_there
      (inr (31, refl, λ h. omega (arith, h))) (omega arith) tt

record_final_example :
    let after = (record_approval_decision hashing false command actor 20 50 [] pending).1 in
    ((later : Time) (other_id : Uuid) (others : List ApprovalDecision)
      → record_approval_decision hashing false command actor later other_id others after
        ≡ (outcome_of duplicate "approved", after))
    × ((broken : Bool) (other : ApprovalCommand) (by : Actor) (later : Time) (other_id : Uuid)
          (others : List ApprovalDecision)
        → other.request_id ≡ 40
        → (record_approval_decision hashing broken other by later other_id others after).0.code
          ≢ recorded)
unfolding record_approval_decision decide_request commit_decision decision_conflicts
    decision_of_event decision_of_request request_of_id deployment_unauthorized bad_event find
    any_of codes
record_final_example = record_final hashing false command actor 20 50 [] pending refl

abbrev supervision : Supervision
supervision = record {
  feishu = record {
    allowed_tenant_keys = "tenant" ∷ [];
    allowed_open_ids = "ou_1" ∷ "ou_2" ∷ [];
    allowed_chat_types = "group" ∷ [];
  };
  approver_open_ids = "ou_2" ∷ [];
  supervision_chat_id = "oc_9";
}

abbrev delivery : Delivery
delivery = record { database_fails = false; database_now = 20; new_id = 50; raced = [] }

abbrev card : CardAction
card = record {
  action = "approve";
  request_id = 40;
  tenant_key = some "tenant";
  operator_open_id = some "ou_2";
  chat_id = some "oc_9";
  feishu_event_id = "event-1";
  actor_user_id = 11;
  actor_external_identity_id = some 31;
}

card_recorded-Approver_example :
    Approver supervision (some "tenant") (some "ou_2") (some "oc_9")
    × ((card.action == "wait") ≡ false)
unfolding process_approval_card_action card_refused missing wrong_chat record_approval_decision
    decide_request commit_decision decision_conflicts decision_of_event decision_of_request
    request_of_id deployment_unauthorized bad_event find any_of elem codes
card_recorded-Approver_example =
    card_recorded-Approver hashing supervision card delivery pending refl

-- A request that is no deployment's.
abbrev merge_pending : Db
merge_pending = record empty_db {
  approval_requests = record merge_request { expires_at = 100 } ∷ [];
}

abbrev message : ApprovalMessage
message = record {
  text = "批准 00000000-0000-0000-0000-000000000050";
  tenant_key = some "tenant";
  sender_type = some "user";
  sender_open_id = some "ou_2";
  chat_type = some "group";
  chat_id = some "oc_9";
  feishu_event_id = "event-1";
  actor_user_id = 11;
}

message_recorded-Approver_example :
    Approver supervision (some "tenant") (some "ou_2") (some "oc_9")
    × (◌≡◌ {A = Option String} (some "user") (some "user"))
    × ((command : ApprovalCommand) × (r : ApprovalRequest) × ((parse_approval_command
            message.text).command
          ≡ some command)
        × (request_of_id command.request_id merge_pending.approval_requests ≡ some r)
        × (r.deployment_id ≡ none))
unfolding process_approval_message parse_approval_command parse_request uuid_value digit_value
    uuid_pattern dash_then hex_group blanks skip_blanks is_blank strip_right strip_left is_space
    authorize_feishu_message missing wrong_chat record_approval_decision decide_request
    commit_decision decision_conflicts decision_of_event decision_of_request request_of_id
    deployment_unauthorized bad_event find any_of all_of elem codes hex_run strip_prefix uuid_text
message_recorded-Approver_example =
    message_recorded-Approver hashing supervision message delivery merge_pending
      (outcome_of recorded "approved") refl refl
