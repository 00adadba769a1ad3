-- ===== src/Approval/Decisions.antt =====
-- `record_approval_decision` and `inspect_pending_approval_request` of
-- app/services/approval_service.py. A database error (SQLAlchemyError) may strike any query; what
-- it leaves is a rolled back transaction, so one flag stands for all of them. `raced` holds the
-- decisions that other transactions commit between the queries and this commit.

pub mod Fresh
pub mod Laws
use maoxx_os.Prelude.{
  String, Bool, true, false, not, ◌&&◌, ◌||◌, Option, none, some, List, ◌∷◌, ◌++◌, codes, length,
  ltb, leb, find, any_of, nat_eq, string_eq, option_eq, ◌==◌, ◌!=◌, Uuid, Time, Hashing,
  if◌then◌else◌,
}
use maoxx_os.Tables.{Db, ApprovalRequest, ApprovalDecision}
use maoxx_os.Approval.Fields.{is_none}
use maoxx_os.Approval.Requests.{request_of_id}

pub record ApprovalCommand : Type 0 where
  pub decision_code : String
  pub request_id : Uuid

pub data OutcomeCode : Type 0 where
  malformed unauthorized invalid_event unknown_request expired already_decided : OutcomeCode
  event_conflict conflict unavailable duplicate recorded waiting : OutcomeCode

pub record ApprovalOutcome : Type 0 where
  pub code : OutcomeCode
  pub decision_code : Option String

abbrev pub outcome : OutcomeCode → ApprovalOutcome
outcome c = record { code = c; decision_code = none }

abbrev pub outcome_of : OutcomeCode → String → ApprovalOutcome
outcome_of c d = record { code = c; decision_code = some d }

-- Who decides, and by which event.
pub record Actor : Type 0 where
  pub feishu_event_id : String
  pub actor_user_id : Uuid
  pub actor_open_id : String
  pub actor_external_identity_id : Option Uuid

unfoldable pub decision_of_event : String → List ApprovalDecision → Option ApprovalDecision
decision_of_event event_id = find (λ d. d.feishu_event_id == event_id)

unfoldable pub decision_of_request : Uuid → List ApprovalDecision → Option ApprovalDecision
decision_of_request request_id = find (λ d. d.request_id == request_id)

-- `not feishu_event_id or len(feishu_event_id) > 200`
unfoldable pub bad_event : String → Bool
bad_event event_id = event_id == "" || ltb 200 (length (codes event_id))

unfoldable pub matching_duplicate : ApprovalDecision → ApprovalCommand → Uuid → String → Bool
matching_duplicate decision command actor_user_id actor_fingerprint =
    decision.request_id == command.request_id
    && decision.decision_code == command.decision_code
    && decision.actor_user_id == actor_user_id
    && decision.approver_identity_fingerprint == actor_fingerprint

-- A deployment's approval wants a mapped identity that is not the requester's.
unfoldable pub deployment_unauthorized : ApprovalRequest → Actor → Bool
deployment_unauthorized request actor =
    not (is_none request.deployment_id)
    && (is_none actor.actor_external_identity_id || request.user_id == actor.actor_user_id)

-- The primary key and the two unique keys of the table.
unfoldable pub decision_conflicts : ApprovalDecision → List ApprovalDecision → Bool
decision_conflicts d =
    any_of
      (λ e. e.id == d.id || e.request_id == d.request_id || e.feishu_event_id == d.feishu_event_id)

-- The commit: it inserts, or it meets an IntegrityError and rolls back.
unfoldable pub commit_decision :
    ApprovalDecision → List ApprovalDecision → Db → ApprovalOutcome × Db
commit_decision d raced db =
    let rows = raced ++ db.approval_decisions in
    if decision_conflicts d rows
    then (outcome conflict, record db { approval_decisions = rows })
    else (outcome_of recorded d.decision_code, record db { approval_decisions = d ∷ rows })

abbrev pub new_decision : ApprovalCommand → Actor → String → Time → Uuid → ApprovalDecision
new_decision command actor fingerprint database_now new_id = record {
  id = new_id;
  request_id = command.request_id;
  decision_code = command.decision_code;
  actor_user_id = actor.actor_user_id;
  actor_external_identity_id = actor.actor_external_identity_id;
  approver_identity_fingerprint = fingerprint;
  feishu_event_id = actor.feishu_event_id;
  decided_at = database_now;
}

-- From the query of the request on, which locks its row.
unfoldable pub decide_request :
    Option ApprovalRequest
    → ApprovalDecision
    → Actor
    → Time
    → List ApprovalDecision
    → Db
    → ApprovalOutcome × Db
decide_request none decision actor database_now raced db = (outcome unknown_request, db)
decide_request (some request) decision actor database_now raced db =
    if deployment_unauthorized request actor
    then (outcome unauthorized, db)
    else if leb request.expires_at database_now
    then (outcome expired, db)
    else if not (is_none (decision_of_request decision.request_id db.approval_decisions))
    then (outcome already_decided, db)
    else commit_decision decision raced db

module _ (hashing : Hashing) where
  open hashing use {sha256_hex}

  -- `approval_identity_fingerprint`
  abbrev pub approval_identity_fingerprint : String → String
  approval_identity_fingerprint open_id = sha256_hex open_id

  unfoldable pub record_approval_decision :
      Bool
      → ApprovalCommand
      → Actor
      → Time
      → Uuid
      → List ApprovalDecision
      → Db
      → ApprovalOutcome × Db
  record_approval_decision database_fails command actor database_now new_id raced db =
      let fingerprint = approval_identity_fingerprint actor.actor_open_id in
      let decision = new_decision command actor fingerprint database_now new_id in
      if bad_event actor.feishu_event_id
      then (outcome invalid_event, db)
      else if database_fails
      then (outcome unavailable, db)
      else elim (decision_of_event actor.feishu_event_id db.approval_decisions) [
        | some duplicate_event ↦ (
          if matching_duplicate duplicate_event command actor.actor_user_id fingerprint
              then outcome_of duplicate command.decision_code
              else outcome event_conflict,
          db,
        )
        | none ↦
            decide_request (request_of_id command.request_id db.approval_requests) decision actor
              database_now raced db
      ]

-- Every path rolls back, so the database is only read.
unfoldable pub inspect_pending_approval_request : Bool → Uuid → Time → Db → ApprovalOutcome
inspect_pending_approval_request database_fails request_id database_now db =
    if database_fails
    then outcome unavailable
    else elim (request_of_id request_id db.approval_requests) [
      | none ↦ outcome unknown_request
      | some request ↦
          if leb request.expires_at database_now
          then outcome expired
          else if not (is_none (decision_of_request request_id db.approval_decisions))
          then outcome already_decided
          else outcome waiting
    ]
