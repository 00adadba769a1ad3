-- ===== src/Approval/Actions.antt =====
-- `process_approval_card_action` and `process_approval_message` of
-- app/services/approval_service.py: who may decide, from a card and by a message.
pub mod Guards
use maoxx_os.Prelude.{
  String, ◌≡◌, Bool, true, false, not, ◌||◌, Option, none, some, List, [], ◌∷◌, elem, string_eq,
  option_eq, ◌==◌, ◌!=◌, Uuid, Time, Hashing, if◌then◌else◌,
}
use maoxx_os.Tables.{Db, ApprovalDecision}
use maoxx_os.Feishu.Authorization.{FeishuPolicy, missing, authorize_feishu_message}
use maoxx_os.Approval.Command.{parse_approval_command}
use maoxx_os.Approval.Decisions.{
  ApprovalCommand, ApprovalOutcome, outcome, malformed, unauthorized, invalid_event, Actor,
  bad_event, record_approval_decision, inspect_pending_approval_request,
}

-- The configured approvers and the chat that supervises them.
pub record Supervision : Type 0 where
  pub feishu : FeishuPolicy
  pub approver_open_ids : List String
  pub supervision_chat_id : String

-- One delivery: when it is handled, the id that a new row takes, what others commit, and whether
-- the database fails.
pub record Delivery : Type 0 where
  pub database_fails : Bool
  pub database_now : Time
  pub new_id : Uuid
  pub raced : List ApprovalDecision

pub record CardAction : Type 0 where
  pub action : String
  pub request_id : Uuid
  pub tenant_key : Option String
  pub operator_open_id : Option String
  pub chat_id : Option String
  pub feishu_event_id : String
  pub actor_user_id : Uuid
  pub actor_external_identity_id : Option Uuid

pub record ApprovalMessage : Type 0 where
  pub text : String
  pub tenant_key : Option String
  pub sender_type : Option String
  pub sender_open_id : Option String
  pub chat_type : Option String
  pub chat_id : Option String
  pub feishu_event_id : String
  pub actor_user_id : Uuid

abbrev pub or_empty : Option String → String
or_empty none = ""
or_empty (some s) = s

-- `not supervision_chat_id or chat_id != supervision_chat_id`
unfoldable pub wrong_chat : Supervision → Option String → Bool
wrong_chat s chat_id = s.supervision_chat_id == "" || chat_id != some s.supervision_chat_id

unfoldable pub card_refused : Supervision → CardAction → Bool
card_refused s c =
    missing c.tenant_key s.feishu.allowed_tenant_keys
    || missing c.operator_open_id s.feishu.allowed_open_ids
    || missing c.operator_open_id s.approver_open_ids
    || wrong_chat s c.chat_id

module _ (hashing : Hashing) where
  unfoldable pub process_approval_card_action :
      Supervision → CardAction → Delivery → Db → ApprovalOutcome × Db
  process_approval_card_action s c d db =
      let actor : Actor = record {
        feishu_event_id = c.feishu_event_id;
        actor_user_id = c.actor_user_id;
        actor_open_id = or_empty c.operator_open_id;
        actor_external_identity_id = c.actor_external_identity_id;
      } in
      let command : ApprovalCommand = record {
        decision_code = if c.action == "approve" then "approved" else "rejected";
        request_id = c.request_id;
      } in
      if not (elem c.action ("approve" ∷ "reject" ∷ "wait" ∷ []))
      then (outcome malformed, db)
      else if bad_event c.feishu_event_id
      then (outcome invalid_event, db)
      else if card_refused s c
      then (outcome unauthorized, db)
      else if c.action == "wait"
      then (inspect_pending_approval_request d.database_fails c.request_id d.database_now db, db)
      else record_approval_decision hashing d.database_fails command actor d.database_now d.new_id
          d.raced db

  -- `None`, for a text that is no approval, is `none`.
  unfoldable pub process_approval_message :
      Supervision → ApprovalMessage → Delivery → Db → Option ApprovalOutcome × Db
  process_approval_message s m d db =
      let actor : Actor = record {
        feishu_event_id = m.feishu_event_id;
        actor_user_id = m.actor_user_id;
        actor_open_id = or_empty m.sender_open_id;
        actor_external_identity_id = none;
      } in
      let parsed = parse_approval_command m.text in
      let authorization =
        authorize_feishu_message s.feishu m.tenant_key m.sender_type m.sender_open_id m.chat_type in
      if not parsed.approval_like then (none, db) else elim parsed.command [
        | none ↦ (some (outcome malformed), db)
        | some command ↦
            if not authorization.allowed
            then (some (outcome unauthorized), db)
            else if missing m.sender_open_id s.approver_open_ids || wrong_chat s m.chat_id
            then (some (outcome unauthorized), db)
            else let (o, after) =
                record_approval_decision hashing d.database_fails command actor d.database_now
                  d.new_id d.raced db in
              (some o, after)
      ]
