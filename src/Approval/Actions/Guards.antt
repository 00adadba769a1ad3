-- ===== src/Approval/Actions/Guards.antt =====
-- The guards of the card action and the chat message of app/services/approval_service.py.
use maoxx_os.Prelude.{
  String, ◌≡◌, ◌≢◌, refl, Bool, true, false, Option, none, some, List, arith, elem, Uuid, Time,
  Hashing, string_eq, option_eq, ◌==◌, Option-cases, inl, inr, !=_false→≡, ==_false→≢,
}
use maoxx_os.Tables.{Db, ApprovalRequest}
use maoxx_os.Feishu.Authorization.{missing, authorize_feishu_message, authorize_feishu_message_iff}
use maoxx_os.Approval.Requests.{request_of_id}
use maoxx_os.Approval.Command.{parse_approval_command}
use maoxx_os.Approval.Decisions.{
  ApprovalOutcome, recorded, ApprovalCommand, Actor, record_approval_decision,
  inspect_pending_approval_request,
}
use maoxx_os.Approval.Decisions.Fresh.{MayDecide}
use maoxx_os.Approval.Decisions.Laws.{record_recorded}
use maoxx_os.Approval.Actions.{
  Supervision, Delivery, CardAction, ApprovalMessage, or_empty, wrong_chat, card_refused,
  process_approval_card_action, process_approval_message,
}

-- A value that is present and allowed.
pub record Allowed (value : Option String) (allowed : List String) : Type 0 where
  pub key : String
  pub present : value ≡ some key
  pub listed : elem key allowed ≡ true

missing-false :
    (value : Option String) (allowed : List String)
    → missing value allowed ≡ false
    → Allowed value allowed
unfolding missing
missing-false none allowed h = absurd (cc)
missing-false (some v) allowed h = record { key = v; present = refl; listed = ground arith }

inspect-ne-recorded :
    (f : Bool) (id : Uuid) (now : Time) (db : Db)
    → (inspect_pending_approval_request f id now db).code ≢ recorded
unfolding inspect_pending_approval_request
inspect-ne-recorded f id now db h = ground arith

-- The operator of a card is in the tenant, allowed and an approver, and acts in the supervision chat.
pub record Approver (s : Supervision) (tenant operator chat : Option String) : Type 0 where
  pub tenant_allowed : Allowed tenant s.feishu.allowed_tenant_keys
  pub operator_allowed : Allowed operator s.feishu.allowed_open_ids
  pub operator_approves : Allowed operator s.approver_open_ids
  pub in_chat : chat ≡ some s.supervision_chat_id
  pub chat_set : s.supervision_chat_id ≢ ""

chat_lem :
    (s : Supervision) (chat : Option String)
    → wrong_chat s chat ≡ false
    → (chat ≡ some s.supervision_chat_id) × (s.supervision_chat_id ≢ "")
unfolding wrong_chat
chat_lem s chat h = (
  !=_false→≡ chat (some s.supervision_chat_id) (ground arith),
  ==_false→≢ s.supervision_chat_id "" (ground arith),
)

card_not_refused :
    (s : Supervision) (c : CardAction)
    → card_refused s c ≡ false
    → Approver s c.tenant_key c.operator_open_id c.chat_id
unfolding card_refused
card_not_refused s c h = record {
  tenant_allowed = missing-false c.tenant_key s.feishu.allowed_tenant_keys (ground arith);
  operator_allowed = missing-false c.operator_open_id s.feishu.allowed_open_ids (ground arith);
  operator_approves = missing-false c.operator_open_id s.approver_open_ids (ground arith);
  in_chat = (chat_lem s c.chat_id (ground arith)).0;
  chat_set = (chat_lem s c.chat_id (ground arith)).1;
}

module _ (hashing : Hashing) where
  card_tests :
      (s : Supervision) (c : CardAction) (d : Delivery) (db : Db)
      → (process_approval_card_action hashing s c d db).0.code ≡ recorded
      → (card_refused s c ≡ false) × ((c.action == "wait") ≡ false)
  unfolding process_approval_card_action
  card_tests s c d db h =
      ground (arith, inspect-ne-recorded d.database_fails c.request_id d.database_now db)

  -- A card records a decision only for an operator who is listed and an approver, of a tenant that is
  -- listed, and who acts in the supervision chat, which is configured; and never for `wait`.
  pub card_recorded-Approver :
      (s : Supervision) (c : CardAction) (d : Delivery) (db : Db)
      → (process_approval_card_action hashing s c d db).0.code ≡ recorded
      → Approver s c.tenant_key c.operator_open_id c.chat_id × ((c.action == "wait") ≡ false)
  card_recorded-Approver s c d db h =
      let (allowed, decides) = card_tests s c d db h in (card_not_refused s c allowed, decides)

  abbrev message_actor : ApprovalMessage → Actor
  message_actor m = record {
    feishu_event_id = m.feishu_event_id;
    actor_user_id = m.actor_user_id;
    actor_open_id = or_empty m.sender_open_id;
    actor_external_identity_id = none;
  }

  -- What a message that was recorded has passed.
  record MessageTests (s : Supervision) (m : ApprovalMessage) (d : Delivery) (db : Db)
      : Type 0 where
    command : ApprovalCommand
    parsed : (parse_approval_command m.text).command ≡ some command
    allowed :
        (authorize_feishu_message s.feishu m.tenant_key m.sender_type m.sender_open_id
          m.chat_type).allowed
        ≡ true
    approves : missing m.sender_open_id s.approver_open_ids ≡ false
    chat : wrong_chat s m.chat_id ≡ false
    written :
        (record_approval_decision hashing d.database_fails command
          (message_actor m)
          d.database_now
          d.new_id
          d.raced
          db).0.code
        ≡ recorded

  message_tests :
      (s : Supervision) (m : ApprovalMessage) (d : Delivery) (db : Db) (o : ApprovalOutcome)
      → (process_approval_message hashing s m d db).0 ≡ some o
      → o.code ≡ recorded
      → MessageTests s m d db
  unfolding process_approval_message
  message_tests s m d db o e h = elim (Option-cases (parse_approval_command m.text).command) [
    | inl malformed_text ↦ absurd (ground arith)
    | inr (command, p) ↦ record {
      command = command;
      parsed = p;
      allowed = ground arith;
      approves = ground arith;
      chat = ground arith;
      written = ground arith;
    }
  ]

  no_deployment :
      (r : ApprovalRequest) (m : ApprovalMessage)
      → MayDecide r (message_actor m)
      → r.deployment_id ≡ none
  no_deployment r m (inl h) = h
  no_deployment r m (inr (identity, mapped, _)) = absurd (cc)

  -- A text message records a decision only for an approver who is a user of the tenant and writes
  -- in the supervision chat, and never for the request of a deployment.
  pub message_recorded-Approver :
      (s : Supervision) (m : ApprovalMessage) (d : Delivery) (db : Db) (o : ApprovalOutcome)
      → (process_approval_message hashing s m d db).0 ≡ some o
      → o.code ≡ recorded
      → Approver s m.tenant_key m.sender_open_id m.chat_id
        × (m.sender_type ≡ some "user")
        × ((command : ApprovalCommand) × (r : ApprovalRequest) × ((parse_approval_command
                m.text).command
              ≡ some command)
            × (request_of_id command.request_id db.approval_requests ≡ some r)
            × (r.deployment_id ≡ none))
  message_recorded-Approver s m d db o e h =
      let t = message_tests s m d db o e h in
      let (tenant, user, sender, _) =
        (authorize_feishu_message_iff s.feishu m.tenant_key m.sender_type m.sender_open_id
            m.chat_type).0
          t.allowed in
      let (r, found, _, _, rec) =
        record_recorded hashing d.database_fails t.command (message_actor m) d.database_now d.new_id
          d.raced db t.written in
      (
        record {
          tenant_allowed = missing-false m.tenant_key s.feishu.allowed_tenant_keys tenant;
          operator_allowed = missing-false m.sender_open_id s.feishu.allowed_open_ids sender;
          operator_approves = missing-false m.sender_open_id s.approver_open_ids t.approves;
          in_chat = (chat_lem s m.chat_id t.chat).0;
          chat_set = (chat_lem s m.chat_id t.chat).1;
        },
        user,
        (t.command, r, t.parsed, found, no_deployment r m rec.authorized),
      )
