-- ===== src/Feishu/Authorization.antt =====
-- app/services/feishu_authorization.py. A frozenset of allowed keys is the list of them.
use maoxx_os.Prelude.{
  String, ◌≡◌, ◌↔◌, Bool, true, false, not, ◌||◌, Option, none, some, List, arith, elem, string_eq,
  option_eq, option_beq_iff, ◌==◌, ◌!=◌, if◌then◌else◌,
}

pub record AuthorizationDecision : Type 0 where
  pub allowed : Bool
  pub reason : String

pub record FeishuPolicy : Type 0 where
  pub allowed_tenant_keys : List String
  pub allowed_open_ids : List String
  pub allowed_chat_types : List String

-- `not value or value not in allowed`
unfoldable pub missing : Option String → List String → Bool
missing none allowed = true
missing (some value) allowed = value == "" || not (elem value allowed)

unfoldable pub authorize_feishu_message :
    FeishuPolicy
    → Option String
    → Option String
    → Option String
    → Option String
    → AuthorizationDecision
authorize_feishu_message p tenant_key sender_type sender_open_id chat_type =
    if missing tenant_key p.allowed_tenant_keys
    then record { allowed = false; reason = "tenant_not_allowed" }
    else if sender_type != some "user"
    then record { allowed = false; reason = "sender_type_not_allowed" }
    else if missing sender_open_id p.allowed_open_ids
    then record { allowed = false; reason = "sender_not_allowed" }
    else if missing chat_type p.allowed_chat_types
    then record { allowed = false; reason = "chat_type_not_allowed" }
    else record { allowed = true; reason = "allowed" }

-- A message is allowed exactly when the tenant, the sender and the chat type are present and
-- listed, and the sender is a user.
pub authorize_feishu_message_iff :
    (p : FeishuPolicy) (tenant sender_type sender chat_type : Option String)
    → ((authorize_feishu_message p tenant sender_type sender chat_type).allowed ≡ true) ↔ (
        (missing tenant p.allowed_tenant_keys ≡ false)
        × (sender_type ≡ some "user")
        × (missing sender p.allowed_open_ids ≡ false)
        × (missing chat_type p.allowed_chat_types ≡ false))
unfolding authorize_feishu_message
authorize_feishu_message_iff p tenant sender_type sender chat_type = (
  λ h. ground (arith, option_beq_iff sender_type (some "user")),
  λ h. ground (arith, option_beq_iff sender_type (some "user")),
)
