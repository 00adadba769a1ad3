-- ===== src/Approval/Command.antt =====
-- `parse_approval_command` of app/services/approval_service.py.
use maoxx_os.Prelude.{
  ℕ, zero, suc, ◌+◌, ◌-◌, ◌*◌, String, Bool, true, false, not, ◌&&◌, ◌||◌, Option, none, some, List,
  [], ◌∷◌, codes, is_hex, leb, nat_beq, strip_prefix, nat_eq, list_eq, ◌==◌, ◌!=◌, Uuid, uuid_text,
  if◌then◌else◌,
}
use maoxx_os.Approval.Decisions.{ApprovalCommand}

pub record ApprovalCommandParse : Type 0 where
  pub approval_like : Bool
  pub command : Option ApprovalCommand

-- The characters that `str.strip` takes away.
unfoldable pub is_space : ℕ → Bool
is_space c =
    leb 9 c && leb c 13
    || leb 28 c && leb c 32
    || nat_beq c 133
    || nat_beq c 160
    || nat_beq c 5760
    || leb 8192 c && leb c 8202
    || nat_beq c 8232
    || nat_beq c 8233
    || nat_beq c 8239
    || nat_beq c 8287
    || nat_beq c 12288

unfoldable pub strip_left : List ℕ → List ℕ
strip_left [] = []
strip_left (c ∷ s) = let rest = strip_left s in if is_space c then rest else c ∷ s

unfoldable pub strip_right : List ℕ → List ℕ
strip_right [] = []
strip_right (c ∷ s) = elim (strip_right s) [
  | [] ↦ if is_space c then [] else c ∷ []
  | d ∷ r ↦ c ∷ d ∷ r
]

-- `[ \t]`
unfoldable pub is_blank : ℕ → Bool
is_blank c = nat_beq c 32 || nat_beq c 9

unfoldable pub skip_blanks : List ℕ → List ℕ
skip_blanks [] = []
skip_blanks (c ∷ s) = let rest = skip_blanks s in if is_blank c then rest else c ∷ s

-- `[ \t]+`
unfoldable pub blanks : List ℕ → Option (List ℕ)
blanks [] = none
blanks (c ∷ s) = if is_blank c then some (skip_blanks s) else none

-- The first n digits, if they are hexadecimal, and the rest.
unfoldable pub hex_group : ℕ → List ℕ → Bool × List ℕ
hex_group zero s = (true, s)
hex_group (suc n) [] = (false, [])
hex_group (suc n) (c ∷ s) = let rest = hex_group n s in (is_hex c && rest.0, rest.1)

-- A dash, and behind it what the continuation accepts.
unfoldable pub dash_then : (List ℕ → Bool) → List ℕ → Bool
dash_then k [] = false
dash_then k (c ∷ s) = nat_beq c b'-' && k s

abbrev group_then : ℕ → (List ℕ → Bool) → List ℕ → Bool
group_then n k s = let g = hex_group n s in g.0 && k g.1

-- `[0-9a-f]{8}-[0-9a-f]{4}-[0-9a-f]{4}-[0-9a-f]{4}-[0-9a-f]{12}`
unfoldable pub uuid_pattern : List ℕ → Bool
uuid_pattern = group_then 8 (
    dash_then (
      group_then 4 (
        dash_then
          (group_then 4 (dash_then (group_then 4 (dash_then (group_then 12 (λ s. s == [])))))))))

unfoldable pub digit_value : ℕ → ℕ
digit_value c = if leb c b'9' then c - b'0' else c - b'a' + 10

-- `UUID(text)`, at a text of the pattern: the dashes go, and the rest is one number.
unfoldable pub uuid_value : ℕ → List ℕ → Uuid
uuid_value acc [] = acc
uuid_value acc (c ∷ s) = uuid_value (if nat_beq c b'-' then acc else acc * 16 + digit_value c) s

-- The match of COMMAND_PATTERN behind its first group, and what follows it.
unfoldable pub parse_request : String → List ℕ → ApprovalCommandParse
parse_request decision_code rest =
    let malformed : ApprovalCommandParse = record { approval_like = true; command = none } in
    elim (blanks rest) [
      | none ↦ malformed
      | some request_text ↦
          let request_id = uuid_value 0 request_text in
          if not (uuid_pattern request_text)
          then malformed
          else if codes (uuid_text request_id) != request_text
          then malformed
          else record {
            approval_like = true;
            command = some (record { decision_code = decision_code; request_id = request_id });
          }
    ]

unfoldable pub parse_approval_command : String → ApprovalCommandParse
parse_approval_command text =
    let normalized = strip_right (strip_left (codes text)) in
    elim (strip_prefix (codes "批准") normalized) [
      | some rest ↦ parse_request "approved" rest
      | none ↦ elim (strip_prefix (codes "拒绝") normalized) [
        | some rest ↦ parse_request "rejected" rest
        | none ↦ record { approval_like = false; command = none }
      ]
    ]
