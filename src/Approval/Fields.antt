-- ===== src/Approval/Fields.antt =====
-- `validate_approval_request_fields` of app/services/approval_service.py. An int below 0 fares as 0
-- does in each test, so the numbers are natural.
use maoxx_os.Prelude.{
  ℕ, String, Bool, true, false, not, ◌||◌, ◌&&◌, Option, none, some, List, [], ◌∷◌, Result,
  validation_error, ◌>>◌, raise_if, codes, elem, ltb, string_eq, option_eq, ◌==◌, ◌!=◌, Uuid,
  if◌then◌else◌,
}
use maoxx_os.Policy.Artifact.{sha_pattern}
use maoxx_os.Approval.Patterns.{repository_pattern, ends_with, idempotency_key_pattern}

pub record ApprovalFields : Type 0 where
  pub user_id : Uuid
  pub action_code : String
  pub repository : String
  pub pull_request_number : Option ℕ
  pub target_sha : String
  pub target_environment : String
  pub idempotency_key : String
  pub ttl_seconds : ℕ

abbrev pub approval_actions : List String
approval_actions =
    "development_plan" ∷ "merge_pr" ∷ "production_deploy" ∷ "rollback_production" ∷ []

abbrev pub target_environments : List String
target_environments = "development" ∷ "staging" ∷ "production" ∷ []

-- `pull_request_number is not None and pull_request_number < 1`
unfoldable pub bad_number : Option ℕ → Bool
bad_number none = false
bad_number (some n) = ltb n 1

abbrev pub is_none {ℓ} : {A : Type ℓ} → Option A → Bool
is_none none = true
is_none (some _) = false

-- The dict of environments, at an action that is in it.
unfoldable pub expected_environment : String → String
expected_environment action_code =
    if action_code == "development_plan"
    then "development"
    else if action_code == "merge_pr"
    then "staging"
    else "production"

unfoldable pub bad_repository : String → Bool
bad_repository repository =
    not (repository_pattern repository) || ends_with (codes ".git") (codes repository)

unfoldable pub validate_approval_request_fields : ApprovalFields → Result (Unit {0})
validate_approval_request_fields f =
    raise_if (not (elem f.action_code approval_actions))
      (validation_error "unsupported action_code")
    >> raise_if (bad_repository f.repository) (validation_error "invalid repository")
    >> raise_if (bad_number f.pull_request_number) (validation_error "invalid pull_request_number")
    >> raise_if (not (sha_pattern f.target_sha)) (validation_error "invalid target_sha")
    >> raise_if (not (elem f.target_environment target_environments))
        (validation_error "invalid target_environment")
    >> raise_if (not (idempotency_key_pattern f.idempotency_key))
        (validation_error "invalid idempotency_key")
    >> raise_if (ltb f.ttl_seconds 1 || ltb 86400 f.ttl_seconds)
        (validation_error "invalid ttl_seconds")
    >> raise_if (f.action_code == "merge_pr" && is_none f.pull_request_number)
        (validation_error "merge_pr requires pull_request_number")
    >> raise_if (f.target_environment != expected_environment f.action_code)
        (validation_error "action/environment mismatch")
