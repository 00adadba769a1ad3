-- ===== src/Deployment/Authority.antt =====
-- Identities and CI evidence: app/services/deployment_authority.py, and its uses in
-- app/services/deployment_service.py. What the GitHub verifier answers is an argument of the
-- operations that ask it.
use maoxx_os.Prelude.{
  ℕ, String, ◌<>◌, Bool, true, false, not, ◌&&◌, Option, none, some, List, [], ◌∷◌, Result, ok, err,
  gate_error, value_error, raise_if, ◌>>◌, find, nat_eq, string_eq, option_eq, ◌==◌, ◌!=◌, Uuid,
  uuid_text, Time, Dict, Hashing, if◌then◌else◌,
}
use maoxx_os.Tables.{Db, Principal, ExternalIdentity}

pub record ResolvedExternalHuman : Type 0 where
  pub user_id : Uuid
  pub principal_id : Uuid
  pub mapping_id : Uuid
  pub mapping_version : ℕ

pub record VerifiedCiEvidence : Type 0 where
  pub repository : String
  pub target_sha : String
  pub run_id : ℕ
  pub workflow_name : String
  pub event : String
  pub status : String
  pub conclusion : String
  pub quality_gate_conclusion : String
  pub protected_main_membership : Bool
  pub verified_at : Time
  -- `verified_at.tzinfo is not None`
  pub verified_at_has_zone : Bool
  pub provenance : Dict String
  pub provenance_source : String

abbrev pub is_empty_dict : Dict String → Bool
is_empty_dict [] = true
is_empty_dict (_ ∷ _) = false

-- `_valid_verified_ci`
unfoldable pub valid_verified_ci : VerifiedCiEvidence → String → String → ℕ → Bool
valid_verified_ci evidence repository target_sha run_id =
    evidence.provenance_source == "github_checks_api"
    && evidence.repository == repository
    && evidence.target_sha == target_sha
    && evidence.run_id == run_id
    && evidence.event == "push"
    && evidence.status == "completed"
    && evidence.conclusion == "success"
    && evidence.quality_gate_conclusion == "success"
    && evidence.protected_main_membership
    && not (evidence.workflow_name == "")
    && not (is_empty_dict evidence.provenance)
    && evidence.verified_at_has_zone

-- `ci_verifier.verify`, which raises ValueError where there is no answer
abbrev pub verify : Option VerifiedCiEvidence → Result VerifiedCiEvidence
verify none = err (value_error "github_authority_verification_failed")
verify (some v) = ok v

abbrev pub supervisor_identity : String
supervisor_identity = "maoxx-production-deployment-supervisor"

-- `_resolve_executor_identity`
unfoldable pub resolve_executor_identity : String → Result String
resolve_executor_identity service_id =
    raise_if (service_id != supervisor_identity)
      (gate_error "unknown_or_ambiguous_executor_identity")
    >> ok service_id

-- `resolve_human`: the principal of a user
unfoldable pub human_of_user : Uuid → List Principal → Option Principal
human_of_user user_id = find (λ p. p.user_id == some user_id && p.principal_type == "HUMAN")

unfoldable pub resolve_human_identity : Db → Uuid → Result Uuid
resolve_human_identity db user_id = elim (human_of_user user_id db.principals) [
  | none ↦ err (gate_error "unknown_or_ambiguous_human_identity")
  | some _ ↦ ok user_id
]

-- The rows of the join in `resolve_feishu_principal`.
unfoldable pub mapped_rows :
    String → String → List Principal → List ExternalIdentity → List (ExternalIdentity × Principal)
mapped_rows tenant subject principals [] = []
mapped_rows tenant subject principals (m ∷ ms) =
    let rest = mapped_rows tenant subject principals ms in
    if m.provider == "feishu"
      && m.tenant_fingerprint == tenant
      && m.subject_fingerprint == subject
      && m.valid_to == none
    then elim (find (λ p. p.id == m.principal_id && p.principal_type == "HUMAN") principals) [
      | none ↦ rest
      | some p ↦ (m, p) ∷ rest
    ]
    else rest

-- `len(rows) != 1 or rows[0][1].user_id is None`
unfoldable pub only_row : List (ExternalIdentity × Principal) → Option ResolvedExternalHuman
only_row ((m, p) ∷ []) = elim p.user_id [
  | none ↦ none
  | some user_id ↦ some (record {
    user_id = user_id;
    principal_id = p.id;
    mapping_id = m.id;
    mapping_version = m.mapping_version;
  })
]
only_row _ = none

module _ (hashing : Hashing) where
  open hashing use {sha256_hex}

  -- `CanonicalHumanIdentity.fingerprint`
  unfoldable pub human_fingerprint : Uuid → String
  human_fingerprint user_id = sha256_hex ("human:" <> uuid_text user_id)

  unfoldable pub external_identity_fingerprint : String → String
  external_identity_fingerprint value = sha256_hex ("external:" <> value)

  unfoldable pub resolve_feishu_principal : Db → String → String → Option ResolvedExternalHuman
  resolve_feishu_principal db tenant_id open_id = only_row (
      mapped_rows (external_identity_fingerprint ("tenant:" <> tenant_id))
        (external_identity_fingerprint ("subject:" <> open_id)) db.principals
        db.external_identities)
