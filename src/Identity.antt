-- ===== src/Identity.antt =====
-- app/services/identity_authority.py: principals, and the mappings of Feishu identities to them. `raced`
-- tells that another transaction commits a mapping of the same identity first.
pub mod Laws
use maoxx_os.Prelude.{
  ℕ, ◌+◌, String, ◌<>◌, Bool, true, false, not, ◌||◌, ◌&&◌, Option, none, some, List, [], ◌∷◌,
  Result, ok, err, identity_error, integrity_error, raise_if, or_raise, ◌>>=◌, ◌>>◌, find, any_of,
  elem, leb, nat_eq, string_eq, option_eq, ◌==◌, ◌!=◌, Uuid, Time, Hashing, if◌then◌else◌,
}
use maoxx_os.Tables.{Db, Principal, ExternalIdentity}
use maoxx_os.Approval.Fields.{is_none}
use maoxx_os.Deployment.Authority.{external_identity_fingerprint}

abbrev pub principal_types : List String
principal_types = "HUMAN" ∷ "SERVICE" ∷ "EXECUTOR" ∷ []

-- The unique keys of the table: the id, the user, if there is one, and the identity key.
unfoldable pub principal_conflicts : Principal → Principal → Bool
principal_conflicts p q =
    q.id == p.id
    || q.identity_key == p.identity_key
    || not (is_none p.user_id) && q.user_id == p.user_id

unfoldable pub provision_principal :
    String → String → Option Uuid → Uuid → Db → Result (Principal × Db)
provision_principal principal_type identity_key user_id new_id db =
    let p : Principal = record {
      id = new_id;
      principal_type = principal_type;
      user_id = user_id;
      identity_key = identity_key;
    } in
    raise_if (not (elem principal_type principal_types)) (identity_error "invalid_principal_type")
    >> raise_if
        (principal_type == "HUMAN" && is_none user_id
          || principal_type != "HUMAN" && not (is_none user_id))
        (identity_error "invalid_principal_user_binding")
    >> raise_if (any_of (principal_conflicts p) db.principals) integrity_error
    >> ok (p, record db { principals = p ∷ db.principals })

-- `db.get(Principal, principal_id)`
unfoldable pub principal_of_id : Uuid → List Principal → Option Principal
principal_of_id id = find (λ p. p.id == id)

-- An active mapping of the identity.
unfoldable pub is_active : String → String → ExternalIdentity → Bool
is_active tenant subject m =
    m.provider == "feishu"
    && m.tenant_fingerprint == tenant
    && m.subject_fingerprint == subject
    && m.valid_to == none

unfoldable pub current_mapping : String → String → List ExternalIdentity → Option ExternalIdentity
current_mapping tenant subject = find (is_active tenant subject)

-- `current.valid_to = now`
unfoldable pub close_mapping :
    String → String → Time → List ExternalIdentity → List ExternalIdentity
close_mapping tenant subject now [] = []
close_mapping tenant subject now (m ∷ ms) =
    let rest = close_mapping tenant subject now ms in
    if is_active tenant subject m then record m { valid_to = some now } ∷ ms else m ∷ rest

-- The unique keys: the id, the version of an identity, and its active mapping.
unfoldable pub mapping_conflicts : ExternalIdentity → ExternalIdentity → Bool
mapping_conflicts m n =
    n.id == m.id
    || is_active m.tenant_fingerprint m.subject_fingerprint n
    || n.provider == m.provider
      && n.tenant_fingerprint == m.tenant_fingerprint
      && n.subject_fingerprint == m.subject_fingerprint
      && n.mapping_version == m.mapping_version

-- Who is mapped to whom.
pub record Assignment : Type 0 where
  pub tenant : String
  pub subject : String
  pub principal_id : Uuid
  pub audit_event_id : Uuid

abbrev pub new_mapping : Assignment → ℕ → Time → Uuid → ExternalIdentity
new_mapping a version now new_id = record {
  id = new_id;
  provider = "feishu";
  tenant_fingerprint = a.tenant;
  subject_fingerprint = a.subject;
  principal_id = a.principal_id;
  mapping_version = version;
  valid_from = now;
  valid_to = none;
  audit_event_id = a.audit_event_id;
}

-- The insert and its commit.
unfoldable pub insert_mapping :
    ExternalIdentity → Bool → List ExternalIdentity → Db → Result (ExternalIdentity × Db)
insert_mapping m raced rows db =
    raise_if (raced || any_of (mapping_conflicts m) rows)
      (identity_error "identity_assignment_conflict")
    >> ok (m, record db { external_identities = m ∷ rows })

-- By the mapping that is active. A mapping ends after it starts, as a check of the table demands.
unfoldable pub replace_mapping :
    Assignment → Time → Bool → Uuid → Db → Option ExternalIdentity → Result (ExternalIdentity × Db)
replace_mapping a now raced new_id db none =
    insert_mapping (new_mapping a 1 now new_id) raced db.external_identities db
replace_mapping a now raced new_id db (some current) =
    if current.principal_id == a.principal_id
    then ok (current, db)
    else raise_if (leb now current.valid_from) integrity_error
      >> insert_mapping (new_mapping a (current.mapping_version + 1) now new_id) raced
          (close_mapping a.tenant a.subject now db.external_identities) db

unfoldable pub human_required : Option Principal → Result Principal
human_required none = err (identity_error "human_principal_required")
human_required (some p) =
    raise_if (p.principal_type != "HUMAN") (identity_error "human_principal_required") >> ok p

unfoldable pub assign : Assignment → Time → Bool → Uuid → Db → Result (ExternalIdentity × Db)
assign a now raced new_id db =
    human_required (principal_of_id a.principal_id db.principals) >>= λ _.
    replace_mapping a now raced new_id db
      (current_mapping a.tenant a.subject db.external_identities)

module _ (hashing : Hashing) where
  unfoldable pub assign_feishu_identity :
      String → String → Uuid → Uuid → Time → Bool → Uuid → Db → Result (ExternalIdentity × Db)
  assign_feishu_identity tenant_id open_id principal_id audit_event_id now raced new_id db =
      assign
        (record {
          tenant = external_identity_fingerprint hashing ("tenant:" <> tenant_id);
          subject = external_identity_fingerprint hashing ("subject:" <> open_id);
          principal_id = principal_id;
          audit_event_id = audit_event_id;
        })
        now raced new_id db
