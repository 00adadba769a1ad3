-- ===== src/Approval/Requests.antt =====
-- `create_approval_request` of app/services/approval_service.py. `raced` holds the requests that
-- other transactions commit between the first query and this commit.
pub mod Laws
use maoxx_os.Prelude.{
  String, ◌+◌, Bool, ◌||◌, true, false, Option, none, some, List, ◌∷◌, ◌++◌, Result, ok, err,
  validation_error, integrity_error, ◌>>=◌, ◌>>◌, raise_if, find, any_of, nat_eq, string_eq,
  option_eq, ◌==◌, ◌!=◌, Uuid, Time, seconds,
}
use maoxx_os.Tables.{Db, ApprovalRequest}
use maoxx_os.Approval.Fields.{ApprovalFields, validate_approval_request_fields}

-- `WHERE idempotency_key = key`
unfoldable pub request_of_key : String → List ApprovalRequest → Option ApprovalRequest
request_of_key key = find (λ r. r.idempotency_key == key)

-- `WHERE id = request_id`
unfoldable pub request_of_id : Uuid → List ApprovalRequest → Option ApprovalRequest
request_of_id request_id = find (λ r. r.id == request_id)

-- `actual != expected`
unfoldable pub differs : ApprovalFields → ApprovalRequest → Bool
differs f r =
    r.user_id != f.user_id
    || r.action_code != f.action_code
    || r.repository != f.repository
    || r.pull_request_number != f.pull_request_number
    || r.target_sha != f.target_sha
    || r.target_environment != f.target_environment

unfoldable pub require_matching : ApprovalFields → ApprovalRequest → Result ApprovalRequest
require_matching f existing_request =
    raise_if (differs f existing_request) (validation_error "idempotency_key conflict")
    >> ok existing_request

abbrev pub new_request : ApprovalFields → Time → Uuid → ApprovalRequest
new_request f database_now new_id = record {
  id = new_id;
  user_id = f.user_id;
  action_code = f.action_code;
  repository = f.repository;
  pull_request_number = f.pull_request_number;
  target_sha = f.target_sha;
  target_environment = f.target_environment;
  deployment_id = none;
  artifact_digest = none;
  idempotency_key = f.idempotency_key;
  requested_at = database_now;
  expires_at = database_now + seconds f.ttl_seconds;
  card_message_id = none;
}

-- The primary key and the unique key of the table.
unfoldable pub request_conflicts : ApprovalRequest → List ApprovalRequest → Bool
request_conflicts r = any_of (λ q. q.id == r.id || q.idempotency_key == r.idempotency_key)

-- The commit, by whether it conflicts and what the second query reads: it inserts, or it meets an
-- IntegrityError and takes the row that raced it.
unfoldable pub commit_request :
    ApprovalFields
    → ApprovalRequest
    → List ApprovalRequest
    → Bool
    → Option ApprovalRequest
    → Result (ApprovalRequest × List ApprovalRequest)
commit_request f request rows false _ = ok (request, request ∷ rows)
commit_request f request rows true none = err integrity_error
commit_request f request rows true (some raced_request) =
    require_matching f raced_request >>= λ r. ok (r, rows)

-- Behind the validation, by what the first query reads.
unfoldable pub reuse_or_create :
    ApprovalFields
    → Time
    → Uuid
    → List ApprovalRequest
    → Db
    → Option ApprovalRequest
    → Result (ApprovalRequest × Db)
reuse_or_create f database_now new_id raced db (some existing) =
    require_matching f existing >>= λ r. ok (r, db)
reuse_or_create f database_now new_id raced db none =
    let request = new_request f database_now new_id in
    let rows = raced ++ db.approval_requests in
    commit_request f request rows (request_conflicts request rows)
      (request_of_key f.idempotency_key rows)
    >>= λ (r, rows'). ok (r, record db { approval_requests = rows' })

unfoldable pub create_approval_request :
    ApprovalFields → Time → Uuid → List ApprovalRequest → Db → Result (ApprovalRequest × Db)
create_approval_request f database_now new_id raced db =
    validate_approval_request_fields f
    >> reuse_or_create f database_now new_id raced db
        (request_of_key f.idempotency_key db.approval_requests)
