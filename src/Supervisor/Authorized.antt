-- ===== src/Supervisor/Authorized.antt =====
-- What `SQLAlchemyAttemptAuthority.load` of app/services/production_supervisor.py guarantees of the attempt
-- that it returns.
use maoxx_os.Policy.Health.{elem-subset}
use maoxx_os.Prelude.{
  List, Dict, map, elem, true, ◌↔◌, ◌≡◌, ◌≤◌, ◌<◌, ◌+◌, false, Option, some, ok, or_raise,
  or_raise-ok, bind-ok, ◌>>=◌, !=_false→≡, arith, nat_eq, string_eq, option_eq, String, Uuid, Time,
  Hashing, supervisor_error,
}
use maoxx_os.Tables.{Db, DeploymentLock}
use maoxx_os.Deployment.Authority.{VerifiedCiEvidence, supervisor_identity}
use maoxx_os.Deployment.Start.{IntentBody, calculate_intent_hash}
use maoxx_os.Supervisor.Attempt.{SupervisorAttempt}
use maoxx_os.Supervisor.Authority.{
  AttemptFacts, read_facts, facts_body, facts_attempt, services_differ, rows_mismatch, ci_mismatch,
  check_facts, load_attempt,
}

-- What an attempt's hash covers.
abbrev pub attempt_body : SupervisorAttempt → IntentBody
attempt_body a = record {
  deployment_id = a.deployment_id;
  execution_attempt_id = a.execution_attempt_id;
  fencing_epoch = a.fencing_epoch;
  repository = a.repository;
  target_sha = a.target_sha;
  service_images = a.service_images;
  artifact_digest = a.artifact_digest;
  expected_migration_revision = a.expected_migration_revision;
}

-- The production lock is the supervisor's, and its token is the attempt's.
pub record HoldsLock (a : SupervisorAttempt) (l : DeploymentLock) : Type 0 where
  pub deployment : l.deployment_id ≡ a.deployment_id
  pub token : l.fencing_token ≡ a.fencing_epoch
  pub owner : l.owner_identity ≡ supervisor_identity

-- A text stands in one list exactly when it stands in the other.
abbrev pub SameMembers : List String → List String → Type 0
SameMembers xs ys = (x : String) → (elem x xs ≡ true) ↔ (elem x ys ≡ true)

-- The rows agree with the attempt: an approval that is consumed, and a staging acceptance of the digest
-- that has not run out. Whether the acceptance was invalidated is not read.
pub record RowsAgree (a : SupervisorAttempt) (f : AttemptFacts) (now : Time) : Type 0 where
  pub staged : f.acceptance.artifact_digest ≡ a.artifact_digest
  pub staged_until : now < f.acceptance.valid_until
  pub services : SameMembers (map (λ kv. kv.0) a.service_images) f.intent.service_set
  pub request_of : f.request.deployment_id ≡ some a.deployment_id
  pub request_digest : f.request.artifact_digest ≡ some a.artifact_digest
  pub approved : f.decision.decision_code ≡ "approved"
  pub consumed : f.consumption.approval_decision_id ≡ f.decision.id
  pub backup_passed : f.backup.status_code ≡ "passed"

-- The CI evidence is of the attempt's commit, and at most 15 minutes old.
pub record CiAgrees (a : SupervisorAttempt) (v : VerifiedCiEvidence) (now : Time) : Type 0 where
  pub repository : v.repository ≡ a.repository
  pub sha : v.target_sha ≡ a.target_sha
  pub fresh : now ≤ v.verified_at + 900000000

services_lem :
    (images : Dict String) (services : List String)
    → services_differ images services ≡ false
    → SameMembers (map (λ kv. kv.0) images) services
unfolding services_differ
services_lem images services h x = (
  elem-subset x (map (λ kv. kv.0) images) services (ground arith),
  elem-subset x services (map (λ kv. kv.0) images) (ground arith),
)

-- The test of the rows, one disjunct after the other.
rows_lem :
    (f : AttemptFacts) (calculated : String) (now : Time)
    → rows_mismatch f calculated now ≡ false
    → (f.execution.intent_hash ≡ calculated)
      × HoldsLock (facts_attempt f) f.lock
      × RowsAgree (facts_attempt f) f now
unfolding rows_mismatch
rows_lem f calculated now h = (
  !=_false→≡ f.execution.intent_hash calculated (ground arith),
  record {
    deployment = !=_false→≡ f.lock.deployment_id f.intent.id (ground arith);
    token = !=_false→≡ f.lock.fencing_token f.execution.fencing_token (ground arith);
    owner = !=_false→≡ f.lock.owner_identity supervisor_identity (ground arith);
  },
  record {
    staged = !=_false→≡ f.acceptance.artifact_digest f.intent.artifact_digest (ground arith);
    staged_until = ground arith;
    services = services_lem f.artifact.service_images f.intent.service_set (ground arith);
    request_of = !=_false→≡ f.request.deployment_id (some f.intent.id) (ground arith);
    request_digest =
        !=_false→≡ f.request.artifact_digest (some f.intent.artifact_digest) (ground arith);
    approved = !=_false→≡ f.decision.decision_code "approved" (ground arith);
    consumed = !=_false→≡ f.consumption.approval_decision_id f.decision.id (ground arith);
    backup_passed = !=_false→≡ f.backup.status_code "passed" (ground arith);
  },
)

ci_lem :
    (f : AttemptFacts) (v : VerifiedCiEvidence) (now : Time)
    → ci_mismatch f v now ≡ false
    → CiAgrees (facts_attempt f) v now
unfolding ci_mismatch
ci_lem f v now h = record {
  repository = !=_false→≡ v.repository f.intent.repository (ground arith);
  sha = !=_false→≡ v.target_sha f.intent.target_sha (ground arith);
  fresh = ground arith;
}

lock_read :
    (id : Uuid) (db : Db) (f : AttemptFacts)
    → read_facts id db ≡ ok f
    → db.deployment_lock ≡ some f.lock
unfolding read_facts
lock_read id db f h = ground arith

module _ (from_iso : String → Option Time) where
  check_lem :
      (f : AttemptFacts) (calculated : String) (v : VerifiedCiEvidence) (now : Time)
      (a : SupervisorAttempt)
      → check_facts from_iso f calculated v now ≡ ok a
      → (a ≡ facts_attempt f)
        × (rows_mismatch f calculated now ≡ false)
        × (ci_mismatch f v now ≡ false)
  unfolding check_facts
  check_lem f calculated v now a h = ground arith

  module _ (hashing : Hashing) (json_dumps : IntentBody → String) where
    -- The hash of an attempt that is loaded is the one that is calculated from its own fields; the
    -- production lock is the supervisor's, with the attempt's token; the deployment's approval is
    -- granted and consumed, the staging acceptance of its digest has not run out, its services are
    -- those of the intent, and its backup passed; and CI confirms its repository and commit, no more
    -- than 15 minutes ago. An acceptance that was invalidated is loaded all the same.
    pub load_attempt-Authorized :
        (id : Uuid) (answer : Option VerifiedCiEvidence) (now : Time) (db : Db)
        (a : SupervisorAttempt)
        → load_attempt from_iso hashing json_dumps id answer now db ≡ ok a
        → (a.intent_hash ≡ calculate_intent_hash hashing json_dumps (attempt_body a))
          × ((l : DeploymentLock) × (db.deployment_lock ≡ some l) × HoldsLock a l)
          × ((f : AttemptFacts) × (read_facts id db ≡ ok f) × RowsAgree a f now)
          × ((v : VerifiedCiEvidence) × (answer ≡ some v) × CiAgrees a v now)
    unfolding load_attempt
    load_attempt-Authorized id answer now db a h =
        let calculated : AttemptFacts → String =
          λ f. calculate_intent_hash hashing json_dumps (facts_body f) in
        let (f, read, h1) =
          bind-ok (read_facts id db)
            (λ f. or_raise answer (supervisor_error "db_disconnected") >>= λ v.
              check_facts from_iso f (calculated f) v now)
            h in
        let (v, answered, h2) =
          or_raise-ok answer (supervisor_error "db_disconnected")
            (λ v. check_facts from_iso f (calculated f) v now) h1 in
        let (same, rows, ci) = check_lem f (calculated f) v now a h2 in
        let (hashed, held, agree) = rows_lem f (calculated f) now rows in
        rw same (
          hashed,
          (f.lock, lock_read id db f read, held),
          (f, read, agree),
          (v, answered, ci_lem f v now ci),
        )
