-- ===== src/Deployment/Lock.antt =====
-- The production lock: `acquire_deployment_lock`, `renew_deployment_lock`, `release_deployment_lock` of
-- app/services/deployment_service.py. `raced` tells that another transaction inserts the one row of the
-- table between the query, which finds none to lock, and the flush. The module knows no other way to
-- write the row: what a host writes to reconcile a stale lock is not code of the repository's service.
pub mod Laws
use maoxx_os.Prelude.{
  ℕ, ◌+◌, String, Bool, true, false, not, ◌&&◌, ◌||◌, Option, none, some, List, [], ◌∷◌, Result, ok,
  err, policy_error, gate_error, Error, integrity_error, raise_if, ◌>>=◌, ◌>>◌, ltb, leb, nat_eq,
  string_eq, option_eq, ◌==◌, ◌!=◌, Uuid, Time, seconds, Json, text, number, null, Payload,
  if◌then◌else◌,
}
use maoxx_os.Tables.{Db, DeploymentLock, DeploymentEvidence}
use maoxx_os.Approval.Fields.{is_none}
use maoxx_os.Deployment.Authority.{resolve_executor_identity}
use maoxx_os.Deployment.Intents.{intent_of_id}
use maoxx_os.Deployment.Evidence.{evidence_of_key, add_evidence}

abbrev pub production_conflict_domain : String
production_conflict_domain = "production:global"

pub record ProductionLease : Type 0 where
  pub deployment_id : Uuid
  pub owner_identity : String
  pub fencing_token : ℕ

-- Who asks, for how long, and under which key of evidence.
pub record LockCall : Type 0 where
  pub deployment_id : Uuid
  pub owner_identity : String
  pub lease_seconds : ℕ
  pub evidence_key : String

unfoldable pub bad_lease : ℕ → Bool
bad_lease lease_seconds = ltb lease_seconds 5 || ltb 900 lease_seconds

abbrev pub lock_evidence : LockCall → String → Payload → Time → Uuid → DeploymentEvidence
lock_evidence c evidence_type payload now new_id = record {
  id = new_id;
  deployment_id = c.deployment_id;
  evidence_type = evidence_type;
  evidence_key = c.evidence_key;
  status_code = "recorded";
  payload = payload;
  occurred_at = now;
}

abbrev pub first_lock : LockCall → Time → DeploymentLock
first_lock c now = record {
  environment = "production";
  deployment_id = c.deployment_id;
  owner_identity = c.owner_identity;
  fencing_token = 1;
  acquired_at = now;
  renewed_at = now;
  lease_expires_at = now + seconds c.lease_seconds;
  stale_reconciled_at = none;
  stale_reconciled_token = none;
  stale_reconciliation_evidence_key = none;
}

abbrev pub taken_lock : LockCall → Time → DeploymentLock → DeploymentLock
taken_lock c now lock = record lock {
  deployment_id = c.deployment_id;
  owner_identity = c.owner_identity;
  fencing_token = lock.fencing_token + 1;
  acquired_at = now;
  renewed_at = now;
  lease_expires_at = now + seconds c.lease_seconds;
}

-- `not lock.stale_reconciliation_evidence_key`
abbrev pub no_key : Option String → Bool
no_key none = true
no_key (some k) = k == ""

abbrev pub key_text : Option String → Json
key_text none = null
key_text (some k) = text k

unfoldable pub not_reconciled : DeploymentLock → Bool
not_reconciled lock =
    is_none lock.stale_reconciled_at
    || lock.stale_reconciled_token != some lock.fencing_token
    || no_key lock.stale_reconciliation_evidence_key

abbrev pub held_payload : String → ℕ → Payload
held_payload owner token =
    ("conflict_domain", text production_conflict_domain)
    ∷ ("owner", text owner)
    ∷ ("fencing_token", number token)
    ∷ []

abbrev pub taken_payload : LockCall → DeploymentLock → Payload
taken_payload c lock =
    ("conflict_domain", text production_conflict_domain)
    ∷ ("prior_owner", text lock.owner_identity)
    ∷ ("prior_fencing_token", number lock.fencing_token)
    ∷ ("new_owner", text c.owner_identity)
    ∷ ("new_fencing_token", number (lock.fencing_token + 1))
    ∷ ("reconciliation_evidence_key", key_text lock.stale_reconciliation_evidence_key)
    ∷ []

-- Of a live lease of the caller's own.
unfoldable pub holds : LockCall → Time → DeploymentLock → Bool
holds c now lock =
    lock.deployment_id == c.deployment_id
    && lock.owner_identity == c.owner_identity
    && ltb now lock.lease_expires_at

unfoldable pub take_over : LockCall → Time → DeploymentLock → Result (DeploymentLock × Payload)
take_over c now lock =
    if leb lock.lease_expires_at now
    then if not_reconciled lock
      then err (gate_error "stale_lock_reconciliation_required")
      else ok (taken_lock c now lock, taken_payload c lock)
    else err (gate_error "lock_conflict")

-- The lock that is held afterwards and what is told of it, by the row that is there.
unfoldable pub acquire : LockCall → Time → Option DeploymentLock → Result (DeploymentLock × Payload)
acquire c now none = ok (first_lock c now, held_payload c.owner_identity 1)
acquire c now (some lock) =
    if holds c now lock
    then ok (lock, held_payload c.owner_identity lock.fencing_token)
    else take_over c now lock

abbrev pub lease_of : LockCall → DeploymentLock → ProductionLease
lease_of c lock = record {
  deployment_id = c.deployment_id;
  owner_identity = c.owner_identity;
  fencing_token = lock.fencing_token;
}

-- Sessions do not flush on their own, so an insert that was raced fails in `_add_evidence`, which flushes
-- its new row outside the handler, or else in the commit, where the handler stands.
abbrev pub raced_error : DeploymentEvidence → List DeploymentEvidence → Error
raced_error e rows =
    if is_none (evidence_of_key e rows) then integrity_error else gate_error "lock_conflict"

-- The evidence and the commit, with the lock that is held and what is told of it.
unfoldable pub commit_lock :
    LockCall → Time → Bool → Uuid → Db → DeploymentLock × Payload → Result (ProductionLease × Db)
commit_lock c now raced new_id db (lock, payload) =
    let e = lock_evidence c "lock_acquired" payload now new_id in
    add_evidence e db.deployment_evidence
    >>= λ (added : DeploymentEvidence × List DeploymentEvidence).
        raise_if (raced && is_none db.deployment_lock) (raced_error e db.deployment_evidence)
        >> ok (
          lease_of c lock,
          record db { deployment_lock = some lock; deployment_evidence = added.1 },
        )

-- What is asked of the call, before the row is read.
unfoldable pub acquire_checks : LockCall → Option String → Db → Result (Unit {0})
acquire_checks c conflict_domain db =
    raise_if (conflict_domain != none && conflict_domain != some production_conflict_domain)
      (gate_error "canonical_conflict_domain_required")
    >> resolve_executor_identity c.owner_identity
    >>= λ _.
        raise_if (bad_lease c.lease_seconds) (policy_error "invalid lock lease")
        >> raise_if (is_none (intent_of_id c.deployment_id db.deployment_intents))
            (gate_error "unknown_deployment")

unfoldable pub acquire_deployment_lock :
    LockCall → Option String → Time → Bool → Uuid → Db → Result (ProductionLease × Db)
acquire_deployment_lock c conflict_domain now raced new_id db =
    acquire_checks c conflict_domain db
    >> acquire c now db.deployment_lock
    >>= commit_lock c now raced new_id db

-- `lock is None or ...`: the row, where it is the caller's.
unfoldable pub owned : LockCall → ℕ → Option DeploymentLock → Option DeploymentLock
owned c fencing_token none = none
owned c fencing_token (some lock) =
    if lock.deployment_id == c.deployment_id
      && lock.owner_identity == c.owner_identity
      && lock.fencing_token == fencing_token
    then some lock
    else none

abbrev pub token_payload : ℕ → Payload
token_payload fencing_token =
    ("conflict_domain", text production_conflict_domain)
    ∷ ("fencing_token", number fencing_token)
    ∷ []

abbrev pub renewed_lock : LockCall → Time → DeploymentLock → DeploymentLock
renewed_lock c now lock = record lock {
  renewed_at = now;
  lease_expires_at = now + seconds c.lease_seconds;
}

-- By the caller's row.
unfoldable pub renew_owned : LockCall → ℕ → Time → Uuid → Db → Option DeploymentLock → Result Db
renew_owned c fencing_token now new_id db none = err (gate_error "lock_not_owned")
renew_owned c fencing_token now new_id db (some lock) =
    raise_if (leb lock.lease_expires_at now) (gate_error "lock_not_owned")
    >> raise_if (bad_lease c.lease_seconds) (policy_error "invalid lock lease")
    >> add_evidence (lock_evidence c "lock_renewed" (token_payload fencing_token) now new_id)
        db.deployment_evidence
    >>= λ (_, rows).
        ok (record db {
          deployment_lock = some (renewed_lock c now lock);
          deployment_evidence = rows;
        })

unfoldable pub renew_deployment_lock : LockCall → ℕ → Time → Uuid → Db → Result Db
renew_deployment_lock c fencing_token now new_id db =
    renew_owned c fencing_token now new_id db (owned c fencing_token db.deployment_lock)

unfoldable pub release_owned : LockCall → ℕ → Time → Uuid → Db → Option DeploymentLock → Result Db
release_owned c fencing_token now new_id db none = err (gate_error "lock_not_owned")
release_owned c fencing_token now new_id db (some lock) =
    add_evidence (lock_evidence c "lock_released" (token_payload fencing_token) now new_id)
      db.deployment_evidence
    >>= λ (_, rows). ok (record db { deployment_lock = none; deployment_evidence = rows })

-- A release takes no lease: its call's `lease_seconds` is not read.
unfoldable pub release_deployment_lock : LockCall → ℕ → Time → Uuid → Db → Result Db
release_deployment_lock c fencing_token now new_id db =
    release_owned c fencing_token now new_id db (owned c fencing_token db.deployment_lock)
