-- ===== src/Deployment/System/Keeps.antt =====
-- The operations that leave the log of events as it is, and the start, which appends to it.
use maoxx_os.Prelude.{
  ◌≤◌, ◌≡◌, refl, Bool, Option, none, some, List, String, ℕ, ok, arith, bind-ok, or_raise,
  or_raise-ok, gate_error, ◌>>=◌, ◌>>◌, Uuid, Time, Payload, Hashing,
}
use maoxx_os.Policy.Transition.Rank.{rank}
use maoxx_os.Tables.{
  Db, DeploymentIntent, DeploymentEvidence, DeploymentLock, DeploymentRollback,
  DeploymentExecutionAttempt, ApprovalRequest, ApprovalDecision,
}
use maoxx_os.Approval.Fields.{ApprovalFields}
use maoxx_os.Approval.Requests.{
  request_of_key, request_of_id, reuse_or_create, create_approval_request,
}
use maoxx_os.Approval.Decisions.{
  ApprovalCommand, Actor, commit_decision, new_decision, approval_identity_fingerprint,
  decide_request, record_approval_decision,
}
use maoxx_os.Deployment.Authority.{resolve_executor_identity}
use maoxx_os.Deployment.Intents.{intent_of_id}
use maoxx_os.Deployment.Evidence.{record_deployment_evidence}
use maoxx_os.Deployment.Staging.{invalidate_staging_acceptance}
use maoxx_os.Deployment.Bindings.{binding_of, link_rows, create_rollback_link}
use maoxx_os.Deployment.Lock.{
  ProductionLease, LockCall, acquire, acquire_checks, commit_lock, acquire_deployment_lock, owned,
  renew_owned, renew_deployment_lock, release_owned, release_deployment_lock,
}
use maoxx_os.Deployment.Start.{
  StartOutcome, IntentBody, StartCall, StartIds, attempt_of, authorize, deploying_state,
  start_transition, prepare, start_or_reconcile, start_production_deployment,
}
use maoxx_os.Deployment.Start.Laws.{prepare_lem}
use maoxx_os.Deployment.System.Appends.{Appends, same, appended}

-- The log is the same.
abbrev pub Keeps : Db → Db → Type 0
Keeps db after = after.deployment_state_events ≡ db.deployment_state_events

pub record_deployment_evidence-Keeps :
    (e : DeploymentEvidence) (db : Db) (r : DeploymentEvidence) (after : Db)
    → record_deployment_evidence e db ≡ ok (r, after)
    → Keeps db after
unfolding record_deployment_evidence
record_deployment_evidence-Keeps e db r after h = ground arith

pub invalidate_staging_acceptance-Keeps :
    (a : Uuid) (reason : String) (id : Uuid) (db after : Db)
    → invalidate_staging_acceptance a reason id db ≡ ok after
    → Keeps db after
unfolding invalidate_staging_acceptance
invalidate_staging_acceptance-Keeps a reason id db after h = ground arith

link_rows-Keeps :
    (r : DeploymentRollback) (db : Db) (i : Option DeploymentIntent) (a : DeploymentRollback)
    (after : Db)
    → link_rows r db i ≡ ok (a, after)
    → Keeps db after
unfolding link_rows
link_rows-Keeps r db none a after h = absurd (cc)
link_rows-Keeps r db (some i) a after h = ground arith

pub create_rollback_link-Keeps :
    (r : DeploymentRollback) (db : Db) (a : DeploymentRollback) (after : Db)
    → create_rollback_link r db ≡ ok (a, after)
    → Keeps db after
unfolding create_rollback_link
create_rollback_link-Keeps r db a after h =
    link_rows-Keeps r db (intent_of_id r.deployment_id db.deployment_intents) a after h

commit_lock-Keeps :
    (c : LockCall) (now : Time) (raced : Bool) (id : Uuid) (db : Db) (l : DeploymentLock × Payload)
    (lease : ProductionLease) (after : Db)
    → commit_lock c now raced id db l ≡ ok (lease, after)
    → Keeps db after
unfolding commit_lock
commit_lock-Keeps c now raced id db (l, payload) lease after h = ground arith

pub acquire_deployment_lock-Keeps :
    (c : LockCall) (domain : Option String) (now : Time) (raced : Bool) (id : Uuid) (db : Db)
    (lease : ProductionLease) (after : Db)
    → acquire_deployment_lock c domain now raced id db ≡ ok (lease, after)
    → Keeps db after
unfolding acquire_deployment_lock
acquire_deployment_lock-Keeps c domain now raced id db lease after h =
    let (l, _, h1) =
      bind-ok (acquire_checks c domain db >> acquire c now db.deployment_lock)
        (commit_lock c now raced id db) h in
    commit_lock-Keeps c now raced id db l lease after h1

renew_owned-Keeps :
    (c : LockCall) (token : ℕ) (now : Time) (id : Uuid) (db : Db) (o : Option DeploymentLock)
    (after : Db)
    → renew_owned c token now id db o ≡ ok after
    → Keeps db after
unfolding renew_owned
renew_owned-Keeps c token now id db none after h = absurd (cc)
renew_owned-Keeps c token now id db (some l) after h = ground arith

pub renew_deployment_lock-Keeps :
    (c : LockCall) (token : ℕ) (now : Time) (id : Uuid) (db after : Db)
    → renew_deployment_lock c token now id db ≡ ok after
    → Keeps db after
unfolding renew_deployment_lock
renew_deployment_lock-Keeps c token now id db after h =
    renew_owned-Keeps c token now id db (owned c token db.deployment_lock) after h

release_owned-Keeps :
    (c : LockCall) (token : ℕ) (now : Time) (id : Uuid) (db : Db) (o : Option DeploymentLock)
    (after : Db)
    → release_owned c token now id db o ≡ ok after
    → Keeps db after
unfolding release_owned
release_owned-Keeps c token now id db none after h = absurd (cc)
release_owned-Keeps c token now id db (some l) after h = ground arith

pub release_deployment_lock-Keeps :
    (c : LockCall) (token : ℕ) (now : Time) (id : Uuid) (db after : Db)
    → release_deployment_lock c token now id db ≡ ok after
    → Keeps db after
unfolding release_deployment_lock
release_deployment_lock-Keeps c token now id db after h =
    release_owned-Keeps c token now id db (owned c token db.deployment_lock) after h

reuse_or_create-Keeps :
    (f : ApprovalFields) (now : Time) (id : Uuid) (raced : List ApprovalRequest) (db : Db)
    (o : Option ApprovalRequest) (r : ApprovalRequest) (after : Db)
    → reuse_or_create f now id raced db o ≡ ok (r, after)
    → Keeps db after
unfolding reuse_or_create
reuse_or_create-Keeps f now id raced db none r after h = ground arith
reuse_or_create-Keeps f now id raced db (some e) r after h = ground arith

pub create_approval_request-Keeps :
    (f : ApprovalFields) (now : Time) (id : Uuid) (raced : List ApprovalRequest) (db : Db)
    (r : ApprovalRequest) (after : Db)
    → create_approval_request f now id raced db ≡ ok (r, after)
    → Keeps db after
unfolding create_approval_request
create_approval_request-Keeps f now id raced db r after h =
    reuse_or_create-Keeps f now id raced db (request_of_key f.idempotency_key db.approval_requests)
      r after (ground arith)

decide_request-Keeps :
    (o : Option ApprovalRequest) (d : ApprovalDecision) (a : Actor) (now : Time)
    (raced : List ApprovalDecision) (db : Db)
    → Keeps db (decide_request o d a now raced db).1
unfolding decide_request commit_decision
decide_request-Keeps none d a now raced db = refl
decide_request-Keeps (some r) d a now raced db = ground arith

deploying-low : (i : DeploymentIntent) → rank (deploying_state i) ≤ 6
unfolding deploying_state
deploying-low i = ground arith

module _ (hashing : Hashing) where
  pub record_approval_decision-Keeps :
      (fails : Bool) (command : ApprovalCommand) (actor : Actor) (now : Time) (id : Uuid)
      (raced : List ApprovalDecision) (db : Db)
      → Keeps db (record_approval_decision hashing fails command actor now id raced db).1
  unfolding record_approval_decision
  record_approval_decision-Keeps fails command actor now id raced db =
      let kept =
        decide_request-Keeps (request_of_id command.request_id db.approval_requests)
          (new_decision command actor (approval_identity_fingerprint hashing actor.actor_open_id)
            now id)
          actor now raced db in
      ground (arith, kept)

  module _ (json_dumps : IntentBody → String) where
    start_rows :
        (c : StartCall) (ids : StartIds) (now : Time) (i : DeploymentIntent) (db : Db)
        (o : Option DeploymentExecutionAttempt) (r : StartOutcome) (after : Db)
        → start_or_reconcile hashing json_dumps c ids now i db o ≡ ok (r, after)
        → Appends db.deployment_state_events after.deployment_state_events
    unfolding start_or_reconcile
    start_rows c ids now i db (some a) r after h = same (ground arith)
    start_rows c ids now i db none r after h =
        let ((request, decision), _, h1) =
          bind-ok
            (authorize c now i db (binding_of c.deployment_id db.deployment_approval_bindings))
            (prepare hashing json_dumps c ids now i db) h in
        let (_, started) =
          prepare_lem hashing json_dumps c ids now i db request decision r after h1 in
        appended (start_transition c i now) ids.event_id (deploying-low i) started.event

    pub start_production_deployment-Appends :
        (c : StartCall) (ids : StartIds) (now : Time) (db : Db) (r : StartOutcome) (after : Db)
        → start_production_deployment hashing json_dumps c ids now db ≡ ok (r, after)
        → Appends db.deployment_state_events after.deployment_state_events
    unfolding start_production_deployment
    start_production_deployment-Appends c ids now db r after h =
        let attempt = attempt_of c.deployment_id db.deployment_execution_attempts in
        let known = intent_of_id c.deployment_id db.deployment_intents in
        let (_, _, h1) =
          bind-ok (resolve_executor_identity c.owner_identity)
            (λ (_ : String). or_raise known (gate_error "unknown_deployment") >>= λ i.
              start_or_reconcile hashing json_dumps c ids now i db attempt)
            h in
        let (i, _, h2) =
          or_raise-ok known (gate_error "unknown_deployment")
            (λ i. start_or_reconcile hashing json_dumps c ids now i db attempt) h1 in
        start_rows c ids now i db attempt r after h2
