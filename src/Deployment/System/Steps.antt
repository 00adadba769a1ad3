-- ===== src/Deployment/System/Steps.antt =====
-- A run of the control plane: the operations of app/services/approval_service.py and
-- app/services/deployment_service.py in any order, each at any time and by any caller, from a database
-- that knows identities alone; and what holds of every database that a run reaches. Two steps stand for
-- writers outside of these files: identities are assigned, and the row of the lock is written in any way.
-- No code of the repository does the latter: an operator may, to reconcile a stale lock by hand.
use maoxx_os.Prelude.{
  ◌≤◌, ◌≡◌, ◌≢◌, refl, Bool, nat_eq, option_eq, Option, some, List, String, ℕ, ok, All, Uuid, Time,
  Hashing,
}
use maoxx_os.Policy.Transition.{state_eq}
use maoxx_os.Policy.Transition.Rank.{rank}
use maoxx_os.Tables.{
  Db, empty_db, Principal, ExternalIdentity, DeploymentIntent, DeploymentArtifact,
  DeploymentStateEvent, StagingAcceptance, DeploymentEvidence, DeploymentLock, DeploymentRollback,
  ApprovalRequest, ApprovalDecision, DeploymentApprovalBinding,
}
use maoxx_os.Approval.Fields.{ApprovalFields}
use maoxx_os.Approval.Requests.{create_approval_request}
use maoxx_os.Approval.Decisions.{ApprovalCommand, Actor, record_approval_decision}
use maoxx_os.Deployment.Authority.{VerifiedCiEvidence}
use maoxx_os.Deployment.Events.Log.{IsLog, append_state_event-IsLog, append_lem}
use maoxx_os.Deployment.Intents.{IntentFields, create_deployment_intent}
use maoxx_os.Deployment.Evidence.{record_deployment_evidence}
use maoxx_os.Deployment.Artifacts.{ArtifactFields, record_artifact}
use maoxx_os.Deployment.Staging.{
  begin_staging_deployment, record_staging_failure, AcceptanceFields, record_staging_acceptance,
  invalidate_staging_acceptance,
}
use maoxx_os.Deployment.Bindings.{
  BindingCall, BindingIds, create_bound_production_approval, create_rollback_link,
}
use maoxx_os.Deployment.Lock.{
  LockCall, ProductionLease, acquire_deployment_lock, renew_deployment_lock,
  release_deployment_lock,
}
use maoxx_os.Deployment.Start.{
  StartOutcome, IntentBody, StartCall, StartIds, start_production_deployment,
}
use maoxx_os.Deployment.System.Appends.{
  Appends, same, appended, begin_staging_deployment-Appends, record_staging_failure-Appends,
  record_staging_acceptance-Appends, create_deployment_intent-Appends,
  create_bound_production_approval-Appends, record_artifact-Appends,
}
use maoxx_os.Deployment.System.Outcomes.{not_failed, linked_failed}
use maoxx_os.Deployment.System.Keeps.{
  record_deployment_evidence-Keeps, invalidate_staging_acceptance-Keeps, create_rollback_link-Keeps,
  acquire_deployment_lock-Keeps, renew_deployment_lock-Keeps, release_deployment_lock-Keeps,
  create_approval_request-Keeps, record_approval_decision-Keeps,
  start_production_deployment-Appends,
}

module _ (hashing : Hashing) (json_dumps : IntentBody → String) where
  pub data Step (db : Db) : Db → Type 0 where
    intend :
        (f : IntentFields) (now : Time) (id event_id : Uuid) (raced : Bool) (i : DeploymentIntent)
        (after : Db)
        → create_deployment_intent hashing f now id event_id raced db ≡ ok (i, after)
        → Step db after
    build :
        (f : ArtifactFields) (answer : Option VerifiedCiEvidence) (now : Time) (id event_id : Uuid)
        (a : DeploymentArtifact) (after : Db)
        → record_artifact f answer now id event_id db ≡ ok (a, after)
        → Step db after
    stage :
        (d : Uuid) (actor : String) (now : Time) (event_id : Uuid) (after : Db)
        → begin_staging_deployment d actor now event_id db ≡ ok after
        → Step db after
    stage_fails :
        (d : Uuid) (actor code : String) (now : Time) (event_id : Uuid) (after : Db)
        → record_staging_failure d actor code now event_id db ≡ ok after
        → Step db after
    accept :
        (f : AcceptanceFields) (now : Time) (id event_id : Uuid) (a : StagingAcceptance)
        (after : Db)
        → record_staging_acceptance f now id event_id db ≡ ok (a, after)
        → Step db after
    invalidate :
        (acceptance_id : Uuid) (reason : String) (id : Uuid) (after : Db)
        → invalidate_staging_acceptance acceptance_id reason id db ≡ ok after
        → Step db after
    bind :
        (c : BindingCall) (now : Time) (ids : BindingIds) (raced : List ApprovalRequest)
        (b : ApprovalRequest × DeploymentApprovalBinding) (after : Db)
        → create_bound_production_approval hashing c now ids raced db ≡ ok (b, after)
        → Step db after
    request :
        (f : ApprovalFields) (now : Time) (id : Uuid) (raced : List ApprovalRequest)
        (r : ApprovalRequest) (after : Db)
        → create_approval_request f now id raced db ≡ ok (r, after)
        → Step db after
    decide :
        (fails : Bool) (command : ApprovalCommand) (actor : Actor) (now : Time) (id : Uuid)
        (raced : List ApprovalDecision)
        → Step db (record_approval_decision hashing fails command actor now id raced db).1
    witness :
        (e r : DeploymentEvidence) (after : Db)
        → record_deployment_evidence e db ≡ ok (r, after)
        → Step db after
    lock :
        (c : LockCall) (domain : Option String) (now : Time) (raced : Bool) (id : Uuid)
        (lease : ProductionLease) (after : Db)
        → acquire_deployment_lock c domain now raced id db ≡ ok (lease, after)
        → Step db after
    renew :
        (c : LockCall) (token : ℕ) (now : Time) (id : Uuid) (after : Db)
        → renew_deployment_lock c token now id db ≡ ok after
        → Step db after
    release :
        (c : LockCall) (token : ℕ) (now : Time) (id : Uuid) (after : Db)
        → release_deployment_lock c token now id db ≡ ok after
        → Step db after
    launch :
        (c : StartCall) (ids : StartIds) (now : Time) (o : StartOutcome) (after : Db)
        → start_production_deployment hashing json_dumps c ids now db ≡ ok (o, after)
        → Step db after
    link :
        (r a : DeploymentRollback) (after : Db)
        → create_rollback_link r db ≡ ok (a, after)
        → Step db after
    identify :
        (ps : List Principal) (es : List ExternalIdentity)
        → Step db (record db { principals = ps; external_identities = es })
    write_lock : (l : DeploymentLock) → Step db (record db { deployment_lock = some l })

  pub data Reach : Db → Type 0 where
    start :
        (ps : List Principal) (es : List ExternalIdentity)
        → Reach (record empty_db { principals = ps; external_identities = es })
    then_step : (db after : Db) → Reach db → Step db after → Reach after

  Step-Appends :
      (db after : Db)
      → Step db after
      → Appends db.deployment_state_events after.deployment_state_events
  Step-Appends db _ (intend f now id e raced i after h) =
      create_deployment_intent-Appends hashing f now id e raced db i after h
  Step-Appends db _ (build f answer now id e a after h) =
      record_artifact-Appends f answer now id e db a after h
  Step-Appends db _ (stage d actor now e after h) =
      begin_staging_deployment-Appends d actor now e db after h
  Step-Appends db _ (stage_fails d actor code now e after h) =
      record_staging_failure-Appends d actor code now e db after h
  Step-Appends db _ (accept f now id e a after h) =
      record_staging_acceptance-Appends f now id e db a after h
  Step-Appends db _ (invalidate a reason id after h) =
      same (invalidate_staging_acceptance-Keeps a reason id db after h)
  Step-Appends db _ (bind c now ids raced b after h) =
      create_bound_production_approval-Appends hashing c now ids raced db b after h
  Step-Appends db _ (request f now id raced r after h) =
      same (create_approval_request-Keeps f now id raced db r after h)
  Step-Appends db _ (decide fails command actor now id raced) =
      same (record_approval_decision-Keeps hashing fails command actor now id raced db)
  Step-Appends db _ (witness e r after h) = same (record_deployment_evidence-Keeps e db r after h)
  Step-Appends db _ (lock c domain now raced id lease after h) =
      same (acquire_deployment_lock-Keeps c domain now raced id db lease after h)
  Step-Appends db _ (renew c token now id after h) =
      same (renew_deployment_lock-Keeps c token now id db after h)
  Step-Appends db _ (release c token now id after h) =
      same (release_deployment_lock-Keeps c token now id db after h)
  Step-Appends db _ (launch c ids now o after h) =
      start_production_deployment-Appends hashing json_dumps c ids now db o after h
  Step-Appends db _ (link r a after h) = same (create_rollback_link-Keeps r db a after h)
  Step-Appends db _ (identify ps es) = same refl
  Step-Appends db _ (write_lock l) = same refl

  -- The log, and that no event of it is the outcome of a deployment.
  abbrev Sound : List DeploymentStateEvent → Type 0
  Sound es = IsLog es × All (λ e. rank e.to_state ≤ 6) es

  Appends-Sound :
      (before after : List DeploymentStateEvent) → Appends before after → Sound before → Sound after
  Appends-Sound before after (same e) s = rw e s
  Appends-Sound before after (appended t id low h) s =
      let (written, _) = append_lem t id before after h in
      (append_state_event-IsLog t id before after h s.0, rw written (low, s.1))

  Reach-Sound : (db : Db) → Reach db → Sound db.deployment_state_events
  Reach-Sound _ (start ps es) = (tt, tt)
  Reach-Sound _ (then_step db after r s) =
      Appends-Sound db.deployment_state_events after.deployment_state_events
        (Step-Appends db after s) (Reach-Sound db r)

  -- On every database that a run reaches, the state events are a log: each follows the newest one
  -- before it, of its deployment, by the next number and by a legal step.
  pub Reach-IsLog : (db : Db) → Reach db → IsLog db.deployment_state_events
  Reach-IsLog db r = (Reach-Sound db r).0

  -- No run ever links a rollback: the link asks for a deployment whose newest state is
  -- PRODUCTION_FAILED, and no operation that is called records the outcome of a deployment.
  pub Reach-create_rollback_link :
      (db : Db)
      → Reach db
      → (r a : DeploymentRollback) (after : Db) → create_rollback_link r db ≢ ok (a, after)
  Reach-create_rollback_link db reached r a after h =
      let failed = linked_failed r db a after h in
      not_failed r.failed_deployment_id db.deployment_state_events (Reach-Sound db reached).1 failed
