-- ===== src/Deployment/Start/Guards.antt =====
-- What the guards of `start_production_deployment` test, app/services/deployment_service.py.
use maoxx_os.Prelude.{
  ◌<◌, ◌≡◌, ◌≢◌, refl, false, Option, none, some, ok, arith, !=_false→≡, nat_eq, string_eq,
  option_eq, Uuid, Time,
}
use maoxx_os.Tables.{
  Db, DeploymentIntent, ApprovalRequest, ApprovalDecision, DeploymentLock,
  DeploymentApprovalBinding,
}
use maoxx_os.Approval.Requests.{request_of_id}
use maoxx_os.Approval.Decisions.{decision_of_request}
use maoxx_os.Deployment.Start.{
  StartCall, lock_invalid, approval_invalid, authorized_rows, authorize,
}

-- The approval of an intent, which someone else gave in time, and that has not run out.
pub record Approved (d : Uuid) (now : Time) (intent : DeploymentIntent) (request : ApprovalRequest)
    (decision : ApprovalDecision) : Type 0 where
  pub same_deployment : request.deployment_id ≡ some d
  pub same_artifact : request.artifact_digest ≡ some intent.artifact_digest
  pub current : now < request.expires_at
  pub in_time : decision.decided_at < request.expires_at
  pub approved : decision.decision_code ≡ "approved"
  pub separated : decision.actor_user_id ≢ intent.user_id

-- A live lease of the caller's.
pub record Leased (c : StartCall) (now : Time) (lock : DeploymentLock) : Type 0 where
  pub same_deployment : lock.deployment_id ≡ c.deployment_id
  pub same_owner : lock.owner_identity ≡ c.owner_identity
  pub same_token : lock.fencing_token ≡ c.fencing_token
  pub running : now < lock.lease_expires_at

pub lock_lem :
    (c : StartCall) (now : Time) (lock : DeploymentLock)
    → lock_invalid c now lock ≡ false
    → Leased c now lock
unfolding lock_invalid
lock_lem c now lock h = record {
  same_deployment = ground arith;
  same_owner = !=_false→≡ lock.owner_identity c.owner_identity (ground arith);
  same_token = ground arith;
  running = ground arith;
}

pub approval_lem :
    (c : StartCall) (now : Time) (intent : DeploymentIntent) (request : ApprovalRequest)
    (decision : ApprovalDecision)
    → approval_invalid c now intent request decision ≡ false
    → Approved c.deployment_id now intent request decision
unfolding approval_invalid
approval_lem c now intent request decision h = record {
  same_deployment = !=_false→≡ request.deployment_id (some c.deployment_id) (ground arith);
  same_artifact = !=_false→≡ request.artifact_digest (some intent.artifact_digest) (ground arith);
  current = ground arith;
  in_time = ground arith;
  approved = !=_false→≡ decision.decision_code "approved" (ground arith);
  separated = ground arith;
}

pub authorized_lem :
    (c : StartCall) (now : Time) (intent : DeploymentIntent) (r : Option ApprovalRequest)
    (d : Option ApprovalDecision) (l : Option DeploymentLock) (request : ApprovalRequest)
    (decision : ApprovalDecision)
    → authorized_rows c now intent r d l ≡ ok (request, decision)
    → (r ≡ some request)
      × (d ≡ some decision)
      × ((lock : DeploymentLock) × (l ≡ some lock) × (lock_invalid c now lock ≡ false))
      × (approval_invalid c now intent request decision ≡ false)
unfolding authorized_rows
authorized_lem c now intent (some r) (some d) (some l) request decision h =
    (ground arith, ground arith, (l, refl, ground arith), ground arith)
authorized_lem c now intent none d l request decision h = absurd (cc)
authorized_lem c now intent (some r) none l request decision h = absurd (cc)
authorized_lem c now intent (some r) (some d) none request decision h = absurd (cc)

pub authorize_lem :
    (c : StartCall) (now : Time) (intent : DeploymentIntent) (db : Db)
    (b : Option DeploymentApprovalBinding) (request : ApprovalRequest) (decision : ApprovalDecision)
    → authorize c now intent db b ≡ ok (request, decision)
    → (binding : DeploymentApprovalBinding) × (b ≡ some binding)
      × (authorized_rows c now intent
            (request_of_id binding.approval_request_id db.approval_requests)
            (decision_of_request binding.approval_request_id db.approval_decisions)
            db.deployment_lock
          ≡ ok (request, decision))
unfolding authorize
authorize_lem c now intent db none request decision h = absurd (cc)
authorize_lem c now intent db (some binding) request decision h = (binding, refl, h)
