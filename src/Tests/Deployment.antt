-- ===== src/Tests/Deployment.antt =====
-- The laws of the deployment control plane, at concrete inputs.
use maoxx_os.Prelude.{
  inr, ◌<◌, ◌≡◌, ◌≢◌, refl, false, none, some, List, [], ◌∷◌, Result, ok, arith, All, find, any_of,
  all_of, elem, codes, hex_run, uuid_text,
}
use maoxx_os.Policy.Artifact.{fingerprint_pattern}
use maoxx_os.Policy.Transition.{
  intent_created, artifact_recorded, staging_deploying, staging_validated, production_deploying,
  production_approval_pending, DeploymentState-discrete, deployment_transitions, require_transition,
}
use maoxx_os.Policy.Transition.Rank.{rank}
use maoxx_os.Tables.{
  Db, DeploymentStateEvent, DeploymentLock, DeploymentIntent, DeploymentApprovalBinding,
  ApprovalRequest, ApprovalDecision,
}
use maoxx_os.Approval.Patterns.{is_name_char, is_key_char, idempotency_key_pattern}
use maoxx_os.Approval.Requests.{request_of_id}
use maoxx_os.Approval.Decisions.{decision_of_request}
use maoxx_os.Deployment.Authority.{resolve_executor_identity, supervisor_identity}
use maoxx_os.Deployment.Events.{Transition, latest_state_event, append_state_event}
use maoxx_os.Deployment.Events.Log.{IsLog, latest_state_event-rank, IsLog-once}
use maoxx_os.Deployment.Intents.{intent_of_id}
use maoxx_os.Deployment.Evidence.{
  evidence_of_key, evidence_conflicts, reuse_or_insert_evidence, add_evidence,
}
use maoxx_os.Deployment.Artifacts.{artifact_of}
use maoxx_os.Deployment.Bindings.{binding_of}
use maoxx_os.Deployment.Lock.{
  LockCall, ProductionLease, lease_of, bad_lease, not_reconciled, holds, take_over, acquire,
  commit_lock, acquire_checks, acquire_deployment_lock, owned, release_owned,
  release_deployment_lock,
}
use maoxx_os.Deployment.Lock.Laws.{
  Held, acquire_deployment_lock-fenced, acquire_deployment_lock-Held,
  acquire_deployment_lock-exclusive,
}
use maoxx_os.Deployment.Start.{
  StartOutcome, reconciliation_required, StartCall, StartIds, attempt_of, lock_invalid,
  approval_invalid, authorized_rows, authorize, deploying_state, consumption_conflicts,
  attempt_conflicts, prepared, commit_start, calculate_intent_hash, prepare, start_or_reconcile,
  start_production_deployment,
}
use maoxx_os.Deployment.Start.Guards.{Leased, Approved}
use maoxx_os.Deployment.Start.Laws.{
  Started, start_production_deployment-Approved, start_production_deployment-once,
}
use maoxx_os.Tests.Data.{
  zeros, hashing, json_dumps, supervisor, ready, events, event, lock_of, returned,
}

abbrev start_call : StartCall
start_call = record { deployment_id = 1; owner_identity = supervisor; fencing_token = 3 }

abbrev start_ids : StartIds
start_ids = record { event_id = 60; consumption_id = 61; attempt_id = 62; evidence_id = 63 }

abbrev started : Result (StartOutcome × Db)
started = start_production_deployment hashing json_dumps start_call start_ids 50 ready

abbrev after_start : Db
after_start = (returned (prepared start_call start_ids, ready) started).1

start_returns : started ≡ ok (prepared start_call start_ids, after_start)
unfolding start_production_deployment start_or_reconcile prepare commit_start calculate_intent_hash
    attempt_of authorize authorized_rows lock_invalid approval_invalid deploying_state
    consumption_conflicts attempt_conflicts binding_of artifact_of intent_of_id request_of_id
    decision_of_request resolve_executor_identity append_state_event latest_state_event
    require_transition deployment_transitions DeploymentState-discrete add_evidence
    reuse_or_insert_evidence evidence_of_key evidence_conflicts idempotency_key_pattern is_key_char
    is_name_char fingerprint_pattern find any_of all_of elem codes hex_run uuid_text
start_returns = refl

start_production_deployment-Approved_example :
    (prepared start_call start_ids ≡ prepared start_call start_ids)
    × (supervisor ≡ supervisor_identity)
    × (attempt_of 1 ready.deployment_execution_attempts ≡ none)
    × (intent : DeploymentIntent) × (intent_of_id 1 ready.deployment_intents ≡ some intent)
    × (binding : DeploymentApprovalBinding) × (binding_of 1 ready.deployment_approval_bindings
        ≡ some binding)
    × (request : ApprovalRequest) × (request_of_id binding.approval_request_id
          ready.approval_requests
        ≡ some request)
    × (decision : ApprovalDecision) × (decision_of_request binding.approval_request_id
          ready.approval_decisions
        ≡ some decision)
    × (lock : DeploymentLock) × (ready.deployment_lock ≡ some lock)
    × Leased start_call 50 lock
    × Approved 1 50 intent request decision
    × Started hashing json_dumps start_call start_ids 50 intent request decision ready after_start
start_production_deployment-Approved_example =
    start_production_deployment-Approved hashing json_dumps start_call start_ids 50 ready
      (prepared start_call start_ids) after_start start_returns refl

start_production_deployment-once_example :
    start_production_deployment hashing json_dumps
      (record start_call { fencing_token = 4 })
      start_ids
      70
      after_start
    ≡ ok (record (prepared start_call start_ids) { code = reconciliation_required }, after_start)
start_production_deployment-once_example =
    start_production_deployment-once hashing json_dumps start_call start_ids 50 ready after_start
      (prepared start_call start_ids) start_returns refl 4 70 start_ids

events-IsLog : IsLog events
unfolding latest_state_event require_transition deployment_transitions elem DeploymentState-discrete
events-IsLog = (
  record { numbered = refl; from_latest = refl; legal = refl },
  (
    record { numbered = refl; from_latest = refl; legal = refl },
    (
      record { numbered = refl; from_latest = refl; legal = refl },
      (
        record { numbered = refl; from_latest = refl; legal = refl },
        (record { numbered = refl; from_latest = refl; legal = refl }, tt),
      ),
    ),
  ),
)

latest_state_event-rank_example : 5 ≡ rank production_approval_pending
unfolding latest_state_event
latest_state_event-rank_example =
    latest_state_event-rank 1 events (event 5 (some staging_validated) production_approval_pending)
      events-IsLog refl

abbrev older_events : List DeploymentStateEvent
older_events =
    event 4 (some staging_deploying) staging_validated
    ∷ event 3 (some artifact_recorded) staging_deploying
    ∷ event 2 (some intent_created) artifact_recorded
    ∷ event 1 none intent_created
    ∷ []

IsLog-once_example :
    All
      (λ f.
        f.deployment_id ≡ 1
        → (f.sequence < 5) × (rank f.to_state < 5) × (f.to_state ≢ production_approval_pending))
      older_events
IsLog-once_example =
    IsLog-once (event 5 (some staging_validated) production_approval_pending) older_events
      events-IsLog

abbrev to_production : Transition
to_production = record {
  deployment_id = 1;
  to_state = production_deploying;
  event_code = "event";
  actor_fingerprint = zeros;
  evidence = [];
  occurred_at = 6;
}

abbrev lock_call : LockCall
lock_call = record {
  deployment_id = 1;
  owner_identity = supervisor;
  lease_seconds = 60;
  evidence_key = "lock-1";
}

-- Its holder, another deployment, ran out of time and was reconciled.
abbrev stale : Db
stale = record ready { deployment_lock = some (lock_of 9 40 (some 3)) }

abbrev acquired : Result (ProductionLease × Db)
acquired = acquire_deployment_lock lock_call none 50 false 70 stale

abbrev lease : ProductionLease
lease = record { deployment_id = 1; owner_identity = supervisor; fencing_token = 4 }

abbrev after_acquire : Db
after_acquire = (returned (lease, stale) acquired).1

acquire_returns : acquired ≡ ok (lease, after_acquire)
unfolding acquire_deployment_lock acquire_checks commit_lock acquire holds take_over not_reconciled
    bad_lease resolve_executor_identity intent_of_id add_evidence reuse_or_insert_evidence
    evidence_of_key evidence_conflicts idempotency_key_pattern is_key_char is_name_char find any_of
    all_of elem codes
acquire_returns = refl

acquire_deployment_lock-Held_example :
    (supervisor ≡ supervisor_identity)
    × (l : DeploymentLock) × (after_acquire.deployment_lock ≡ some l)
    × (lease ≡ lease_of lock_call l)
    × Held lock_call 50 stale.deployment_lock l
    × (50 < l.lease_expires_at)
acquire_deployment_lock-Held_example =
    acquire_deployment_lock-Held lock_call none 50 false 70 stale lease after_acquire
      acquire_returns

acquire_deployment_lock-exclusive_example :
    acquire_deployment_lock lock_call none 50 false 70
      (record ready { deployment_lock = some (lock_of 9 100 (some 3)) })
    ≢ ok (lease, stale)
acquire_deployment_lock-exclusive_example =
    acquire_deployment_lock-exclusive lock_call none 50 false 70
      (record ready { deployment_lock = some (lock_of 9 100 (some 3)) }) (lock_of 9 100 (some 3))
      refl (ground arith) (ground arith) lease stale

-- Where no one holds the lock.
abbrev unlocked : Db
unlocked = record ready { deployment_lock = none }

abbrev first_lease : ProductionLease
first_lease = record { deployment_id = 1; owner_identity = supervisor; fencing_token = 1 }

abbrev locked : Db
locked =
    (returned (first_lease, unlocked)
      (acquire_deployment_lock lock_call none 50 false 70 unlocked)).1

first_returns :
    acquire_deployment_lock lock_call none 50 false 70 unlocked ≡ ok (first_lease, locked)
unfolding acquire_deployment_lock acquire_checks commit_lock acquire bad_lease
    resolve_executor_identity intent_of_id add_evidence reuse_or_insert_evidence evidence_of_key
    evidence_conflicts idempotency_key_pattern is_key_char is_name_char find any_of all_of elem
    codes
first_returns = refl

abbrev released : Db
released = returned unlocked (release_deployment_lock lock_call 1 55 71 locked)

release_returns : release_deployment_lock lock_call 1 55 71 locked ≡ ok released
unfolding acquire_deployment_lock acquire_checks commit_lock acquire bad_lease
    resolve_executor_identity intent_of_id add_evidence reuse_or_insert_evidence evidence_of_key
    evidence_conflicts idempotency_key_pattern is_key_char is_name_char find any_of all_of elem
    codes release_deployment_lock release_owned owned
release_returns = refl

acquire_deployment_lock-fenced_example :
    (1 ≡ first_lease.deployment_id)
    × (supervisor ≡ first_lease.owner_identity)
    × (1 ≡ first_lease.fencing_token)
acquire_deployment_lock-fenced_example =
    acquire_deployment_lock-fenced lock_call none 50 false 70 unlocked locked first_lease
      first_returns lock_call 1 55 71 released (inr release_returns)
