-- ===== src/Deployment/Start/Laws.antt =====
-- Laws of `start_production_deployment`, app/services/deployment_service.py.
use maoxx_os.Prelude.{
  ℕ, ◌≡◌, refl, Option, none, some, List, ◌∷◌, String, ok, gate_error, no_result_found, or_raise,
  arith, ◌>>=◌, bind-ok, or_raise-ok, !=_false→≡, ==_refl, find, nat_eq, string_eq, option_eq, Time,
  Hashing,
}
use maoxx_os.Tables.{
  Db, DeploymentIntent, DeploymentArtifact, ApprovalRequest, ApprovalDecision, DeploymentLock,
  DeploymentApprovalBinding, DeploymentExecutionAttempt, DeploymentStateEvent,
  DeploymentApprovalConsumption,
}
use maoxx_os.Approval.Requests.{request_of_id}
use maoxx_os.Approval.Decisions.{decision_of_request}
use maoxx_os.Deployment.Authority.{resolve_executor_identity, supervisor_identity}
use maoxx_os.Deployment.Events.{append_state_event}
use maoxx_os.Deployment.Intents.{intent_of_id}
use maoxx_os.Deployment.Artifacts.{artifact_of}
use maoxx_os.Deployment.Bindings.{binding_of}
use maoxx_os.Deployment.Start.{
  StartOutcome, execution_prepared, reconciliation_required, IntentBody, StartCall, StartIds,
  attempt_of, authorize, start_transition, new_consumption, body_of, new_attempt,
  outcome_of_attempt, prepared, commit_start, calculate_intent_hash, prepare, start_or_reconcile,
  start_production_deployment,
}
use maoxx_os.Deployment.Start.Guards.{
  Approved, Leased, lock_lem, approval_lem, authorized_lem, authorize_lem,
}

commit_lem :
    (c : StartCall) (ids : StartIds) (now : Time) (db : Db)
    (consumption : DeploymentApprovalConsumption) (attempt : DeploymentExecutionAttempt)
    (events : List DeploymentStateEvent) (outcome : StartOutcome) (after : Db)
    → commit_start c ids now db consumption attempt events ≡ ok (outcome, after)
    → (outcome ≡ prepared c ids)
      × (after.deployment_state_events ≡ events)
      × (after.deployment_approval_consumptions ≡ consumption ∷ db.deployment_approval_consumptions)
      × (after.deployment_execution_attempts ≡ attempt ∷ db.deployment_execution_attempts)
      × (after.deployment_intents ≡ db.deployment_intents)
unfolding commit_start
commit_lem c ids now db consumption attempt events outcome after h = ground arith

found_attempt :
    (a : DeploymentExecutionAttempt) (rows : List DeploymentExecutionAttempt)
    → attempt_of a.deployment_id (a ∷ rows) ≡ some a
unfolding attempt_of find
found_attempt a rows = rw (==_refl a.deployment_id)

executor_lem :
    (o executor : String) → resolve_executor_identity o ≡ ok executor → o ≡ supervisor_identity
unfolding resolve_executor_identity
executor_lem o executor h = !=_false→≡ o supervisor_identity (ground arith)

module _ (hashing : Hashing) (json_dumps : IntentBody → String) where
  again_lem :
      (c : StartCall) (ids : StartIds) (now : Time) (db : Db) (intent : DeploymentIntent)
      (attempt : DeploymentExecutionAttempt)
      → c.owner_identity ≡ supervisor_identity
      → intent_of_id c.deployment_id db.deployment_intents ≡ some intent
      → attempt_of c.deployment_id db.deployment_execution_attempts ≡ some attempt
      → start_production_deployment hashing json_dumps c ids now db
        ≡ ok (outcome_of_attempt attempt, db)
  unfolding start_production_deployment start_or_reconcile resolve_executor_identity
  again_lem c ids now db intent attempt supervisor known there = rw (known, there, supervisor)

  -- What a start wrote, of a request and a decision.
  pub record Started (c : StartCall) (ids : StartIds) (now : Time) (intent : DeploymentIntent)
      (request : ApprovalRequest) (decision : ApprovalDecision) (db after : Db) : Type 0 where
    pub artifact : DeploymentArtifact
    pub artifact_found : artifact_of c.deployment_id db.deployment_artifacts ≡ some artifact
    pub event :
        append_state_event (start_transition c intent now) ids.event_id db.deployment_state_events
        ≡ ok after.deployment_state_events
    pub consumed :
        after.deployment_approval_consumptions
        ≡ new_consumption c ids now request decision ∷ db.deployment_approval_consumptions
    pub attempted :
        after.deployment_execution_attempts
        ≡ new_attempt c ids
            (calculate_intent_hash hashing json_dumps (body_of c ids intent artifact))
          ∷ db.deployment_execution_attempts
    pub same_intents : after.deployment_intents ≡ db.deployment_intents

  pub prepare_lem :
      (c : StartCall) (ids : StartIds) (now : Time) (intent : DeploymentIntent) (db : Db)
      (request : ApprovalRequest) (decision : ApprovalDecision) (outcome : StartOutcome)
      (after : Db)
      → prepare hashing json_dumps c ids now intent db (request, decision) ≡ ok (outcome, after)
      → (outcome ≡ prepared c ids) × Started c ids now intent request decision db after
  unfolding prepare
  prepare_lem c ids now intent db request decision outcome after h =
      let consumption = new_consumption c ids now request decision in
      let attempt : DeploymentArtifact → DeploymentExecutionAttempt = λ artifact.
        new_attempt c ids
          (calculate_intent_hash hashing json_dumps (body_of c ids intent artifact)) in
      let appended =
        append_state_event (start_transition c intent now) ids.event_id
          db.deployment_state_events in
      let (events, ran, h1) =
        bind-ok appended
          (λ events.
            or_raise (artifact_of c.deployment_id db.deployment_artifacts) no_result_found
            >>= λ artifact. commit_start c ids now db consumption (attempt artifact) events)
          h in
      let (artifact, found, h2) =
        or_raise-ok (artifact_of c.deployment_id db.deployment_artifacts) no_result_found
          (λ artifact. commit_start c ids now db consumption (attempt artifact) events) h1 in
      let (told, events_kept, consumed, attempted, intents) =
        commit_lem c ids now db consumption (attempt artifact) events outcome after h2 in
      (
        told,
        record {
          artifact = artifact;
          artifact_found = found;
          event = rw events_kept ran;
          consumed = consumed;
          attempted = attempted;
          same_intents = intents;
        },
      )

  module _ (c : StartCall) (ids : StartIds) (now : Time) (db : Db) where
    fresh_start :
        (intent : DeploymentIntent) (a : Option DeploymentExecutionAttempt) (outcome : StartOutcome)
        (after : Db)
        → start_or_reconcile hashing json_dumps c ids now intent db a ≡ ok (outcome, after)
        → outcome.code ≡ execution_prepared
        → (a ≡ none)
          × ((authorize c now intent db (binding_of c.deployment_id db.deployment_approval_bindings)
                >>= prepare hashing json_dumps c ids now intent db)
              ≡ ok (outcome, after))
    unfolding start_or_reconcile
    fresh_start intent none outcome after h code = (refl, h)
    fresh_start intent (some a) outcome after h code = absurd (cc)

    -- A start that prepares an execution was called by the supervisor under a live lease of its own,
    -- with the lease's token; the deployment had no attempt, and a bound request of it for its very
    -- artifact, which has not expired, was approved before it expired by someone other than the
    -- requester. It then consumes that request and decision, takes the legal step of the state
    -- machine, and writes one attempt, which carries the hash of the intent.
    pub start_production_deployment-Approved :
        (outcome : StartOutcome) (after : Db)
        → start_production_deployment hashing json_dumps c ids now db ≡ ok (outcome, after)
        → outcome.code ≡ execution_prepared
        → (outcome ≡ prepared c ids)
          × (c.owner_identity ≡ supervisor_identity)
          × (attempt_of c.deployment_id db.deployment_execution_attempts ≡ none)
          × (intent : DeploymentIntent) × (intent_of_id c.deployment_id db.deployment_intents
              ≡ some intent)
          × (binding : DeploymentApprovalBinding) × (binding_of c.deployment_id
                db.deployment_approval_bindings
              ≡ some binding)
          × (request : ApprovalRequest) × (request_of_id binding.approval_request_id
                db.approval_requests
              ≡ some request)
          × (decision : ApprovalDecision) × (decision_of_request binding.approval_request_id
                db.approval_decisions
              ≡ some decision)
          × (lock : DeploymentLock) × (db.deployment_lock ≡ some lock)
          × Leased c now lock
          × Approved c.deployment_id now intent request decision
          × Started c ids now intent request decision db after
    unfolding start_production_deployment
    start_production_deployment-Approved outcome after h code =
        let attempt = attempt_of c.deployment_id db.deployment_execution_attempts in
        let (executor, resolved, h1) =
          bind-ok (resolve_executor_identity c.owner_identity)
            (λ (_ : String).
              or_raise (intent_of_id c.deployment_id db.deployment_intents)
                (gate_error "unknown_deployment")
              >>= λ intent. start_or_reconcile hashing json_dumps c ids now intent db attempt)
            h in
        let (intent, known, h2) =
          or_raise-ok (intent_of_id c.deployment_id db.deployment_intents)
            (gate_error "unknown_deployment")
            (λ intent. start_or_reconcile hashing json_dumps c ids now intent db attempt) h1 in
        let (fresh, h3) = fresh_start intent attempt outcome after h2 code in
        let ((request, decision), passed, h4) =
          bind-ok
            (authorize c now intent db (binding_of c.deployment_id db.deployment_approval_bindings))
            (prepare hashing json_dumps c ids now intent db) h3 in
        let (binding, bound, rows) =
          authorize_lem c now intent db (binding_of c.deployment_id db.deployment_approval_bindings)
            request decision passed in
        let (requested, decided, (lock, locked, valid), approval) =
          authorized_lem c now intent
            (request_of_id binding.approval_request_id db.approval_requests)
            (decision_of_request binding.approval_request_id db.approval_decisions)
            db.deployment_lock request decision rows in
        let (told, started) = prepare_lem c ids now intent db request decision outcome after h4 in
        (
          told,
          executor_lem c.owner_identity executor resolved,
          fresh,
          intent,
          known,
          binding,
          bound,
          request,
          requested,
          decision,
          decided,
          lock,
          locked,
          lock_lem c now lock valid,
          approval_lem c now intent request decision approval,
          started,
        )

  -- An execution is prepared once: after it, every start of the deployment, by whichever token and
  -- with whichever ids and at whatever time, writes nothing and tells to reconcile that very attempt.
  pub start_production_deployment-once :
      (c : StartCall) (ids : StartIds) (now : Time) (db after : Db) (outcome : StartOutcome)
      → start_production_deployment hashing json_dumps c ids now db ≡ ok (outcome, after)
      → outcome.code ≡ execution_prepared
      → (token later : ℕ) (ids' : StartIds)
      → start_production_deployment hashing json_dumps
          (record c { fencing_token = token })
          ids'
          later
          after
        ≡ ok (record outcome { code = reconciliation_required }, after)
  start_production_deployment-once c ids now db after outcome h code token later ids' =
      let (told, supervisor, _, intent, known, _, _, request, _, decision, _, _, _, _, _, started) =
        start_production_deployment-Approved c ids now db outcome after h code in
      let attempt =
        new_attempt c ids
          (calculate_intent_hash hashing json_dumps (body_of c ids intent started.artifact)) in
      let again : attempt_of c.deployment_id after.deployment_execution_attempts ≡ some attempt =
        rw started.attempted (found_attempt attempt db.deployment_execution_attempts) in
      let known' : intent_of_id c.deployment_id after.deployment_intents ≡ some intent =
        rw started.same_intents known in
      rw told (
        again_lem (record c { fencing_token = token }) ids' later after intent attempt supervisor
          known' again)
