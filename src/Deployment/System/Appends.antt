-- ===== src/Deployment/System/Appends.antt =====
-- What each operation does to the log of events: nothing, or one append.
use maoxx_os.Prelude.{
  ◌≤◌, ◌≡◌, Bool, true, false, not, option_eq, string_eq, ◌==◌, ◌!=◌, raise_if, if◌then◌else◌,
  Option, none, some, List, String, Result, ok, arith, bind-ok, or_raise, or_raise-ok, raise_if-ok,
  gate_error, ◌>>=◌, ◌>>◌, Uuid, Time, Hashing, [], ◌∷◌, text,
}
use maoxx_os.Policy.Transition.{staging_deploying, staging_failed, state_eq}
use maoxx_os.Policy.Transition.Rank.{rank}
use maoxx_os.Policy.Artifact.{validate_immutable_artifact}
use maoxx_os.Approval.Fields.{is_none}
use maoxx_os.Tables.{
  Db, DeploymentStateEvent, DeploymentIntent, DeploymentArtifact, StagingAcceptance,
  ApprovalRequest, DeploymentApprovalBinding,
}
use maoxx_os.Deployment.Authority.{
  ResolvedExternalHuman, VerifiedCiEvidence, valid_verified_ci, verify, resolve_human_identity,
  resolve_feishu_principal, human_fingerprint,
}
use maoxx_os.Deployment.Events.{Transition, latest_state_event, state_of, append_state_event}
use maoxx_os.Deployment.Intents.{
  IntentFields, intent_of_id, validate_intent_fields, expected_action, action_or_empty, new_intent,
  intent_of_key, created_transition, reuse_or_insert_intent, create_deployment_intent,
}
use maoxx_os.Deployment.Artifacts.{
  ArtifactFields, artifact_of, artifact_mismatch, new_artifact, recorded_transition,
  reuse_or_insert_artifact, record_artifact,
}
use maoxx_os.Deployment.Staging.{
  append_only, begin_staging_deployment, record_staging_failure, AcceptanceFields,
  accepted_transition, staging_transition, acceptance_of, reuse_or_insert_acceptance, accept_rows,
  record_staging_acceptance,
}
use maoxx_os.Deployment.Bindings.{
  BindingCall, BindingIds, pending_state, binding_of, bound_transition, insert_binding,
  reuse_or_bind, bind_rows, create_bound_production_approval,
}

-- The log afterwards, by the log before. What is appended is no outcome of a deployment: those states,
-- the last of the diagram, have the distance 7.
pub data Appends (before after : List DeploymentStateEvent) : Type 0 where
  same : after ≡ before → Appends before after
  appended :
      (t : Transition) (id : Uuid)
      → rank t.to_state ≤ 6
      → append_state_event t id before ≡ ok after
      → Appends before after

intent_rows :
    (i : DeploymentIntent) (now : Time) (id : Uuid) (raced : Bool) (db : Db)
    (o : Option DeploymentIntent) (r : DeploymentIntent) (after : Db)
    → reuse_or_insert_intent i now id raced db o ≡ ok (r, after)
    → Appends db.deployment_state_events after.deployment_state_events
unfolding reuse_or_insert_intent
intent_rows i now id raced db (some e) r after h = same (ground arith)
intent_rows i now id raced db none r after h =
    appended (created_transition i now) id (ground arith) (ground arith)

artifact_rows :
    (a : DeploymentArtifact) (t : Transition) (id : Uuid) (db : Db) (o : Option DeploymentArtifact)
    (r : DeploymentArtifact) (after : Db)
    → rank t.to_state ≤ 6
    → reuse_or_insert_artifact a t id db o ≡ ok (r, after)
    → Appends db.deployment_state_events after.deployment_state_events
unfolding reuse_or_insert_artifact
artifact_rows a t id db (some e) r after low h = same (ground arith)
artifact_rows a t id db none r after low h = appended t id low (ground arith)

append_only-Appends :
    (t : Transition) (id : Uuid) (db after : Db)
    → rank t.to_state ≤ 6
    → append_only t id db ≡ ok after
    → Appends db.deployment_state_events after.deployment_state_events
unfolding append_only
append_only-Appends t id db after low h = appended t id low (ground arith)

acceptance_rows :
    (f : AcceptanceFields) (now : Time) (new_id id : Uuid) (db : Db) (o : Option StagingAcceptance)
    (r : StagingAcceptance) (after : Db)
    → reuse_or_insert_acceptance f now new_id id db o ≡ ok (r, after)
    → Appends db.deployment_state_events after.deployment_state_events
unfolding reuse_or_insert_acceptance
acceptance_rows f now new_id id db (some e) r after h = same (ground arith)
acceptance_rows f now new_id id db none r after h =
    appended (accepted_transition f now) id (ground arith) (ground arith)

pending-low : (i : DeploymentIntent) → rank (pending_state i) ≤ 6
unfolding pending_state
pending-low i = ground arith

binding_rows :
    (c : BindingCall) (i : DeploymentIntent) (fp : String) (now : Time) (ids : BindingIds)
    (raced : List ApprovalRequest) (db : Db) (o : Option DeploymentApprovalBinding)
    (r : ApprovalRequest × DeploymentApprovalBinding) (after : Db)
    → reuse_or_bind c i fp now ids raced db o ≡ ok (r, after)
    → Appends db.deployment_state_events after.deployment_state_events
unfolding reuse_or_bind insert_binding
binding_rows c i fp now ids raced db (some e) r after h = same (ground arith)
binding_rows c i fp now ids raced db none r after h =
    appended (bound_transition c i fp ids.request_id now) ids.event_id (pending-low i)
      (ground arith)

begin_rows :
    (begun : Bool) (t : Transition) (id : Uuid) (db after : Db)
    → rank t.to_state ≤ 6
    → (if begun then ok db else append_only t id db) ≡ ok after
    → Appends db.deployment_state_events after.deployment_state_events
begin_rows true t id db after low h = same (ground arith)
begin_rows false t id db after low h = append_only-Appends t id db after low h

pub begin_staging_deployment-Appends :
    (d : Uuid) (actor : String) (now : Time) (id : Uuid) (db after : Db)
    → begin_staging_deployment d actor now id db ≡ ok after
    → Appends db.deployment_state_events after.deployment_state_events
unfolding begin_staging_deployment
begin_staging_deployment-Appends d actor now id db after h =
    let t = staging_transition d staging_deploying "staging_deploying" actor [] now in
    let begun =
      state_of (latest_state_event d db.deployment_state_events) == some staging_deploying in
    let (_, h1) =
      raise_if-ok (is_none (intent_of_id d db.deployment_intents)) (gate_error "unknown_deployment")
        (if begun then ok db else append_only t id db) h in
    begin_rows begun t id db after (ground arith) h1

pub record_staging_failure-Appends :
    (d : Uuid) (actor code : String) (now : Time) (id : Uuid) (db after : Db)
    → record_staging_failure d actor code now id db ≡ ok after
    → Appends db.deployment_state_events after.deployment_state_events
unfolding record_staging_failure
record_staging_failure-Appends d actor code now id db after h =
    append_only-Appends
      (staging_transition d staging_failed "staging_failed" actor (("failure_code", text code) ∷ [])
        now)
      id db after (ground arith) (ground arith)

accept_rows-Appends :
    (f : AcceptanceFields) (now : Time) (new_id id : Uuid) (db : Db) (i : Option DeploymentIntent)
    (a : Option DeploymentArtifact) (r : StagingAcceptance) (after : Db)
    → accept_rows f now new_id id db i a ≡ ok (r, after)
    → Appends db.deployment_state_events after.deployment_state_events
unfolding accept_rows
accept_rows-Appends f now new_id id db (some i) (some a) r after h =
    acceptance_rows f now new_id id db (acceptance_of f.deployment_id db.staging_acceptances) r
      after (ground arith)
accept_rows-Appends f now new_id id db (some i) none r after h = absurd (cc)
accept_rows-Appends f now new_id id db none a r after h = absurd (cc)

pub record_staging_acceptance-Appends :
    (f : AcceptanceFields) (now : Time) (new_id id : Uuid) (db : Db) (r : StagingAcceptance)
    (after : Db)
    → record_staging_acceptance f now new_id id db ≡ ok (r, after)
    → Appends db.deployment_state_events after.deployment_state_events
unfolding record_staging_acceptance
record_staging_acceptance-Appends f now new_id id db r after h =
    accept_rows-Appends f now new_id id db (intent_of_id f.deployment_id db.deployment_intents)
      (artifact_of f.deployment_id db.deployment_artifacts) r after (ground arith)

module _ (hashing : Hashing) where
  pub create_deployment_intent-Appends :
      (f : IntentFields) (now : Time) (new_id id : Uuid) (raced : Bool) (db : Db)
      (r : DeploymentIntent) (after : Db)
      → create_deployment_intent hashing f now new_id id raced db ≡ ok (r, after)
      → Appends db.deployment_state_events after.deployment_state_events
  unfolding create_deployment_intent
  create_deployment_intent-Appends f now new_id id raced db r after h =
      let action_code = action_or_empty (expected_action f.intent_kind) in
      let key = intent_of_key f.idempotency_key db.deployment_intents in
      let row : ResolvedExternalHuman → List String → DeploymentIntent = λ who services.
        new_intent f who (human_fingerprint hashing who.user_id) services action_code new_id in
      let (who, _, h1) =
        or_raise-ok
          (resolve_feishu_principal hashing db f.authenticated_feishu_tenant_id
            f.authenticated_feishu_open_id)
          (gate_error "unknown_or_ambiguous_requester_identity")
          (λ who.
            validate_intent_fields f action_code (human_fingerprint hashing who.user_id)
            >>= λ services. reuse_or_insert_intent (row who services) now id raced db key)
          h in
      let (services, _, h2) =
        bind-ok (validate_intent_fields f action_code (human_fingerprint hashing who.user_id))
          (λ services. reuse_or_insert_intent (row who services) now id raced db key) h1 in
      intent_rows (row who services) now id raced db key r after h2

  bind_rows-Appends :
      (c : BindingCall) (now : Time) (ids : BindingIds) (raced : List ApprovalRequest) (db : Db)
      (i : Option DeploymentIntent) (a : Option DeploymentArtifact)
      (r : ApprovalRequest × DeploymentApprovalBinding) (after : Db)
      → bind_rows hashing c now ids raced db i a ≡ ok (r, after)
      → Appends db.deployment_state_events after.deployment_state_events
  unfolding bind_rows
  bind_rows-Appends c now ids raced db (some i) (some a) r after h =
      let b = binding_of c.deployment_id db.deployment_approval_bindings in
      let differs : Uuid → Bool =
        λ u. human_fingerprint hashing u != i.requested_by_identity_fingerprint in
      let (user_id, _, h1) =
        bind-ok (resolve_human_identity db i.user_id)
          (λ u.
            raise_if (differs u) (gate_error "canonical_requester_mismatch")
            >> reuse_or_bind c i (human_fingerprint hashing u) now ids raced db b)
          h in
      let (_, h2) =
        raise_if-ok (differs user_id) (gate_error "canonical_requester_mismatch")
          (reuse_or_bind c i (human_fingerprint hashing user_id) now ids raced db b) h1 in
      binding_rows c i (human_fingerprint hashing user_id) now ids raced db b r after h2
  bind_rows-Appends c now ids raced db (some i) none r after h = absurd (cc)
  bind_rows-Appends c now ids raced db none a r after h = absurd (cc)

  pub create_bound_production_approval-Appends :
      (c : BindingCall) (now : Time) (ids : BindingIds) (raced : List ApprovalRequest) (db : Db)
      (r : ApprovalRequest × DeploymentApprovalBinding) (after : Db)
      → create_bound_production_approval hashing c now ids raced db ≡ ok (r, after)
      → Appends db.deployment_state_events after.deployment_state_events
  unfolding create_bound_production_approval
  create_bound_production_approval-Appends c now ids raced db r after h =
      bind_rows-Appends c now ids raced db (intent_of_id c.deployment_id db.deployment_intents)
        (artifact_of c.deployment_id db.deployment_artifacts) r after (ground arith)

pub record_artifact-Appends :
    (f : ArtifactFields) (answer : Option VerifiedCiEvidence) (now : Time) (new_id id : Uuid)
    (db : Db) (r : DeploymentArtifact) (after : Db)
    → record_artifact f answer now new_id id db ≡ ok (r, after)
    → Appends db.deployment_state_events after.deployment_state_events
unfolding record_artifact
record_artifact-Appends f answer now new_id id db r after h =
    let known = intent_of_id f.deployment_id db.deployment_intents in
    let unknown = gate_error "unknown_deployment" in
    let stored = artifact_of f.deployment_id db.deployment_artifacts in
    let bad : VerifiedCiEvidence → Bool =
      λ v. not (valid_verified_ci v f.repository f.target_sha f.ci_run_id) in
    let insert : DeploymentIntent → VerifiedCiEvidence → Result (DeploymentArtifact × Db) = λ i v.
      reuse_or_insert_artifact (new_artifact f i v new_id) (recorded_transition f v now) id db
        stored in
    let verified : DeploymentIntent → Result VerifiedCiEvidence = λ i.
      raise_if (artifact_mismatch f i) (gate_error "artifact_binding_mismatch") >> verify answer in
    let (i, _, h1) =
      bind-ok (validate_immutable_artifact f.digest f.image_reference >> or_raise known unknown)
        (λ i. verified i >>= λ v. raise_if (bad v) (gate_error "invalid_ci_evidence") >> insert i v)
        h in
    let (v, _, h2) =
      bind-ok (verified i) (λ v. raise_if (bad v) (gate_error "invalid_ci_evidence") >> insert i v)
        h1 in
    let (_, h3) = raise_if-ok (bad v) (gate_error "invalid_ci_evidence") (insert i v) h2 in
    artifact_rows (new_artifact f i v new_id) (recorded_transition f v now) id db stored r after
      (ground arith) h3
