-- ===== src/Deployment/Artifacts/Laws.antt =====
-- What is known of an artifact that `record_artifact` of app/services/deployment_service.py returns.
use maoxx_os.Prelude.{
  ◌≡◌, refl, ◌∙◌, Error, Bool, true, false, not, Option, none, some, List, ◌∷◌, String, Result, ok,
  arith, bind-ok, or_raise, raise_if-ok, raise_if, gate_error, ◌>>=◌, ◌>>◌, codes, find, ==→≡,
  !=_false→≡, ==_refl, nat_eq, string_eq, Uuid, Time,
}
use maoxx_os.Policy.Artifact.{validate_immutable_artifact}
use maoxx_os.Policy.Artifact.Laws.{IsPinned, validate_immutable_artifact-IsPinned}
use maoxx_os.Tables.{Db, DeploymentIntent, DeploymentArtifact}
use maoxx_os.Deployment.Authority.{VerifiedCiEvidence, valid_verified_ci, verify}
use maoxx_os.Deployment.Events.{Transition}
use maoxx_os.Deployment.Intents.{intent_of_id}
use maoxx_os.Deployment.Artifacts.{
  ArtifactFields, artifact_of, artifact_mismatch, artifact_differs, bool_differs, new_artifact,
  recorded_transition, reuse_or_insert_artifact, record_artifact,
}

-- An artifact of an intent that the continuous integration of the protected branch has passed.
pub record Verified (i : DeploymentIntent) (a : DeploymentArtifact) : Type 0 where
  pub same_repository : a.repository ≡ i.repository
  pub same_sha : a.target_sha ≡ i.target_sha
  pub same_digest : a.digest ≡ i.artifact_digest
  pub built_sha : a.ci_head_sha ≡ i.target_sha
  pub pushed : a.ci_event ≡ "push"
  pub concluded : a.ci_conclusion ≡ "success"
  pub gated : a.quality_gate_conclusion ≡ "success"
  pub on_main : a.protected_main_verified ≡ true

-- The fields that a replay compares.
pub record Same (a e : DeploymentArtifact) : Type 0 where
  repository : a.repository ≡ e.repository
  sha : a.target_sha ≡ e.target_sha
  digest : a.digest ≡ e.digest
  image : a.image_reference ≡ e.image_reference
  event : a.ci_event ≡ e.ci_event
  conclusion : a.ci_conclusion ≡ e.ci_conclusion
  head : a.ci_head_sha ≡ e.ci_head_sha
  gate : a.quality_gate_conclusion ≡ e.quality_gate_conclusion
  main : a.protected_main_verified ≡ e.protected_main_verified

bool_same : (a b : Bool) → bool_differs a b ≡ false → a ≡ b
bool_same true b h = ground arith
bool_same false b h = ground arith

same_lem : (a e : DeploymentArtifact) → artifact_differs a e ≡ false → Same a e
unfolding artifact_differs
same_lem a e h = record {
  repository = !=_false→≡ a.repository e.repository (ground arith);
  sha = !=_false→≡ a.target_sha e.target_sha (ground arith);
  digest = !=_false→≡ a.digest e.digest (ground arith);
  image = !=_false→≡ a.image_reference e.image_reference (ground arith);
  event = !=_false→≡ a.ci_event e.ci_event (ground arith);
  conclusion = !=_false→≡ a.ci_conclusion e.ci_conclusion (ground arith);
  head = !=_false→≡ a.ci_head_sha e.ci_head_sha (ground arith);
  gate = !=_false→≡ a.quality_gate_conclusion e.quality_gate_conclusion (ground arith);
  main = bool_same a.protected_main_verified e.protected_main_verified (ground arith);
}

found_artifact :
    (a : DeploymentArtifact) (rows : List DeploymentArtifact)
    → artifact_of a.deployment_id (a ∷ rows) ≡ some a
unfolding artifact_of find
found_artifact a rows = rw (==_refl a.deployment_id)

stored :
    (e : DeploymentArtifact) (t : Transition) (id : Uuid) (db : Db) (o : Option DeploymentArtifact)
    (a : DeploymentArtifact) (after : Db)
    → artifact_of e.deployment_id db.deployment_artifacts ≡ o
    → reuse_or_insert_artifact e t id db o ≡ ok (a, after)
    → (artifact_of e.deployment_id after.deployment_artifacts ≡ some a) × Same a e
unfolding reuse_or_insert_artifact
stored e t id db none a after query h =
    let is_new : e ≡ a = ground arith in
    let rows : after.deployment_artifacts ≡ e ∷ db.deployment_artifacts = ground arith in
    (
      rw (rows, ← is_new) (found_artifact e db.deployment_artifacts),
      rw (← is_new) (record {
        repository = refl;
        sha = refl;
        digest = refl;
        image = refl;
        event = refl;
        conclusion = refl;
        head = refl;
        gate = refl;
        main = refl;
      }),
    )
stored e t id db (some old) a after query h =
    let kept : old ≡ a = ground arith in
    let fits : artifact_differs old e ≡ false = ground arith in
    let rows : after.deployment_artifacts ≡ db.deployment_artifacts = ground arith in
    (rw (rows, ← kept) query, rw (← kept) (same_lem old e fits))

found :
    (o : Option DeploymentIntent) (i : DeploymentIntent) (e : Error)
    → or_raise o e ≡ ok i
    → o ≡ some i
found none i e h = cc
found (some j) i e h = ground arith

-- What the verifier's answer passed.
record Passed (v : VerifiedCiEvidence) (target_sha : String) : Type 0 where
  sha : v.target_sha ≡ target_sha
  event : v.event ≡ "push"
  conclusion : v.conclusion ≡ "success"
  gate : v.quality_gate_conclusion ≡ "success"
  main : v.protected_main_membership ≡ true

passed_lem :
    (v : VerifiedCiEvidence) (f : ArtifactFields)
    → not (valid_verified_ci v f.repository f.target_sha f.ci_run_id) ≡ false
    → Passed v f.target_sha
unfolding valid_verified_ci
passed_lem v f h = record {
  sha = ==→≡ v.target_sha f.target_sha (ground arith);
  event = ==→≡ v.event "push" (ground arith);
  conclusion = ==→≡ v.conclusion "success" (ground arith);
  gate = ==→≡ v.quality_gate_conclusion "success" (ground arith);
  main = ground arith;
}

-- The call's fields are the intent's.
record Matches (f : ArtifactFields) (i : DeploymentIntent) : Type 0 where
  repository : f.repository ≡ i.repository
  sha : f.target_sha ≡ i.target_sha
  digest : f.digest ≡ i.artifact_digest

matches_lem :
    (f : ArtifactFields) (i : DeploymentIntent) → artifact_mismatch f i ≡ false → Matches f i
unfolding artifact_mismatch
matches_lem f i h = record {
  repository = !=_false→≡ f.repository i.repository (ground arith);
  sha = !=_false→≡ f.target_sha i.target_sha (ground arith);
  digest = !=_false→≡ f.digest i.artifact_digest (ground arith);
}

verified_lem :
    (f : ArtifactFields) (i : DeploymentIntent) (v : VerifiedCiEvidence) (id : Uuid)
    (a : DeploymentArtifact)
    → Matches f i
    → Passed v f.target_sha
    → Same a (new_artifact f i v id)
    → Verified i a
verified_lem f i v id a m p s = record {
  same_repository = s.repository ∙ m.repository;
  same_sha = s.sha ∙ m.sha;
  same_digest = s.digest ∙ m.digest;
  built_sha = s.head ∙ p.sha ∙ m.sha;
  pushed = s.event ∙ p.event;
  concluded = s.conclusion ∙ p.conclusion;
  gated = s.gate ∙ p.gate;
  on_main = s.main ∙ p.main;
}

-- An artifact that is recorded, now or by an earlier call, stands in the table under its deployment; it
-- is of the repository, the SHA and the digest of the intent, its image reference is pinned to that
-- digest, and a push run on the protected main branch has passed, with its quality gate, for that SHA.
pub record_artifact-Verified :
    (f : ArtifactFields) (answer : Option VerifiedCiEvidence) (now : Time) (new_id event_id : Uuid)
    (db : Db) (a : DeploymentArtifact) (after : Db)
    → record_artifact f answer now new_id event_id db ≡ ok (a, after)
    → (i : DeploymentIntent) × (intent_of_id f.deployment_id db.deployment_intents ≡ some i)
      × Verified i a
      × IsPinned (codes a.image_reference) (codes a.digest)
      × (artifact_of f.deployment_id after.deployment_artifacts ≡ some a)
unfolding record_artifact
record_artifact-Verified f answer now new_id event_id db a after h =
    let known = intent_of_id f.deployment_id db.deployment_intents in
    let unknown = gate_error "unknown_deployment" in
    let checked = validate_immutable_artifact f.digest f.image_reference in
    let o = artifact_of f.deployment_id db.deployment_artifacts in
    let bad : VerifiedCiEvidence → Bool =
      λ v. not (valid_verified_ci v f.repository f.target_sha f.ci_run_id) in
    let insert : DeploymentIntent → VerifiedCiEvidence → Result (DeploymentArtifact × Db) = λ i v.
      reuse_or_insert_artifact (new_artifact f i v new_id) (recorded_transition f v now) event_id db
        o in
    let verified : DeploymentIntent → Result VerifiedCiEvidence = λ i.
      raise_if (artifact_mismatch f i) (gate_error "artifact_binding_mismatch") >> verify answer in
    let (i, h0, h1) =
      bind-ok (checked >> or_raise known unknown)
        (λ i. verified i >>= λ v. raise_if (bad v) (gate_error "invalid_ci_evidence") >> insert i v)
        h in
    let (_, valid, h00) = bind-ok checked (λ (_ : Unit {0}). or_raise known unknown) h0 in
    let (v, h01, h2) =
      bind-ok (verified i) (λ v. raise_if (bad v) (gate_error "invalid_ci_evidence") >> insert i v)
        h1 in
    let (fits, _) =
      raise_if-ok (artifact_mismatch f i) (gate_error "artifact_binding_mismatch") (verify answer)
        h01 in
    let (fine, h3) = raise_if-ok (bad v) (gate_error "invalid_ci_evidence") (insert i v) h2 in
    let (kept, same) =
      stored (new_artifact f i v new_id) (recorded_transition f v now) event_id db o a after refl
        h3 in
    let pinned = validate_immutable_artifact-IsPinned f.digest f.image_reference valid in
    (
      i,
      found known i unknown h00,
      verified_lem f i v new_id a (matches_lem f i fits) (passed_lem v f fine) same,
      rw (same.image, same.digest) pinned,
      kept,
    )
