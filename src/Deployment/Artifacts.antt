-- ===== src/Deployment/Artifacts.antt =====
-- `record_artifact` of app/services/deployment_service.py. `answer` is what the GitHub verifier
-- answers to the repository, the SHA and the run of the call.
pub mod Laws
use maoxx_os.Prelude.{
  ℕ, String, Bool, true, false, not, ◌||◌, Option, none, some, List, [], ◌∷◌, map, Result, ok,
  gate_error, integrity_error, raise_if, or_raise, ◌>>=◌, ◌>>◌, find, any_of, ltb, nat_eq,
  string_eq, option_eq, ◌==◌, ◌!=◌, Uuid, Time, dict_beq, text, number, Payload,
}
use maoxx_os.Policy.Artifact.{validate_immutable_artifact}
use maoxx_os.Policy.Transition.{artifact_recorded}
use maoxx_os.Tables.{Db, DeploymentIntent, DeploymentArtifact}
use maoxx_os.Deployment.Authority.{VerifiedCiEvidence, valid_verified_ci, verify}
use maoxx_os.Deployment.Events.{Transition, append_state_event}
use maoxx_os.Deployment.Intents.{intent_of_id}

pub record ArtifactFields : Type 0 where
  pub deployment_id : Uuid
  pub repository : String
  pub target_sha : String
  pub digest : String
  pub image_reference : String
  pub ci_run_id : ℕ
  pub provenance : Payload
  pub actor_fingerprint : String

-- `WHERE deployment_id = d`
unfoldable pub artifact_of : Uuid → List DeploymentArtifact → Option DeploymentArtifact
artifact_of d = find (λ a. a.deployment_id == d)

abbrev pub new_artifact :
    ArtifactFields → DeploymentIntent → VerifiedCiEvidence → Uuid → DeploymentArtifact
new_artifact f intent verified new_id = record {
  id = new_id;
  deployment_id = f.deployment_id;
  repository = f.repository;
  target_sha = f.target_sha;
  digest = f.digest;
  image_reference = f.image_reference;
  service_images = map (λ service. (service, f.image_reference)) intent.service_set;
  ci_run_id = verified.run_id;
  ci_event = verified.event;
  ci_status = verified.status;
  ci_conclusion = verified.conclusion;
  ci_head_sha = verified.target_sha;
  quality_gate_conclusion = verified.quality_gate_conclusion;
  protected_main_verified = verified.protected_main_membership;
  ci_workflow_name = verified.workflow_name;
  ci_repository = verified.repository;
  ci_verified_at = verified.verified_at;
  ci_provenance_source = verified.provenance_source;
  provenance = record { given = f.provenance; ci_verification = verified.provenance };
}

abbrev pub bool_differs : Bool → Bool → Bool
bool_differs true b = not b
bool_differs false b = b

-- `actual != expected`, of the row that is stored and the row that is asked for
unfoldable pub artifact_differs : DeploymentArtifact → DeploymentArtifact → Bool
artifact_differs a e =
    a.repository != e.repository
    || a.target_sha != e.target_sha
    || a.digest != e.digest
    || a.image_reference != e.image_reference
    || not (dict_beq a.service_images e.service_images)
    || a.ci_run_id != e.ci_run_id
    || a.ci_event != e.ci_event
    || a.ci_status != e.ci_status
    || a.ci_conclusion != e.ci_conclusion
    || a.ci_head_sha != e.ci_head_sha
    || a.quality_gate_conclusion != e.quality_gate_conclusion
    || bool_differs a.protected_main_verified e.protected_main_verified
    || a.ci_workflow_name != e.ci_workflow_name
    || a.ci_repository != e.ci_repository
    || a.ci_provenance_source != e.ci_provenance_source

abbrev pub recorded_transition : ArtifactFields → VerifiedCiEvidence → Time → Transition
recorded_transition f verified now = record {
  deployment_id = f.deployment_id;
  to_state = artifact_recorded;
  event_code = "artifact_recorded";
  actor_fingerprint = f.actor_fingerprint;
  evidence = ("digest", text f.digest) ∷ ("ci_run_id", number verified.run_id) ∷ [];
  occurred_at = now;
}

-- The primary key, the unique key and the check of the run's number.
unfoldable pub artifact_conflicts : DeploymentArtifact → List DeploymentArtifact → Bool
artifact_conflicts a rows =
    any_of (λ b. b.id == a.id || b.deployment_id == a.deployment_id) rows || ltb a.ci_run_id 1

-- By what the query of the deployment reads.
unfoldable pub reuse_or_insert_artifact :
    DeploymentArtifact
    → Transition
    → Uuid
    → Db
    → Option DeploymentArtifact
    → Result (DeploymentArtifact × Db)
reuse_or_insert_artifact a t event_id db (some existing) =
    raise_if (artifact_differs existing a) (gate_error "artifact_replay_conflict")
    >> ok (existing, db)
reuse_or_insert_artifact a t event_id db none =
    append_state_event t event_id db.deployment_state_events >>= λ events.
    raise_if (artifact_conflicts a db.deployment_artifacts) integrity_error
    >> ok (
      a,
      record db {
        deployment_artifacts = a ∷ db.deployment_artifacts;
        deployment_state_events = events;
      },
    )

-- `artifact_binding_mismatch`
unfoldable pub artifact_mismatch : ArtifactFields → DeploymentIntent → Bool
artifact_mismatch f intent =
    f.repository != intent.repository
    || f.target_sha != intent.target_sha
    || f.digest != intent.artifact_digest

unfoldable pub record_artifact :
    ArtifactFields
    → Option VerifiedCiEvidence
    → Time
    → Uuid
    → Uuid
    → Db
    → Result (DeploymentArtifact × Db)
record_artifact f answer now new_id event_id db =
    validate_immutable_artifact f.digest f.image_reference
    >> or_raise (intent_of_id f.deployment_id db.deployment_intents)
        (gate_error "unknown_deployment")
    >>= λ intent.
        raise_if (artifact_mismatch f intent) (gate_error "artifact_binding_mismatch")
        >> verify answer
        >>= λ verified.
            raise_if (not (valid_verified_ci verified f.repository f.target_sha f.ci_run_id))
              (gate_error "invalid_ci_evidence")
            >> reuse_or_insert_artifact (new_artifact f intent verified new_id)
                (recorded_transition f verified now) event_id db
                (artifact_of f.deployment_id db.deployment_artifacts)
