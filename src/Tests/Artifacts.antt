-- ===== src/Tests/Artifacts.antt =====
-- The law of artifacts, at a first record of one.
use maoxx_os.Prelude.{
  ◌≡◌, refl, String, true, none, some, [], ◌∷◌, Result, ok, find, any_of, all_of, elem, codes,
  hex_run, strip_prefix,
}
use maoxx_os.Policy.Artifact.{
  digest_pattern, immutable_image_pattern, image_rest, is_image_char, after_last_at,
  fingerprint_pattern, validate_immutable_artifact,
}
use maoxx_os.Policy.Artifact.Laws.{IsPinned}
use maoxx_os.Policy.Transition.{
  intent_created, DeploymentState-discrete, deployment_transitions, require_transition,
}
use maoxx_os.Tables.{Db, empty_db, DeploymentIntent, DeploymentArtifact}
use maoxx_os.Deployment.Authority.{VerifiedCiEvidence, valid_verified_ci}
use maoxx_os.Deployment.Events.{latest_state_event, append_state_event}
use maoxx_os.Deployment.Intents.{intent_of_id}
use maoxx_os.Deployment.Artifacts.{
  ArtifactFields, artifact_of, artifact_mismatch, new_artifact, artifact_conflicts,
  reuse_or_insert_artifact, record_artifact,
}
use maoxx_os.Deployment.Artifacts.Laws.{Verified, record_artifact-Verified}
use maoxx_os.Tests.Data.{zeros, digest, sha, intent, event, returned}

abbrev image : String
image = "ghcr.io/app@sha256:0000000000000000000000000000000000000000000000000000000000000000"

abbrev artifact_fields : ArtifactFields
artifact_fields = record {
  deployment_id = 1;
  repository = "Mxx1233/Maoxx-OS";
  target_sha = sha;
  digest = digest;
  image_reference = image;
  ci_run_id = 7;
  provenance = [];
  actor_fingerprint = zeros;
}

abbrev evidence : VerifiedCiEvidence
evidence = record {
  repository = "Mxx1233/Maoxx-OS";
  target_sha = sha;
  run_id = 7;
  workflow_name = "CI";
  event = "push";
  status = "completed";
  conclusion = "success";
  quality_gate_conclusion = "success";
  protected_main_membership = true;
  verified_at = 2;
  verified_at_has_zone = true;
  provenance = ("run", "7") ∷ [];
  provenance_source = "github_checks_api";
}

abbrev intended : Db
intended = record empty_db {
  deployment_intents = intent ∷ [];
  deployment_state_events = event 1 none intent_created ∷ [];
}

abbrev built : DeploymentArtifact
built = new_artifact artifact_fields intent evidence 2

abbrev recording : Result (DeploymentArtifact × Db)
recording = record_artifact artifact_fields (some evidence) 2 2 2 intended

abbrev after_build : Db
after_build = (returned (built, intended) recording).1

build_returns : recording ≡ ok (built, after_build)
unfolding record_artifact reuse_or_insert_artifact artifact_conflicts artifact_mismatch artifact_of
    intent_of_id valid_verified_ci append_state_event latest_state_event require_transition
    deployment_transitions DeploymentState-discrete fingerprint_pattern validate_immutable_artifact
    digest_pattern immutable_image_pattern image_rest is_image_char after_last_at find any_of all_of
    elem codes hex_run strip_prefix
build_returns = refl

record_artifact-Verified_example :
    (i : DeploymentIntent) × (intent_of_id 1 intended.deployment_intents ≡ some i)
    × Verified i built
    × IsPinned (codes image) (codes digest)
    × (artifact_of 1 after_build.deployment_artifacts ≡ some built)
record_artifact-Verified_example =
    record_artifact-Verified artifact_fields (some evidence) 2 2 2 intended built after_build
      build_returns
