-- ===== src/Supervisor/Cycle.antt =====
-- `_health_cycle_once` of app/services/production_supervisor.py. The answers of its commands, and the
-- times that it reads, are its `Probes`.
use maoxx_os.Prelude.{
  ℕ, String, ◌<>◌, Bool, true, false, not, ◌||◌, ◌&&◌, Option, none, some, List, [], ◌∷◌, Result,
  ok, supervisor_error, raise_if, ◌>>◌, all_of, elem, leb, ltb, nat_eq, string_eq, option_eq, ◌==◌,
  ◌!=◌, codes, uuid_text, Time, Dict, dict_get, if◌then◌else◌,
}
use maoxx_os.Approval.Patterns.{ends_with}
use maoxx_os.Policy.Health.{HealthChecks, required_health_checks, values, get}
use maoxx_os.Supervisor.Attempt.{
  runtime_state_eq, mutation_completed_health_unknown, SupervisorAttempt, Container,
  RuntimeSnapshot, HealthCycle,
}
use maoxx_os.Supervisor.Terminal.{attempt_services}
use maoxx_os.Supervisor.Compose.{dict_put, is_flag, is_running}

-- What `docker image inspect` tells of an image; an empty dict, where it fails.
pub record ImageDetail : Type 0 where
  pub repo_digests : List String
  pub id : Option String

pub record Probes : Type 0 where
  pub snapshot : RuntimeSnapshot
  pub image_detail : String → ImageDetail
  pub started_at : Time
  pub probed_at : Time
  pub health_answers : Bool
  pub db_answers : Bool
  -- `worker.returncode == 0 and worker_payload.get("connected") is True`
  pub worker_connected : Bool
  -- the first word that `alembic current` prints
  pub migration : Option String
  pub ended_at : Time
  pub completed_at : Time

abbrev pub no_container : Container
no_container = record {
  running = none;
  status = none;
  exit_code = none;
  oom_killed = none;
  restart_count = none;
  health_status = none;
  image = none;
  image_id = none;
  labels = [];
}

-- `snapshot.containers.get(service, {})`
abbrev pub container_of : Option Container → Container
container_of none = no_container
container_of (some c) = c

unfoldable pub first_checks : List String → HealthChecks
first_checks [] = []
first_checks (k ∷ ks) = (k, false) ∷ first_checks ks

-- `checks.get(name, default)`
abbrev pub or_default : Option Bool → Bool → Bool
or_default none b = b
or_default (some c) b = c

unfoldable pub runtime_ok : Container → Bool
runtime_ok c =
    is_running c
    && is_flag false c.oom_killed
    && c.restart_count == some 0
    && (c.health_status == none || c.health_status == some "healthy")

-- `_probe`
unfoldable pub probe : Probes → Bool → Time → Bool
probe p answers deadline = ltb p.probed_at deadline && answers

-- `.ready` keys, that are all true
unfoldable pub smoke : HealthChecks → Bool
smoke checks = all_of (λ kv. not (ends_with (codes ".ready") (codes kv.0)) || kv.1) checks

module _ (int_text : ℕ → String) (a : SupervisorAttempt) (p : Probes) where
  unfoldable pub has_labels : Container → Bool
  has_labels c =
      dict_get "com.maoxx.deployment_id" c.labels == some (uuid_text a.deployment_id)
      && dict_get "com.maoxx.execution_attempt_id" c.labels
        == some (uuid_text a.execution_attempt_id)
      && dict_get "com.maoxx.target_sha" c.labels == some a.target_sha
      && dict_get "com.maoxx.image_digest" c.labels == some a.artifact_digest
      && dict_get "com.maoxx.fencing_epoch" c.labels == some (int_text a.fencing_epoch)
      && dict_get "com.maoxx.intent_hash" c.labels == some a.intent_hash

  unfoldable pub immutable_ok : String → Container → Bool
  immutable_ok expected_image c =
      let detail = p.image_detail expected_image in
      c.image == some expected_image
      && elem expected_image detail.repo_digests
      && c.image_id == detail.id
      && has_labels c

  -- What one service adds to the checks.
  unfoldable pub check_service : String → String → Container → Time → HealthChecks → HealthChecks
  check_service service image c deadline checks =
      let ready = runtime_ok c in
      let alive =
        dict_put (service <> ".live") ready
          (dict_put (service <> ".ready") ready (dict_put (service <> ".alive") ready checks)) in
      let digest =
        dict_put "artifact_digest"
          (or_default (get "artifact_digest" alive) true && immutable_ok image c) alive in
      let sha =
        dict_put "revision_sha"
          (or_default (get "revision_sha" digest) true
            && dict_get "com.maoxx.target_sha" c.labels == some a.target_sha)
          digest in
      let api =
        dict_put "api.dependency.db" (probe p p.db_answers deadline)
          (dict_put "api.http" (probe p p.health_answers deadline) sha) in
      let served = if service == "api" then api else sha in
      let worker = dict_put "feishu-worker.connected" p.worker_connected served in
      if service == "feishu-worker" then worker else served

  unfoldable pub check_services : Dict String → Time → HealthChecks → HealthChecks
  check_services [] deadline checks = checks
  check_services ((service, image) ∷ images) deadline checks = check_services images deadline (
      check_service service image (container_of (dict_get service p.snapshot.containers)) deadline
        checks)

  -- `int(detail.get("RestartCount", -1))`; none is -1
  unfoldable pub restart_counts : Dict String → Dict (Option ℕ)
  restart_counts [] = []
  restart_counts ((service, _) ∷ images) =
      (service, (container_of (dict_get service p.snapshot.containers)).restart_count)
      ∷ restart_counts images

  -- The checks when the cycle ends.
  unfoldable pub cycle_checks : Time → HealthChecks
  cycle_checks deadline =
      let first = dict_put "revision_sha" true (
        dict_put "artifact_digest" true
          (first_checks (required_health_checks (attempt_services a)))) in
      let served = check_services a.service_images deadline first in
      let migrated =
        dict_put "migration"
          (a.expected_migration_revision == none || p.migration == a.expected_migration_revision)
          served in
      let smoked = dict_put "smoke" (smoke migrated) migrated in
      let counted =
        dict_put "critical_regression"
          (all_of (λ kv. kv.1 == some 0) (restart_counts a.service_images)) smoked in
      dict_put "verification_within_timeout" (ltb p.ended_at deadline) counted

  unfoldable pub health_cycle_once : Time → Result HealthCycle
  health_cycle_once deadline =
      let checks = cycle_checks deadline in
      raise_if (leb deadline p.started_at || p.snapshot.state != mutation_completed_health_unknown)
        (supervisor_error "health_timeout_or_runtime_unknown")
      >> raise_if (not (all_of (λ v. v) (values checks)))
          (supervisor_error "mandatory_health_check_failed")
      >> ok (record {
        checks = checks;
        observed_digest = a.artifact_digest;
        observed_sha = a.target_sha;
        migration_revision = p.migration;
        completed_at = p.completed_at;
        restart_counts = restart_counts a.service_images;
      })
