-- ===== src/Tests/Supervised.antt =====
-- An attempt that the supervisor executes, and hosts that answer it.
use maoxx_os.Prelude.{
  ℕ, ◌*◌, ◌+◌, ◌≡◌, ap, String, true, false, Option, none, some, List, [], ◌∷◌, Result, ok, err,
  other_exception, Time, text,
}
use maoxx_os.Tables.{
  Db, DeploymentExecutionAttempt, StagingAcceptance, DeploymentApprovalConsumption,
  DeploymentEvidence,
}
use maoxx_os.Deployment.Authority.{VerifiedCiEvidence}
use maoxx_os.Supervisor.Attempt.{SupervisorAttempt, Container, RuntimeSnapshot, HealthCycle}
use maoxx_os.Supervisor.Resources.{TrustedResourceSample}
use maoxx_os.Supervisor.Run.{World, done}
use maoxx_os.Supervisor.Once.{first_world}
use maoxx_os.Supervisor.Host.{Library, Host}
use maoxx_os.Supervisor.Compose.{PsRow, observe}
use maoxx_os.Supervisor.Cycle.{Probes, health_cycle_once}
use maoxx_os.Supervisor.Polling.{verify_health}
use maoxx_os.Tests.Data.{zeros, digest, sha, hashing, json_dumps, supervisor, artifact, ready}

abbrev pub image : String
image = "ghcr.io/app@sha256:0000000000000000000000000000000000000000000000000000000000000000"

abbrev pub execution : DeploymentExecutionAttempt
execution = record {
  id = 70;
  deployment_id = 1;
  execution_key = "execution-70";
  executor_identity = supervisor;
  fencing_token = 3;
  intent_hash = zeros;
}

abbrev pub acceptance : StagingAcceptance
acceptance = record {
  id = 6;
  deployment_id = 1;
  repository = "Mxx1233/Maoxx-OS";
  target_sha = sha;
  artifact_digest = digest;
  environment = "staging";
  validation_suite_version = "v1";
  config_fingerprint = digest;
  accepted_by_identity_fingerprint = zeros;
  completed_at = 4;
  valid_until = 500000000;
}

abbrev pub consumption : DeploymentApprovalConsumption
consumption = record {
  id = 61;
  deployment_id = 1;
  approval_request_id = 40;
  approval_decision_id = 50;
  state_event_id = 60;
  consumed_at = 50;
}

abbrev pub backup : DeploymentEvidence
backup = record {
  id = 64;
  deployment_id = 1;
  evidence_type = "predeploy_backup";
  evidence_key = "backup-1";
  status_code = "passed";
  payload =
      ("producer_identity", text "maoxx-production-backup-authority")
      ∷ ("created_at", text "later")
      ∷ ("verified_at", text "later")
      ∷ [];
  occurred_at = 20;
}

-- Started, and ready for the supervisor.
abbrev pub attempted : Db
attempted = record ready {
  deployment_execution_attempts = execution ∷ [];
  deployment_artifacts = record artifact { service_images = ("api", image) ∷ [] } ∷ [];
  staging_acceptances = acceptance ∷ [];
  deployment_approval_consumptions = consumption ∷ [];
  deployment_evidence = backup ∷ [];
}

abbrev pub from_iso : String → Option Time
from_iso _ = some 20

abbrev pub library : Library
library = record {
  from_iso = from_iso;
  hashing = hashing;
  json_dumps = json_dumps;
  resource_payload = λ _. [];
  fingerprint_dumps = λ f. f.state;
}

abbrev pub ci : VerifiedCiEvidence
ci = record {
  repository = "Mxx1233/Maoxx-OS";
  target_sha = sha;
  run_id = 7;
  workflow_name = "CI";
  event = "push";
  status = "completed";
  conclusion = "success";
  quality_gate_conclusion = "success";
  protected_main_membership = true;
  verified_at = 40;
  verified_at_has_zone = true;
  provenance = [];
  provenance_source = "github_checks_api";
}

abbrev pub loaded : SupervisorAttempt
loaded = record {
  deployment_id = 1;
  execution_attempt_id = 70;
  fencing_epoch = 3;
  repository = "Mxx1233/Maoxx-OS";
  target_sha = sha;
  intent_hash = zeros;
  service_images = ("api", image) ∷ [];
  artifact_digest = digest;
  expected_migration_revision = none;
  staging_accepted_at = 4;
}

-- One sample every five seconds, of 4 GiB each.
abbrev pub sampled : ℕ → ℕ → TrustedResourceSample
sampled nonce i = record {
  resource_check_id = 80;
  deployment_id = 1;
  environment = "production";
  host_checkpoint = "host:pre-mutation";
  checkpoint_nonce = nonce;
  captured_at = 10 + i * 5000000;
  monotonic = i * 5000000;
  mem_available_bytes = 6000000000;
  swap_free_bytes = 6000000000;
  root_free_bytes = 6000000000;
  docker_free_bytes = 6000000000;
}

abbrev pub sample : ℕ → Result TrustedResourceSample
sample i = ok (sampled 81 i)

abbrev pub int_text : ℕ → String
int_text _ = "3"

abbrev pub lower : String → String
lower s = s

abbrev pub container : Container
container = record {
  running = some true;
  status = some "running";
  exit_code = some 0;
  oom_killed = some false;
  restart_count = some 0;
  health_status = some "healthy";
  image = some image;
  image_id = some "id";
  labels =
      ("com.maoxx.deployment_id", "00000000-0000-0000-0000-000000000001")
      ∷ ("com.maoxx.execution_attempt_id", "00000000-0000-0000-0000-000000000046")
      ∷ ("com.maoxx.target_sha", sha)
      ∷ ("com.maoxx.image_digest", digest)
      ∷ ("com.maoxx.fencing_epoch", "3")
      ∷ ("com.maoxx.intent_hash", zeros)
      ∷ [];
}

abbrev pub ps_rows : Option (List PsRow)
ps_rows = some (record { service = some "api"; id = some "c1"; name = none } ∷ [])

abbrev pub inspect : String → Option Container
inspect _ = some container

abbrev pub seen : RuntimeSnapshot
seen = observe int_text lower loaded ps_rows inspect false 100

abbrev pub probes : ℕ → Probes
probes i = record {
  snapshot = seen;
  image_detail = λ _. record { repo_digests = image ∷ []; id = some "id" };
  started_at = 100;
  probed_at = 101;
  health_answers = true;
  db_answers = true;
  worker_connected = true;
  migration = none;
  ended_at = 102;
  completed_at = 103;
}

abbrev pub took : ℕ → Time
took _ = 3

-- A sleep that lasts as long as it is asked for.
abbrev pub sleep : ℕ → Time → Time → Time
sleep _ duration started = started + duration

abbrev pub polled : Option (Result HealthCycle) → Result HealthCycle
polled none = err other_exception
polled (some r) = r

pub polled_ok :
    (o : Option (Result HealthCycle)) (c : HealthCycle) → polled o ≡ ok c → o ≡ some (ok c)
polled_ok none c h = absurd (cc)
polled_ok (some r) c h = ap some h

-- A host on which everything succeeds, with the Docker Compose runtime.
abbrev pub host : Host
host = record {
  lock_busy = false;
  clock = λ n. 90 + n;
  now = 31000000;
  load_reads = true;
  marker_reads = true;
  ci = some ci;
  plan = ok tt;
  sample = sample;
  resource_commit = done;
  marker_commit = done;
  result_commit = done;
  resource_id = 90;
  marker_id = 91;
  result_id = 92;
  submitted = ok tt;
  first_observed = ok seen;
  second_observed = λ _. ok seen;
  events_between = false;
  verify_health = λ d.
      polled
        (verify_health (λ i. health_cycle_once int_text loaded (probes i) d) took sleep d 100 25);
}

-- Where a call may do fifty effects.
abbrev pub fresh : World
fresh = record (first_world attempted) { left = 50 }

-- A later host, on which no container runs.
abbrev pub bare_host : Host
bare_host = record host {
  sample = λ i. ok (sampled 82 i);
  first_observed = ok (observe int_text lower loaded (some []) inspect false 100);
  resource_id = 93;
  result_id = 94;
}
