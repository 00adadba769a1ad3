-- ===== src/Tests/Policy.antt =====
-- The laws of the policies and of the authorization of messages, at concrete inputs.
use maoxx_os.Prelude.{
  ℕ, ◌≡◌, refl, ◌↔◌, String, Bool, true, none, some, List, [], ◌∷◌, ok, codes, elem, if◌then◌else◌,
  all_of, hex_run, strip_prefix, string_eq,
}
use maoxx_os.Policy.Artifact.{
  validate_immutable_artifact, digest_pattern, immutable_image_pattern, image_rest, is_image_char,
  after_last_at,
}
use maoxx_os.Policy.Artifact.Laws.{IsPinned, validate_immutable_artifact-IsPinned}
use maoxx_os.Policy.Health.{
  required_health_checks, health_checks_are_complete, keys, values, subset, get,
  health_checks_are_complete_lem,
}
use maoxx_os.Policy.Migration.{classify_migration_risk, level, worst, classify_migration_risk-worst}
use maoxx_os.Policy.Services.{
  validate_service_set, approved, insert_sorted, text_lt, sorted_set, Canonical,
  validate_service_set-Canonical,
}
use maoxx_os.Policy.Resource.{ResourceSample, natural, evaluate_resource_window}
use maoxx_os.Policy.Resource.Gate.{GoodCadence, EnoughResources, evaluate_resource_window_iff}

abbrev digest : String
digest = "sha256:0123456789abcdef0123456789abcdef0123456789abcdef0123456789abcdef"

abbrev image : String
image = "ghcr.io/maoxx/app@sha256:0123456789abcdef0123456789abcdef0123456789abcdef0123456789abcdef"

validate_immutable_artifact-IsPinned_example : IsPinned (codes image) (codes digest)
unfolding validate_immutable_artifact digest_pattern immutable_image_pattern image_rest
    is_image_char after_last_at codes hex_run strip_prefix all_of
validate_immutable_artifact-IsPinned_example =
    validate_immutable_artifact-IsPinned digest image refl

abbrev both_services : List String
both_services = "feishu-worker" ∷ "api" ∷ []

validate_service_set-Canonical_example :
    Canonical ("api" ∷ "feishu-worker" ∷ [])
    × (validate_service_set ("api" ∷ "feishu-worker" ∷ []) ≡ ok ("api" ∷ "feishu-worker" ∷ []))
    × ((x : String) → elem x ("api" ∷ "feishu-worker" ∷ []) ≡ elem x both_services)
unfolding validate_service_set sorted_set insert_sorted text_lt codes approved elem all_of
validate_service_set-Canonical_example =
    validate_service_set-Canonical both_services ("api" ∷ "feishu-worker" ∷ []) refl

abbrev changes : List String
changes = "add_nullable_column" ∷ "drop_column" ∷ []

classify_migration_risk-worst_example : level (classify_migration_risk changes) ≡ worst changes
classify_migration_risk-worst_example = classify_migration_risk-worst changes

abbrev worker_report : List (String × Bool)
worker_report =
    ("artifact_digest", true)
    ∷ ("revision_sha", true)
    ∷ ("migration", true)
    ∷ ("smoke", true)
    ∷ ("critical_regression", true)
    ∷ ("verification_within_timeout", true)
    ∷ ("feishu-worker.alive", true)
    ∷ ("feishu-worker.ready", true)
    ∷ ("feishu-worker.live", true)
    ∷ ("feishu-worker.connected", true)
    ∷ []

health_checks_are_complete_lem_example : get "feishu-worker.ready" worker_report ≡ (
    if elem "feishu-worker.ready" (required_health_checks ("feishu-worker" ∷ []))
    then some true
    else none)
unfolding health_checks_are_complete required_health_checks keys values subset all_of elem
health_checks_are_complete_lem_example =
    health_checks_are_complete_lem ("feishu-worker" ∷ []) worker_report refl "feishu-worker.ready"

abbrev sample : ℕ → ℕ → ResourceSample
sample ms memory = record {
  elapsed_ms = natural ms;
  mem_available_bytes = natural memory;
  swap_free_bytes = natural 2000000000;
  root_free_bytes = natural 6000000000;
  docker_free_bytes = natural 6000000000;
}

abbrev window : List ResourceSample
window =
    sample 0 1100000000
    ∷ sample 5000 1010000000
    ∷ sample 10000 1100000000
    ∷ sample 15000 1010000000
    ∷ sample 20000 1100000000
    ∷ sample 25000 1100000000
    ∷ sample 30000 1010000000
    ∷ []

evaluate_resource_window_iff_example :
    ((evaluate_resource_window window).passed ≡ true)
    ↔ (GoodCadence window × EnoughResources window)
evaluate_resource_window_iff_example = evaluate_resource_window_iff window
