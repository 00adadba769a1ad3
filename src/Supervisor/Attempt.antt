-- ===== src/Supervisor/Attempt.antt =====
-- The data of app/services/production_supervisor.py, and `RuntimeState` of
-- app/services/deployment_authority.py.
use maoxx_os.Prelude.{
  ℕ, String, Bool, Option, none, some, Uuid, Time, Dict, Eq, discrete_eq, ◌≡◌, refl, string_eq,
  ◌==◌, if◌then◌else◌,
}
use maoxx_os.Policy.Health.{HealthChecks}

pub data RuntimeState : Type 0 where
  not_started in_progress mutation_completed_health_unknown failed healthy unknown : RuntimeState

unfoldable pub RuntimeState-discrete : Discrete RuntimeState
RuntimeState-discrete = hlevel

instance abbrev pub runtime_state_eq : Eq RuntimeState
runtime_state_eq = discrete_eq RuntimeState-discrete

-- `state.value`
unfoldable pub state_text : RuntimeState → String
state_text not_started = "not_started"
state_text in_progress = "in_progress"
state_text mutation_completed_health_unknown = "mutation_completed_health_unknown"
state_text failed = "failed"
state_text healthy = "healthy"
state_text unknown = "unknown"

-- `RuntimeState(text)`, which raises ValueError where there is no such state
unfoldable pub state_of_text : String → Option RuntimeState
state_of_text t =
    if t == "not_started"
    then some not_started
    else if t == "in_progress"
    then some in_progress
    else if t == "mutation_completed_health_unknown"
    then some mutation_completed_health_unknown
    else if t == "failed"
    then some failed
    else if t == "healthy"
    then some healthy
    else if t == "unknown"
    then some unknown
    else none

pub record SupervisorAttempt : Type 0 where
  pub deployment_id : Uuid
  pub execution_attempt_id : Uuid
  pub fencing_epoch : ℕ
  pub repository : String
  pub target_sha : String
  pub intent_hash : String
  pub service_images : Dict String
  pub artifact_digest : String
  pub expected_migration_revision : Option String
  pub staging_accepted_at : Time

-- What `docker inspect` tells of a container, as far as the supervisor reads it. A field that is
-- missing or null is none.
pub record Container : Type 0 where
  pub running : Option Bool
  pub status : Option String
  pub exit_code : Option ℕ
  pub oom_killed : Option Bool
  pub restart_count : Option ℕ
  -- `str(...)` of the status; none where there is no `Health` or no `Status` in it
  pub health_status : Option String
  pub image : Option String
  pub image_id : Option String
  pub labels : Dict String

pub record RuntimeSnapshot : Type 0 where
  pub state : RuntimeState
  pub deployment_id : Option Uuid
  pub execution_attempt_id : Option Uuid
  pub fencing_epoch : Option ℕ
  pub intent_hash : Option String
  pub containers : Dict Container
  pub docker_client_active : Bool
  pub transitional : Bool
  pub observed_at : Time

pub record HealthCycle : Type 0 where
  pub checks : HealthChecks
  pub observed_digest : String
  pub observed_sha : String
  pub migration_revision : Option String
  pub completed_at : Time
  -- none is -1
  pub restart_counts : Dict (Option ℕ)

pub state_of_text-state_text : (s : RuntimeState) → state_of_text (state_text s) ≡ some s
unfolding state_of_text state_text
state_of_text-state_text not_started = refl
state_of_text-state_text in_progress = refl
state_of_text-state_text mutation_completed_health_unknown = refl
state_of_text-state_text failed = refl
state_of_text-state_text healthy = refl
state_of_text-state_text unknown = refl
