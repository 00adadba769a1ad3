-- ===== src/Supervisor/Fingerprint.antt =====
-- `RuntimeSnapshot.stable_fingerprint` of app/services/production_supervisor.py.
use maoxx_os.Prelude.{
  ℕ, String, Bool, true, false, Option, none, some, [], ◌∷◌, map, codes, strip_prefix, nat_eq,
  string_eq, option_eq, Uuid, Dict, Hashing, if◌then◌else◌,
}
use maoxx_os.Supervisor.Attempt.{runtime_state_eq, state_text, Container, RuntimeSnapshot}
use maoxx_os.Supervisor.Journal.{journal_event_eq}

-- What `stable_fingerprint` reads of a container, without the health log and the image's id.
pub record StableContainer : Type 0 where
  pub running : Option Bool
  pub status : Option String
  pub exit_code : Option ℕ
  pub oom_killed : Option Bool
  pub restart_count : Option ℕ
  pub health_status : Option String
  pub image : Option String
  pub labels : Dict String

-- The object that it hashes.
pub record StableFields : Type 0 where
  pub state : String
  pub deployment_id : Option Uuid
  pub execution_attempt_id : Option Uuid
  pub fencing_epoch : Option ℕ
  pub intent_hash : Option String
  pub containers : Dict StableContainer
  pub transitional : Bool

-- `key.startswith("com.maoxx.")`
unfoldable pub is_program_label : String → Bool
is_program_label key = elim (strip_prefix (codes "com.maoxx.") (codes key)) [
  | some _ ↦ true
  | none ↦ false
]

unfoldable pub program_labels : Dict String → Dict String
program_labels [] = []
program_labels ((key, value) ∷ labels) =
    let rest = program_labels labels in if is_program_label key then (key, value) ∷ rest else rest

unfoldable pub stable_container : Container → StableContainer
stable_container c = record {
  running = c.running;
  status = c.status;
  exit_code = c.exit_code;
  oom_killed = c.oom_killed;
  restart_count = c.restart_count;
  health_status = c.health_status;
  image = c.image;
  labels = program_labels c.labels;
}

unfoldable pub stable_fields : RuntimeSnapshot → StableFields
stable_fields s = record {
  state = state_text s.state;
  deployment_id = s.deployment_id;
  execution_attempt_id = s.execution_attempt_id;
  fencing_epoch = s.fencing_epoch;
  intent_hash = s.intent_hash;
  containers = map (λ kv. (kv.0, stable_container kv.1)) s.containers;
  transitional = s.transitional;
}

unfoldable pub stable_fingerprint : Hashing → (StableFields → String) → RuntimeSnapshot → String
stable_fingerprint hashing dumps s = hashing.sha256_hex (dumps (stable_fields s))
