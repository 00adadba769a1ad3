-- ===== src/Supervisor/Compose.antt =====
-- `DockerComposeSupervisorRuntime` of app/services/production_supervisor.py: the plan and the observation.
-- What the Docker commands print is an argument: none where a command fails.
use maoxx_os.Prelude.{
  ℕ, String, Bool, true, false, not, ◌||◌, ◌&&◌, Option, none, some, List, [], ◌∷◌, map, length,
  Result, ok, err, supervisor_error, raise_if, ◌>>=◌, ◌>>◌, all_of, any_of, elem, nat_beq, nat_eq,
  string_eq, option_eq, list_eq, ◌==◌, ◌!=◌, codes, uuid_text, Time, Dict, dict_get, if◌then◌else◌,
}
use maoxx_os.Policy.Artifact.{sha_pattern, digest_pattern, immutable_image_pattern, after_last_at}
use maoxx_os.Supervisor.Attempt.{
  RuntimeState, not_started, mutation_completed_health_unknown, failed, unknown, SupervisorAttempt,
  Container, RuntimeSnapshot,
}

-- A service of the plan that `docker compose config` resolves; `build` tells that it is not null.
pub record ResolvedService : Type 0 where
  pub image : Option String
  pub build : Bool

-- What `docker compose config` ends with.
pub data ConfigOutput : Type 0 where
  fails malformed : ConfigOutput
  plan : Dict ResolvedService → ConfigOutput

-- A row of `docker compose ps`.
pub record PsRow : Type 0 where
  pub service : Option String
  pub id : Option String
  pub name : Option String

-- The checks of the images.
unfoldable pub check_images : String → Dict String → Result (Unit {0})
check_images digest [] = ok tt
check_images digest ((_, image) ∷ images) =
    raise_if (not (immutable_image_pattern (codes image)))
      (supervisor_error "mutable_or_invalid_image_reference")
    >> raise_if (after_last_at (codes image) != some (codes digest))
        (supervisor_error "staging_digest_mismatch")
    >>= λ _. check_images digest images

abbrev pub resolved_differs : String → Option ResolvedService → Bool
resolved_differs image none = true
resolved_differs image (some r) = r.image != some image || r.build

unfoldable pub plan_differs : Dict ResolvedService → Dict String → Bool
plan_differs resolved images = any_of (λ kv. resolved_differs kv.1 (dict_get kv.0 resolved)) images

unfoldable pub check_resolved : Dict String → ConfigOutput → Result (Unit {0})
check_resolved images fails = err (supervisor_error "compose_resolution_failed")
check_resolved images malformed = err (supervisor_error "compose_resolution_malformed")
check_resolved images (plan resolved) =
    raise_if (plan_differs resolved images) (supervisor_error "resolved_plan_not_immutable")

abbrev pub no_images : Dict String → Bool
no_images [] = true
no_images (_ ∷ _) = false

unfoldable pub validate_plan : SupervisorAttempt → ConfigOutput → Result (Unit {0})
validate_plan a output =
    raise_if
      (not (sha_pattern a.target_sha)
        || not (digest_pattern (codes a.artifact_digest))
        || no_images a.service_images)
      (supervisor_error "invalid_immutable_attempt")
    >> check_images a.artifact_digest a.service_images
    >> check_resolved a.service_images output

-- `d[k] = v`
unfoldable pub dict_put {ℓ} : {V : Type ℓ} → String → V → Dict V → Dict V
dict_put k v [] = (k, v) ∷ []
dict_put k v ((j, u) ∷ d) =
    let rest = dict_put k v d in if k == j then (k, v) ∷ d else (j, u) ∷ rest

-- The rows of the attempt's services, the last of each.
unfoldable pub select_rows : Dict String → List PsRow → Dict PsRow → Dict PsRow
select_rows images [] selected = selected
select_rows images (r ∷ rows) selected = elim r.service [
  | none ↦ select_rows images rows selected
  | some s ↦
      let kept = select_rows images rows selected in
      let added = select_rows images rows (dict_put s r selected) in
      if elem s (map (λ kv. kv.0) images) then added else kept
]

-- `str(row.get("ID") or row.get("Name") or "")`
abbrev pub text_or : Option String → String → String
text_or none other = other
text_or (some t) other = if t == "" then other else t

abbrev pub container_id : PsRow → String
container_id r = text_or r.id (text_or r.name "")

-- The containers of which `docker inspect` tells.
unfoldable pub inspect_rows : (String → Option Container) → Dict PsRow → Dict Container
inspect_rows inspect [] = []
inspect_rows inspect ((s, r) ∷ rows) = elim (inspect (container_id r)) [
  | none ↦ inspect_rows inspect rows
  | some c ↦ (s, c) ∷ inspect_rows inspect rows
]

-- `str(status).lower()` is one of the states of a container that changes.
abbrev pub transitional_states : List String
transitional_states = "created" ∷ "restarting" ∷ "removing" ∷ "paused" ∷ []

abbrev pub known_text : Option String → String
known_text none = ""
known_text (some t) = t

-- `value is True`, `value is False`
abbrev pub is_flag : Bool → Option Bool → Bool
is_flag b none = false
is_flag true (some c) = c
is_flag false (some c) = not c

-- `row.get("State", {}).get("Running") is True`
unfoldable pub is_running : Container → Bool
is_running c = is_flag true c.running

unfoldable pub all_running : Dict String → Dict Container → Bool
all_running images selected =
    nat_beq (length selected) (length images) && all_of (λ kv. is_running kv.1) selected

-- `int_text` is Python's `str` of an int, and `lower` its `str.lower`.
module _ (int_text : ℕ → String) (lower : String → String) where
  unfoldable pub is_transitional : Container → Bool
  is_transitional c = elem (lower (known_text c.status)) transitional_states

  -- Whether a container carries the four labels of the attempt.
  unfoldable pub is_bound : SupervisorAttempt → Container → Bool
  is_bound a c =
      dict_get "com.maoxx.deployment_id" c.labels == some (uuid_text a.deployment_id)
      && dict_get "com.maoxx.execution_attempt_id" c.labels
        == some (uuid_text a.execution_attempt_id)
      && dict_get "com.maoxx.fencing_epoch" c.labels == some (int_text a.fencing_epoch)
      && dict_get "com.maoxx.intent_hash" c.labels == some a.intent_hash

  -- `bindings == {expected_binding}`
  unfoldable pub binding_valid : SupervisorAttempt → Dict Container → Bool
  binding_valid a [] = false
  binding_valid a selected = all_of (λ kv. is_bound a kv.1) selected

  unfoldable pub classify : SupervisorAttempt → Dict Container → RuntimeState
  classify a [] = not_started
  classify a selected =
      if any_of (λ kv. is_transitional kv.1) selected
      then unknown
      else if not (binding_valid a selected)
      then unknown
      else if not (all_running a.service_images selected)
      then failed
      else mutation_completed_health_unknown

  abbrev pub if_bound : {A : Type 0} → Bool → A → Option A
  if_bound true x = some x
  if_bound false x = none

  abbrev pub snapshot_of : SupervisorAttempt → Dict Container → Bool → Time → RuntimeSnapshot
  snapshot_of a selected client_active now =
      let bound = binding_valid a selected in
      record {
        state = classify a selected;
        deployment_id = if_bound bound a.deployment_id;
        execution_attempt_id = if_bound bound a.execution_attempt_id;
        fencing_epoch = if_bound bound a.fencing_epoch;
        intent_hash = if_bound bound a.intent_hash;
        containers = selected;
        docker_client_active = client_active;
        transitional = any_of (λ kv. is_transitional kv.1) selected;
        observed_at = now;
      }

  abbrev pub unreadable_snapshot : Time → RuntimeSnapshot
  unreadable_snapshot now = record {
    state = unknown;
    deployment_id = none;
    execution_attempt_id = none;
    fencing_epoch = none;
    intent_hash = none;
    containers = [];
    docker_client_active = true;
    transitional = true;
    observed_at = now;
  }

  -- `observe`, by the rows of `docker compose ps`, no rows if its text is no list; `client_active` is what
  -- `pgrep` tells.
  unfoldable pub observe :
      SupervisorAttempt
      → Option (List PsRow)
      → (String → Option Container)
      → Bool
      → Time
      → RuntimeSnapshot
  observe a none inspect client_active now = unreadable_snapshot now
  observe a (some rows) inspect client_active now =
      snapshot_of a (inspect_rows inspect (select_rows a.service_images rows [])) client_active now
