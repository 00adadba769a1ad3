-- ===== src/Tests/Supervisor.antt =====
-- The laws of the supervisor at a deployment that succeeds.
use maoxx_os.Prelude.{
  ◌≡◌, ◌≤◌, ◌+◌, refl, true, false, some, none, [], ok, Result, find, any_of, all_of, elem, codes,
  uuid_text, dict_get, ◌↔◌, supervisor_error, err, arith, length, ℕ, Time,
}
use maoxx_os.Policy.Health.{
  required_health_checks, keys, values, subset, health_checks_are_complete, get,
}
use maoxx_os.Policy.Resource.{sort, insert_number}
use maoxx_os.Approval.Patterns.{ends_with}
use maoxx_os.Approval.Requests.{request_of_id}
use maoxx_os.Approval.Decisions.{decision_of_request}
use maoxx_os.Deployment.Intents.{intent_of_id}
use maoxx_os.Deployment.Artifacts.{artifact_of}
use maoxx_os.Deployment.Staging.{acceptance_of}
use maoxx_os.Deployment.Bindings.{binding_of}
use maoxx_os.Deployment.Evidence.{evidence_of_key, latest_evidence}
use maoxx_os.Deployment.Start.{calculate_intent_hash}
use maoxx_os.Supervisor.Attempt.{
  healthy, state_text, state_of_text, RuntimeState-discrete, HealthCycle,
}
use maoxx_os.Supervisor.Resources.{
  last_captured, require_fresh, same_checkpoint, any_bad_step, bad_span, minimum, measure, evaluate,
  take_samples, collect, TrustedResourceResult,
}
use maoxx_os.Supervisor.Journal.{
  JournalEvent-discrete, attempt_terminal, binding_mismatch, read_line, load_journal, has_event,
}
use maoxx_os.Supervisor.Run.{World, returned, append, transact, submit}
use maoxx_os.Supervisor.Authority.{
  AttemptFacts, attempt_of_id, consumption_of, read_facts, services_differ, is_text, rows_mismatch,
  ci_mismatch, time_of, check_facts, load_attempt,
}
use maoxx_os.Supervisor.Evidence.{
  insert_evidence, result_status, record_runtime_result, is_marker, is_marked, mutation_submitted,
  record_mutation_submitted, record_resource,
}
use maoxx_os.Supervisor.Terminal.{health_anchor, cycle_passed}
use maoxx_os.Supervisor.Fingerprint.{stable_fields, stable_fingerprint}
use maoxx_os.Supervisor.Execute.{
  note, record_result_or_unknown, finish, conclude_health, judge_health, read_journal,
  health_locked, resolve_state, reconcile_locked, submit_failed, disconnected, mutate, accept,
  fresh_answer, start_fresh, resume, load_answer, load, execute, reconcile,
}
use maoxx_os.Supervisor.Takeover.{
  takeover_safe, takeover_verdict, observe_again, prove_quiescent_takeover,
}
use maoxx_os.Supervisor.Compose.{
  dict_put, select_rows, inspect_rows, is_running, all_running, is_transitional, is_bound,
  binding_valid, classify, observe,
}
use maoxx_os.Supervisor.Cycle.{
  first_checks, runtime_ok, probe, smoke, has_labels, immutable_ok, check_service, check_services,
  restart_counts, cycle_checks, health_cycle_once,
}
use maoxx_os.Supervisor.Polling.{kept_error, poll_step, poll, verify_health, verify_health_ends}
use maoxx_os.Supervisor.Submission.{AtMostOnce}
use maoxx_os.Supervisor.Once.{first_world, executes, call, begin, called, Runs-AtMostOnce}
use maoxx_os.Supervisor.Verdicts.{ShowsHealthy, Verified}
use maoxx_os.Supervisor.Healthy.{health_locked-Verified}
use maoxx_os.Supervisor.Quiescence.{Quiescent, prove_quiescent_takeover-Quiescent}
use maoxx_os.Supervisor.Window.{EnoughFor, OneWindow, collect-EnoughFor}
use maoxx_os.Supervisor.Complete.{api, health_cycle_once-cycle_passed}
use maoxx_os.Supervisor.Anchored.{AnchorAt}
use maoxx_os.Supervisor.Deployed.{IsCompose, execute-ShowsHealthy}
use maoxx_os.Supervisor.Replay.{execute-replays}
use maoxx_os.Supervisor.Authorized.{
  attempt_body, HoldsLock, RowsAgree, CiAgrees, load_attempt-Authorized,
}
use maoxx_os.Tables.{DeploymentLock}
use maoxx_os.Deployment.Authority.{VerifiedCiEvidence}
use maoxx_os.Tests.Data.{zeros, hashing, json_dumps, returned as result_of}
use maoxx_os.Tests.Supervised.{
  sampled, image, bare_host, ps_rows, inspect, polled_ok, attempted, library, ci, loaded, sample,
  int_text, lower, probes, took, sleep, host, fresh, from_iso,
}

load_returns : load_answer library host 70 attempted ≡ ok loaded
unfolding load_answer load_attempt read_facts check_facts rows_mismatch ci_mismatch time_of is_text
    services_differ subset latest_evidence consumption_of attempt_of_id binding_of acceptance_of
    artifact_of intent_of_id request_of_id decision_of_request calculate_intent_hash find all_of
    elem dict_get
load_returns = refl

abbrev after : World
after = (execute library host 70 fresh).1

execute_returns : execute library host 70 fresh ≡ (returned healthy, after)
unfolding execute reconcile load read_journal resume start_fresh fresh_answer accept mutate
    submit_failed reconcile_locked resolve_state health_locked judge_health conclude_health finish
    record_result_or_unknown disconnected note append transact submit load_answer load_attempt
    read_facts check_facts rows_mismatch ci_mismatch time_of is_text services_differ subset
    latest_evidence consumption_of attempt_of_id binding_of acceptance_of artifact_of intent_of_id
    request_of_id decision_of_request calculate_intent_hash find all_of any_of elem dict_get
    load_journal read_line binding_mismatch has_event JournalEvent-discrete RuntimeState-discrete
    collect take_samples evaluate measure minimum bad_span any_bad_step same_checkpoint
    require_fresh last_captured sort insert_number record_resource insert_evidence evidence_of_key
    record_mutation_submitted mutation_submitted is_marked is_marker record_runtime_result
    result_status state_text state_of_text health_anchor cycle_passed health_checks_are_complete
    required_health_checks keys values get verify_health poll poll_step kept_error health_cycle_once
    cycle_checks check_services check_service first_checks runtime_ok probe smoke has_labels
    immutable_ok restart_counts dict_put ends_with codes uuid_text observe classify binding_valid
    is_bound is_transitional all_running is_running inspect_rows select_rows
execute_returns = refl

-- A second call on a world that a first one has left.
Runs-AtMostOnce_example :
    AtMostOnce (call library host executes 70 (record after { left = 9; torn = true }))
Runs-AtMostOnce_example =
    Runs-AtMostOnce library 70
      (call library host executes 70 (record after { left = 9; torn = true }))
      (called host executes 9 true after
        (called host executes 50 false (first_world attempted) (begin attempted)))

-- The journal of a marked attempt is gone.
abbrev lost : World
lost = record after { journal = [] }

lost_loads : load_answer library host 70 lost.db ≡ ok loaded
unfolding execute reconcile load read_journal resume start_fresh fresh_answer accept mutate
    submit_failed reconcile_locked resolve_state health_locked judge_health conclude_health finish
    record_result_or_unknown disconnected note append transact submit load_answer load_attempt
    read_facts check_facts rows_mismatch ci_mismatch time_of is_text services_differ subset
    latest_evidence consumption_of attempt_of_id binding_of acceptance_of artifact_of intent_of_id
    request_of_id decision_of_request calculate_intent_hash find all_of any_of elem dict_get
    load_journal read_line binding_mismatch has_event JournalEvent-discrete RuntimeState-discrete
    collect take_samples evaluate measure minimum bad_span any_bad_step same_checkpoint
    require_fresh last_captured sort insert_number record_resource insert_evidence evidence_of_key
    record_mutation_submitted mutation_submitted is_marked is_marker record_runtime_result
    result_status state_text state_of_text health_anchor cycle_passed health_checks_are_complete
    required_health_checks keys values get verify_health poll poll_step kept_error health_cycle_once
    cycle_checks check_services check_service first_checks runtime_ok probe smoke has_labels
    immutable_ok restart_counts dict_put ends_with codes uuid_text observe classify binding_valid
    is_bound is_transitional all_running is_running inspect_rows select_rows
lost_loads = refl

nothing_read : load_journal loaded [] ≡ ok []
unfolding load_journal
nothing_read = refl

nothing_ended : has_event attempt_terminal [] ≡ false
unfolding has_event any_of
nothing_ended = refl

execute-replays_example : execute library host 70 after ≡ (returned healthy, after)
execute-replays_example =
    execute-replays library host host 70 fresh after loaded [] healthy load_returns nothing_read
      nothing_ended execute_returns (λ h. cc) lost_loads

abbrev compose : IsCompose int_text lower host loaded
compose = record {
  listed = ps_rows;
  inspect = inspect;
  client_active = false;
  observed_at = 100;
  observes = refl;
  probes = probes;
  started = 100;
  took = took;
  sleep = sleep;
  verifies = λ d c.
      polled_ok
        (verify_health (λ i. health_cycle_once int_text loaded (probes i) d) took sleep d 100 25) c;
}

execute-ShowsHealthy_example :
    (anchor : Time) × AnchorAt loaded anchor after.journal
    × (j : ℕ) × (c : HealthCycle) × (health_cycle_once int_text loaded
          (probes j)
          (anchor + 120000000)
        ≡ ok c)
    × ShowsHealthy loaded anchor c
execute-ShowsHealthy_example =
    execute-ShowsHealthy int_text lower host loaded compose library 70 fresh after [] load_returns
      nothing_read nothing_ended execute_returns

abbrev after_health : World
after_health = (health_locked host loaded fresh).1

health_returns : health_locked host loaded fresh ≡ (returned healthy, after_health)
unfolding execute reconcile load read_journal resume start_fresh fresh_answer accept mutate
    submit_failed reconcile_locked resolve_state health_locked judge_health conclude_health finish
    record_result_or_unknown disconnected note append transact submit load_answer load_attempt
    read_facts check_facts rows_mismatch ci_mismatch time_of is_text services_differ subset
    latest_evidence consumption_of attempt_of_id binding_of acceptance_of artifact_of intent_of_id
    request_of_id decision_of_request calculate_intent_hash find all_of any_of elem dict_get
    load_journal read_line binding_mismatch has_event JournalEvent-discrete RuntimeState-discrete
    collect take_samples evaluate measure minimum bad_span any_bad_step same_checkpoint
    require_fresh last_captured sort insert_number record_resource insert_evidence evidence_of_key
    record_mutation_submitted mutation_submitted is_marked is_marker record_runtime_result
    result_status state_text state_of_text health_anchor cycle_passed health_checks_are_complete
    required_health_checks keys values get verify_health poll poll_step kept_error health_cycle_once
    cycle_checks check_services check_service first_checks runtime_ok probe smoke has_labels
    immutable_ok restart_counts dict_put ends_with codes uuid_text observe classify binding_valid
    is_bound is_transitional all_running is_running inspect_rows select_rows
health_returns = refl

health_locked-Verified_example :
    (anchor : Time) × ((t : Time) → health_anchor [] ≡ some t → anchor ≡ t)
    × Verified host loaded anchor
health_locked-Verified_example =
    health_locked-Verified host loaded fresh after_health [] nothing_read health_returns

abbrev after_proof : World
after_proof = (prove_quiescent_takeover library host 70 fresh).1

takeover_returns : prove_quiescent_takeover library host 70 fresh ≡ (returned true, after_proof)
unfolding execute reconcile load read_journal resume start_fresh fresh_answer accept mutate
    submit_failed reconcile_locked resolve_state health_locked judge_health conclude_health finish
    record_result_or_unknown disconnected note append transact submit load_answer load_attempt
    read_facts check_facts rows_mismatch ci_mismatch time_of is_text services_differ subset
    latest_evidence consumption_of attempt_of_id binding_of acceptance_of artifact_of intent_of_id
    request_of_id decision_of_request calculate_intent_hash find all_of any_of elem dict_get
    load_journal read_line binding_mismatch has_event JournalEvent-discrete RuntimeState-discrete
    collect take_samples evaluate measure minimum bad_span any_bad_step same_checkpoint
    require_fresh last_captured sort insert_number record_resource insert_evidence evidence_of_key
    record_mutation_submitted mutation_submitted is_marked is_marker record_runtime_result
    result_status state_text state_of_text health_anchor cycle_passed health_checks_are_complete
    required_health_checks keys values get verify_health poll poll_step kept_error health_cycle_once
    cycle_checks check_services check_service first_checks runtime_ok probe smoke has_labels
    immutable_ok restart_counts dict_put ends_with codes uuid_text observe classify binding_valid
    is_bound is_transitional all_running is_running inspect_rows select_rows
    prove_quiescent_takeover observe_again takeover_verdict takeover_safe stable_fingerprint
    stable_fields
takeover_returns = refl

prove_quiescent_takeover-Quiescent_example : Quiescent library host × (after_proof.mutations ≡ 0)
prove_quiescent_takeover-Quiescent_example =
    prove_quiescent_takeover-Quiescent library host 70 fresh after_proof takeover_returns

attempt_returns : load_attempt from_iso hashing json_dumps 70 (some ci) 50 attempted ≡ ok loaded
unfolding execute reconcile load read_journal resume start_fresh fresh_answer accept mutate
    submit_failed reconcile_locked resolve_state health_locked judge_health conclude_health finish
    record_result_or_unknown disconnected note append transact submit load_answer load_attempt
    read_facts check_facts rows_mismatch ci_mismatch time_of is_text services_differ subset
    latest_evidence consumption_of attempt_of_id binding_of acceptance_of artifact_of intent_of_id
    request_of_id decision_of_request calculate_intent_hash find all_of any_of elem dict_get
    load_journal read_line binding_mismatch has_event JournalEvent-discrete RuntimeState-discrete
    collect take_samples evaluate measure minimum bad_span any_bad_step same_checkpoint
    require_fresh last_captured sort insert_number record_resource insert_evidence evidence_of_key
    record_mutation_submitted mutation_submitted is_marked is_marker record_runtime_result
    result_status state_text state_of_text health_anchor cycle_passed health_checks_are_complete
    required_health_checks keys values get verify_health poll poll_step kept_error health_cycle_once
    cycle_checks check_services check_service first_checks runtime_ok probe smoke has_labels
    immutable_ok restart_counts dict_put ends_with codes uuid_text observe classify binding_valid
    is_bound is_transitional all_running is_running inspect_rows select_rows
attempt_returns = refl

load_attempt-Authorized_example :
    (zeros ≡ calculate_intent_hash hashing json_dumps (attempt_body loaded))
    × ((l : DeploymentLock) × (attempted.deployment_lock ≡ some l) × HoldsLock loaded l)
    × ((f : AttemptFacts) × (read_facts 70 attempted ≡ ok f) × RowsAgree loaded f 50)
    × ((v : VerifiedCiEvidence) × (some ci ≡ some v) × CiAgrees loaded v 50)
load_attempt-Authorized_example =
    load_attempt-Authorized from_iso hashing json_dumps 70 (some ci) 50 attempted loaded
      attempt_returns

abbrev measured : TrustedResourceResult
measured = result_of (measure (sampled 81 0) [] 50) (collect sample 50)

collect_returns : collect sample 50 ≡ ok measured
unfolding collect take_samples evaluate measure minimum bad_span any_bad_step same_checkpoint sort
    insert_number all_of
collect_returns = refl

collect-EnoughFor_example :
    (length measured.samples ≡ 7)
    × OneWindow measured.samples
    × ((measured.passed ≡ true) ↔ EnoughFor measured.samples)
collect-EnoughFor_example = collect-EnoughFor sample 50 measured collect_returns

-- Cycles that never succeed.
abbrev failing : ℕ → Result HealthCycle
failing _ = err (supervisor_error "mandatory_health_check_failed")

verify_health_ends_example :
    (r : Result HealthCycle) × (verify_health failing took sleep 120000000 100 25 ≡ some r)
verify_health_ends_example =
    verify_health_ends failing took sleep 120000000 (λ i duration started. omega arith) 100
      (omega arith)

abbrev no_cycle : HealthCycle
no_cycle = record {
  checks = [];
  observed_digest = "";
  observed_sha = "";
  migration_revision = none;
  completed_at = 0;
  restart_counts = [];
}

abbrev one_cycle : HealthCycle
one_cycle = result_of no_cycle (health_cycle_once int_text loaded (probes 0) 120000000)

cycle_returns : health_cycle_once int_text loaded (probes 0) 120000000 ≡ ok one_cycle
unfolding execute reconcile load read_journal resume start_fresh fresh_answer accept mutate
    submit_failed reconcile_locked resolve_state health_locked judge_health conclude_health finish
    record_result_or_unknown disconnected note append transact submit load_answer load_attempt
    read_facts check_facts rows_mismatch ci_mismatch time_of is_text services_differ subset
    latest_evidence consumption_of attempt_of_id binding_of acceptance_of artifact_of intent_of_id
    request_of_id decision_of_request calculate_intent_hash find all_of any_of elem dict_get
    load_journal read_line binding_mismatch has_event JournalEvent-discrete RuntimeState-discrete
    collect take_samples evaluate measure minimum bad_span any_bad_step same_checkpoint
    require_fresh last_captured sort insert_number record_resource insert_evidence evidence_of_key
    record_mutation_submitted mutation_submitted is_marked is_marker record_runtime_result
    result_status state_text state_of_text health_anchor cycle_passed health_checks_are_complete
    required_health_checks keys values get verify_health poll poll_step kept_error health_cycle_once
    cycle_checks check_services check_service first_checks runtime_ok probe smoke has_labels
    immutable_ok restart_counts dict_put ends_with codes uuid_text observe classify binding_valid
    is_bound is_transitional all_running is_running inspect_rows select_rows
cycle_returns = refl

completed : one_cycle.completed_at ≤ 120000000
unfolding execute reconcile load read_journal resume start_fresh fresh_answer accept mutate
    submit_failed reconcile_locked resolve_state health_locked judge_health conclude_health finish
    record_result_or_unknown disconnected note append transact submit load_answer load_attempt
    read_facts check_facts rows_mismatch ci_mismatch time_of is_text services_differ subset
    latest_evidence consumption_of attempt_of_id binding_of acceptance_of artifact_of intent_of_id
    request_of_id decision_of_request calculate_intent_hash find all_of any_of elem dict_get
    load_journal read_line binding_mismatch has_event JournalEvent-discrete RuntimeState-discrete
    collect take_samples evaluate measure minimum bad_span any_bad_step same_checkpoint
    require_fresh last_captured sort insert_number record_resource insert_evidence evidence_of_key
    record_mutation_submitted mutation_submitted is_marked is_marker record_runtime_result
    result_status state_text state_of_text health_anchor cycle_passed health_checks_are_complete
    required_health_checks keys values get verify_health poll poll_step kept_error health_cycle_once
    cycle_checks check_services check_service first_checks runtime_ok probe smoke has_labels
    immutable_ok restart_counts dict_put ends_with codes uuid_text observe classify binding_valid
    is_bound is_transitional all_running is_running inspect_rows select_rows
completed = omega arith

health_cycle_once-cycle_passed_example : cycle_passed loaded 120000000 one_cycle ≡ true
health_cycle_once-cycle_passed_example =
    health_cycle_once-cycle_passed int_text (probes 0) loaded 120000000 one_cycle (api image)
      cycle_returns completed

-- A lost journal that a reconciliation has begun anew lets the next execution mutate again.
mutated_twice :
    (execute library bare_host 70
      (record ((reconcile library bare_host 70 lost).1) { left = 50 })).1.mutations
    ≡ 2
unfolding execute reconcile load read_journal resume start_fresh fresh_answer accept mutate
    submit_failed reconcile_locked resolve_state health_locked judge_health conclude_health finish
    record_result_or_unknown disconnected note append transact submit load_answer load_attempt
    read_facts check_facts rows_mismatch ci_mismatch time_of is_text services_differ subset
    latest_evidence consumption_of attempt_of_id binding_of acceptance_of artifact_of intent_of_id
    request_of_id decision_of_request calculate_intent_hash find all_of any_of elem dict_get
    load_journal read_line binding_mismatch has_event JournalEvent-discrete RuntimeState-discrete
    collect take_samples evaluate measure minimum bad_span any_bad_step same_checkpoint
    require_fresh last_captured sort insert_number record_resource insert_evidence evidence_of_key
    record_mutation_submitted mutation_submitted is_marked is_marker record_runtime_result
    result_status state_text state_of_text health_anchor cycle_passed health_checks_are_complete
    required_health_checks keys values get verify_health poll poll_step kept_error health_cycle_once
    cycle_checks check_services check_service first_checks runtime_ok probe smoke has_labels
    immutable_ok restart_counts dict_put ends_with codes uuid_text observe classify binding_valid
    is_bound is_transitional all_running is_running inspect_rows select_rows
mutated_twice = refl
