-- ===== src/Deployment/GitHub.antt =====
-- `GitHubCliProtectedMainCiVerifier` of app/services/deployment_authority.py. What the GitHub API answers
-- is an argument: an answer that is no object is none, and so is a field that is missing or is of another
-- type. A `repository`, `actor` or `merge_base_commit` that is given and is no object, and an attempt below
-- zero, are left out.
pub mod Laws
use maoxx_os.Prelude.{
  ℕ, suc, String, ◌<>◌, Bool, true, false, not, ◌||◌, ◌&&◌, Option, none, some, List, [], ◌∷◌,
  Result, ok, err, value_error, raise_if, or_raise, ◌>>=◌, ◌>>◌, elem, nat_eq, string_eq, option_eq,
  ◌==◌, ◌!=◌, Time, if◌then◌else◌,
}
use maoxx_os.Deployment.Authority.{VerifiedCiEvidence}

pub record RepositoryAnswer : Type 0 where
  pub id : Option ℕ
  pub full_name : Option String
  pub default_branch : Option String

pub record WorkflowAnswer : Type 0 where
  pub id : Option ℕ
  pub path : Option String
  pub state : Option String

pub record RunAnswer : Type 0 where
  pub run_attempt : Option ℕ
  pub repository_full_name : Option String
  pub repository_id : Option ℕ
  pub workflow_id : Option ℕ
  pub id : Option ℕ
  pub head_sha : Option String
  pub head_branch : Option String
  pub event : Option String
  pub status : Option String
  pub conclusion : Option String
  pub actor_type : Option String
  -- `str(run.get("html_url", ""))`
  pub html_url : String

pub record Job : Type 0 where
  pub name : Option String
  pub conclusion : Option String
  pub status : Option String
  -- `str(job.get("id"))`
  pub id_text : String

-- What each request gives, or why it fails.
pub record Api : Type 0 where
  pub repo : Result (Option RepositoryAnswer)
  pub workflow : Result (Option WorkflowAnswer)
  pub run : Result (Option RunAnswer)
  -- `comparison["merge_base_commit"]["sha"]`
  pub comparison : Result (Option (Option String))
  -- the jobs of a run's attempt
  pub jobs : ℕ → Result (Option (List Job))

-- The answers that are objects.
pub record Answers : Type 0 where
  pub repo : RepositoryAnswer
  pub workflow : WorkflowAnswer
  pub run : RunAnswer
  pub merge_base : Option String

pub record Verifier : Type 0 where
  pub repository : String
  pub repository_id : ℕ
  pub workflow_id : ℕ
  pub workflow_path : String

-- The jobs with the name of the quality gate.
unfoldable pub quality_jobs : List Job → List Job
quality_jobs [] = []
quality_jobs (j ∷ jobs) =
    let rest = quality_jobs jobs in if j.name == some "CI / Quality Gate" then j ∷ rest else rest

-- `isinstance(attempt, int) and attempt >= 1`
unfoldable pub valid_attempt : Option ℕ → Result ℕ
valid_attempt (some (suc n)) = ok (suc n)
valid_attempt _ = err (value_error "github_authority_invalid_attempt")

unfoldable pub repository_differs : Verifier → RepositoryAnswer → WorkflowAnswer → Bool
repository_differs v repo workflow =
    repo.id != some v.repository_id
    || repo.full_name != some v.repository
    || repo.default_branch != some "main"
    || workflow.id != some v.workflow_id
    || workflow.path != some v.workflow_path
    || workflow.state != some "active"

unfoldable pub run_differs : Verifier → RunAnswer → String → ℕ → Bool
run_differs v run target_sha run_id =
    run.repository_full_name != some v.repository
    || run.repository_id != some v.repository_id
    || run.workflow_id != some v.workflow_id
    || run.id != some run_id
    || run.head_sha != some target_sha
    || run.head_branch != some "main"
    || run.event != some "push"
    || run.status != some "completed"
    || run.conclusion != some "success"
    || run.actor_type != some "User" && run.actor_type != some "Bot"

-- The quality gate, where there is exactly one.
unfoldable pub only_gate : List Job → Result Job
only_gate (j ∷ []) =
    raise_if (j.conclusion != some "success" || j.status != some "completed")
      (value_error "github_authority_verification_failed")
    >> ok j
only_gate _ = err (value_error "github_authority_verification_failed")

-- The four requests, and the test that each gives an object.
unfoldable pub fetch : Api → Result Answers
fetch api = do
  let invalid = value_error "github_authority_invalid_response"
  repo_answer ← api.repo
  workflow_answer ← api.workflow
  run_answer ← api.run
  comparison_answer ← api.comparison
  repo ← or_raise repo_answer invalid
  workflow ← or_raise workflow_answer invalid
  run ← or_raise run_answer invalid
  merge_base ← or_raise comparison_answer invalid
  ok (record { repo = repo; workflow = workflow; run = run; merge_base = merge_base })

-- `jobs.get("jobs", [])`
unfoldable pub fetch_jobs : Api → ℕ → Result (List Job)
fetch_jobs api attempt =
    api.jobs attempt >>= λ answer. or_raise answer (value_error "github_authority_invalid_response")

module _ (int_text : ℕ → String) where
  abbrev pub ci_evidence : Verifier → RunAnswer → ℕ → Job → String → ℕ → Time → VerifiedCiEvidence
  ci_evidence v run attempt gate target_sha run_id now = record {
    repository = v.repository;
    target_sha = target_sha;
    run_id = run_id;
    workflow_name = int_text v.workflow_id <> ":" <> v.workflow_path;
    event = "push";
    status = "completed";
    conclusion = "success";
    quality_gate_conclusion = "success";
    protected_main_membership = true;
    verified_at = now;
    verified_at_has_zone = true;
    provenance =
        ("source", "gh_api")
        ∷ ("run_url", run.html_url)
        ∷ ("repository_id", int_text v.repository_id)
        ∷ ("run_attempt", int_text attempt)
        ∷ ("quality_gate_job_id", gate.id_text)
        ∷ [];
    provenance_source = "github_checks_api";
  }

  -- The one test of the answers is split; each of its parts raises the same error.
  unfoldable pub verify_answers :
      Verifier → Answers → ℕ → List Job → String → ℕ → Time → Result VerifiedCiEvidence
  verify_answers v answers attempt jobs target_sha run_id now = do
    let failed = value_error "github_authority_verification_failed"
    raise_if (repository_differs v answers.repo answers.workflow) failed
    raise_if (run_differs v answers.run target_sha run_id) failed
    gate ← only_gate (quality_jobs jobs)
    raise_if (answers.merge_base != some target_sha) failed
    ok (ci_evidence v answers.run attempt gate target_sha run_id now)

  -- `verify`
  unfoldable pub verify_main :
      Verifier → Api → String → String → ℕ → Time → Result VerifiedCiEvidence
  verify_main v api repository target_sha run_id now = do
    raise_if (repository != v.repository) (value_error "github_repository_not_configured")
    answers ← fetch api
    attempt ← valid_attempt answers.run.run_attempt
    jobs ← fetch_jobs api attempt
    verify_answers v answers attempt jobs target_sha run_id now
