-- ===== src/Tests/GitHub.antt =====
-- The laws of the verifier of main, on a run whose attempt has one quality gate.
use maoxx_os.Prelude.{String, ℕ, ◌≡◌, refl, true, some, [], ◌∷◌, ok}
use maoxx_os.Deployment.Authority.{valid_verified_ci}
use maoxx_os.Deployment.GitHub.{
  RunAnswer, Job, Api, Verifier, quality_jobs, valid_attempt, repository_differs, run_differs,
  only_gate, ci_evidence, fetch, fetch_jobs, verify_answers, verify_main,
}
use maoxx_os.Deployment.GitHub.Laws.{OnMain, verify_main-valid_verified_ci}

abbrev int_text : ℕ → String
int_text _ = "7"

abbrev verifier : Verifier
verifier = record {
  repository = "owner/repo";
  repository_id = 11;
  workflow_id = 12;
  workflow_path = ".github/workflows/ci.yml";
}

abbrev passed_run : RunAnswer
passed_run = record {
  run_attempt = some 2;
  repository_full_name = some "owner/repo";
  repository_id = some 11;
  workflow_id = some 12;
  id = some 13;
  head_sha = some "abc";
  head_branch = some "main";
  event = some "push";
  status = some "completed";
  conclusion = some "success";
  actor_type = some "User";
  html_url = "https://github.com/owner/repo/actions/runs/13";
}

abbrev lint : Job
lint = record {
  name = some "CI / Lint";
  conclusion = some "failure";
  status = some "completed";
  id_text = "1";
}

abbrev gate : Job
gate = record {
  name = some "CI / Quality Gate";
  conclusion = some "success";
  status = some "completed";
  id_text = "2";
}

abbrev answers : Api
answers = record {
  repo =
      ok (
        some
          (record { id = some 11; full_name = some "owner/repo"; default_branch = some "main" }));
  workflow = ok (
      some
        (record { id = some 12; path = some ".github/workflows/ci.yml"; state = some "active" }));
  run = ok (some passed_run);
  comparison = ok (some (some "abc"));
  jobs = λ _. ok (some (lint ∷ gate ∷ []));
}

verify_returns :
    verify_main int_text verifier answers "owner/repo" "abc" 13 100
    ≡ ok (ci_evidence int_text verifier passed_run 2 gate "abc" 13 100)
unfolding verify_main fetch fetch_jobs verify_answers valid_attempt quality_jobs repository_differs
    run_differs only_gate
verify_returns = refl

verify_main-valid_verified_ci_example :
    (valid_verified_ci
        (ci_evidence int_text verifier passed_run 2 gate "abc" 13 100)
        "owner/repo"
        "abc"
        13
      ≡ true)
    × OnMain int_text verifier answers "owner/repo" "abc" 13 100
verify_main-valid_verified_ci_example =
    verify_main-valid_verified_ci int_text verifier answers "owner/repo" "abc" 13 100
      (ci_evidence int_text verifier passed_run 2 gate "abc" 13 100) verify_returns
