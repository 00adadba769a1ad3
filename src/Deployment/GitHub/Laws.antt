-- ===== src/Deployment/GitHub/Laws.antt =====
-- What the verifier of app/services/deployment_authority.py guarantees, and that
-- `_valid_verified_ci` of app/services/deployment_service.py accepts it.
use maoxx_os.Prelude.{
  ℕ, zero, suc, ◌!=◌, ◌≡◌, ◌≢◌, refl, ap, not, String, ◌<>◌, true, false, Option, none, some, List,
  Result, ok, value_error, arith, ◌>>=◌, ◌>>◌, raise_if, bind-ok, raise_if-ok, nat_eq, string_eq,
  option_eq, ◌==◌, [], ◌∷◌, ==→≡, ==_refl, !=_false→≡, Bool-cases, inl, inr, Time,
}
use Prim.Native.String.{count}
use text.Mathlib.TextLemmas.{length-append}
use maoxx_os.Deployment.Authority.{VerifiedCiEvidence, valid_verified_ci}
use maoxx_os.Deployment.GitHub.{
  Answers, verify_answers, fetch, fetch_jobs, Verifier, Api, RunAnswer, Job, valid_attempt,
  quality_jobs, repository_differs, run_differs, only_gate, ci_evidence, verify_main,
}

named : (s t : String) → (s <> ":" <> t) ≢ ""
named s t h =
    let none_left : count (s <> ":" <> t) ≡ 0 = ap count h in
    omega (arith, none_left, length-append s (":" <> t), length-append ":" t)

not_empty : (s t : String) → not ((s <> ":" <> t) == "") ≡ true
not_empty s t = elim (Bool-cases ((s <> ":" <> t) == "")) [
  | inl empty ↦ absurd (named s t (==→≡ (s <> ":" <> t) "" empty))
  | inr given ↦ rw given refl
]

module _ (int_text : ℕ → String) (v : Verifier) (api : Api) (repository target_sha : String)
    (run_id : ℕ) (now : Time) where
  -- What the answers say of a run that is verified.
  pub record OnMain : Type 0 where
    pub run : RunAnswer
    pub answered : api.run ≡ ok (some run)
    pub same_id : run.id ≡ some run_id
    pub head_sha : run.head_sha ≡ some target_sha
    pub head_branch : run.head_branch ≡ some "main"
    pub conclusion : run.conclusion ≡ some "success"
    pub merge_base : api.comparison ≡ ok (some (some target_sha))
    pub attempt : ℕ
    pub jobs : List Job
    pub attempted : run.run_attempt ≡ some attempt
    pub listed : api.jobs attempt ≡ ok (some jobs)
    pub gate : Job
    pub only : quality_jobs jobs ≡ gate ∷ []
    pub gate_passed : gate.conclusion ≡ some "success"

  run_lem :
      (run : RunAnswer)
      → run_differs v run target_sha run_id ≡ false
      → (run.id ≡ some run_id)
        × (run.head_sha ≡ some target_sha)
        × (run.head_branch ≡ some "main")
        × (run.conclusion ≡ some "success")
  unfolding run_differs
  run_lem run h = (
    !=_false→≡ run.id (some run_id) (ground arith),
    !=_false→≡ run.head_sha (some target_sha) (ground arith),
    !=_false→≡ run.head_branch (some "main") (ground arith),
    !=_false→≡ run.conclusion (some "success") (ground arith),
  )

  gate_lem :
      (jobs : List Job) (gate : Job)
      → only_gate jobs ≡ ok gate
      → (jobs ≡ gate ∷ []) × (gate.conclusion ≡ some "success")
  unfolding only_gate
  gate_lem [] gate h = cc
  gate_lem (j ∷ []) gate h =
      let passed = !=_false→≡ j.conclusion (some "success") in ground (arith, passed)
  gate_lem (i ∷ j ∷ js) gate h = cc

  attempt_lem : (o : Option ℕ) (n : ℕ) → valid_attempt o ≡ ok n → o ≡ some n
  unfolding valid_attempt
  attempt_lem none n h = cc
  attempt_lem (some zero) n h = cc
  attempt_lem (some (suc m)) n h = cc

  answers_lem :
      (answers : Answers) (attempt : ℕ) (jobs : List Job) (e : VerifiedCiEvidence)
      → verify_answers int_text v answers attempt jobs target_sha run_id now ≡ ok e
      → (run_differs v answers.run target_sha run_id ≡ false)
        × (answers.merge_base ≡ some target_sha)
        × (gate : Job) × (only_gate (quality_jobs jobs) ≡ ok gate)
        × (e ≡ ci_evidence int_text v answers.run attempt gate target_sha run_id now)
  unfolding verify_answers
  answers_lem answers attempt jobs e h =
      let failed = value_error "github_authority_verification_failed" in
      let rest : Job → Result VerifiedCiEvidence = λ gate.
        raise_if (answers.merge_base != some target_sha) failed
        >> ok (ci_evidence int_text v answers.run attempt gate target_sha run_id now) in
      let tested =
        raise_if (run_differs v answers.run target_sha run_id) failed
        >> (only_gate (quality_jobs jobs) >>= rest) in
      let (_, h1) =
        raise_if-ok (repository_differs v answers.repo answers.workflow) failed tested h in
      let (same_run, h2) =
        raise_if-ok (run_differs v answers.run target_sha run_id) failed
          (only_gate (quality_jobs jobs) >>= rest) h1 in
      let (gate, gated, h3) = bind-ok (only_gate (quality_jobs jobs)) rest h2 in
      let (merged, h4) =
        raise_if-ok (answers.merge_base != some target_sha) failed
          (ok (ci_evidence int_text v answers.run attempt gate target_sha run_id now)) h3 in
      (same_run, !=_false→≡ answers.merge_base (some target_sha) merged, gate, gated, cc)

  fetch_lem :
      (answers : Answers)
      → fetch api ≡ ok answers
      → (api.run ≡ ok (some answers.run)) × (api.comparison ≡ ok (some answers.merge_base))
  unfolding fetch
  fetch_lem answers h = (ground arith, ground arith)

  accepted :
      (run : RunAnswer) (attempt : ℕ) (gate : Job)
      → repository ≡ v.repository
      → valid_verified_ci
          (ci_evidence int_text v run attempt gate target_sha run_id now)
          repository
          target_sha
          run_id
        ≡ true
  unfolding valid_verified_ci
  accepted run attempt gate same =
      rw
        (
          same,
          ==_refl v.repository,
          ==_refl target_sha,
          ==_refl run_id,
          not_empty (int_text v.workflow_id) v.workflow_path,
        )
        refl

  fetch_jobs_lem :
      (attempt : ℕ) (jobs : List Job)
      → fetch_jobs api attempt ≡ ok jobs
      → api.jobs attempt ≡ ok (some jobs)
  unfolding fetch_jobs
  fetch_jobs_lem attempt jobs h = ground arith

  -- The run that is verified, behind the four requests.
  record Verified (e : VerifiedCiEvidence) : Type 0 where
    answers : Answers
    attempt : ℕ
    jobs : List Job
    same_repository : (repository != v.repository) ≡ false
    fetched : fetch api ≡ ok answers
    attempted : valid_attempt answers.run.run_attempt ≡ ok attempt
    listed : fetch_jobs api attempt ≡ ok jobs
    answered : verify_answers int_text v answers attempt jobs target_sha run_id now ≡ ok e

  verify_main_lem :
      (e : VerifiedCiEvidence)
      → verify_main int_text v api repository target_sha run_id now ≡ ok e
      → Verified e
  unfolding verify_main
  verify_main_lem e h =
      let wrong = value_error "github_repository_not_configured" in
      let last : Answers → ℕ → List Job → Result VerifiedCiEvidence = λ answers attempt jobs.
        verify_answers int_text v answers attempt jobs target_sha run_id now in
      let listed : Answers → ℕ → Result VerifiedCiEvidence =
        λ answers attempt. fetch_jobs api attempt >>= last answers attempt in
      let tried : Answers → Result VerifiedCiEvidence =
        λ answers. valid_attempt answers.run.run_attempt >>= listed answers in
      let (same, h1) = raise_if-ok (repository != v.repository) wrong (fetch api >>= tried) h in
      let (answers, fetched, h2) = bind-ok (fetch api) tried h1 in
      let (attempt, attempted, h3) =
        bind-ok (valid_attempt answers.run.run_attempt) (listed answers) h2 in
      let (jobs, got, h4) = bind-ok (fetch_jobs api attempt) (last answers attempt) h3 in
      record {
        answers = answers;
        attempt = attempt;
        jobs = jobs;
        same_repository = same;
        fetched = fetched;
        attempted = attempted;
        listed = got;
        answered = h4;
      }

  -- What is verified passes the test of `_valid_verified_ci` for the repository, commit and run that it
  -- was asked for, by which an artifact is recorded; and its run is of that commit on main, successful,
  -- and passed the one quality gate of its attempt.
  pub verify_main-valid_verified_ci :
      (e : VerifiedCiEvidence)
      → verify_main int_text v api repository target_sha run_id now ≡ ok e
      → (valid_verified_ci e repository target_sha run_id ≡ true) × OnMain
  verify_main-valid_verified_ci e h =
      let d = verify_main_lem e h in
      let (same_run, merged, gate, gated, evidence) =
        answers_lem d.answers d.attempt d.jobs e d.answered in
      let (run_answered, compared) = fetch_lem d.answers d.fetched in
      let (id, head, branch, conclusion) = run_lem d.answers.run same_run in
      let (only, passed) = gate_lem (quality_jobs d.jobs) gate gated in
      (
        rw evidence (
            accepted d.answers.run d.attempt gate
              (!=_false→≡ repository v.repository d.same_repository)),
        record {
          run = d.answers.run;
          answered = run_answered;
          same_id = id;
          head_sha = head;
          head_branch = branch;
          conclusion = conclusion;
          merge_base = rw (← merged) compared;
          attempt = d.attempt;
          jobs = d.jobs;
          attempted = attempt_lem d.answers.run.run_attempt d.attempt d.attempted;
          listed = fetch_jobs_lem d.attempt d.jobs d.listed;
          gate = gate;
          only = only;
          gate_passed = passed;
        },
      )
