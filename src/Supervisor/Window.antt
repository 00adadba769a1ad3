-- ===== src/Supervisor/Window.antt =====
-- The window that the collector of app/services/resource_authority.py measures.
use maoxx_os.Prelude.{
  ℕ, suc, ◌+◌, ◌≤◌, ◌<◌, ◌≡◌, ◌≢◌, ◌↔◌, refl, ap, true, false, List, [], ◌∷◌, map, length, Result,
  ok, bind-ok, all_of, arith, Time, All, ==→≡, nat_eq, string_eq, option_eq,
}
use maoxx_os.Policy.Resource.{sort, at, last}
use maoxx_os.Policy.Resource.Median.{reaching, rank_iff, reaching-le-length}
use maoxx_os.Supervisor.Resources.{
  TrustedResourceSample, TrustedResourceResult, same_checkpoint, any_bad_step, bad_span, minimum,
  measure, evaluate, take_samples, collect, mem_median_min, mem_sample_min, swap_sample_min,
  disk_sample_min,
}

module _ (samples : List TrustedResourceSample) where
  -- How many samples reach a level.
  abbrev pub count_of : (TrustedResourceSample → ℕ) → ℕ → ℕ
  count_of field limit = reaching limit (map field samples)

  -- Four of seven samples, and so the median, have 1 GiB of memory, and each has 960 MiB of memory,
  -- 1.25 GiB of swap, and 5 GiB free on both file systems.
  pub record EnoughFor : Type 0 where
    pub median : 4 ≤ count_of (λ s. s.mem_available_bytes) 1073741824
    pub memory : count_of (λ s. s.mem_available_bytes) 1006632960 ≡ 7
    pub swap : count_of (λ s. s.swap_free_bytes) 1342177280 ≡ 7
    pub root : count_of (λ s. s.root_free_bytes) 5368709120 ≡ 7
    pub docker : count_of (λ s. s.docker_free_bytes) 5368709120 ≡ 7

-- Each time lies 4 to 6 seconds behind the one before it.
abbrev pub Steps : List Time → Type 0
Steps [] = Unit
Steps (left ∷ []) = Unit
Steps (left ∷ right ∷ rest) =
    (left + 4000000 ≤ right) × (right ≤ left + 6000000) × Steps (right ∷ rest)

steps_lem : (ticks : List Time) → any_bad_step ticks ≡ false → Steps ticks
unfolding any_bad_step
steps_lem [] h = tt
steps_lem (left ∷ []) h = tt
steps_lem (left ∷ right ∷ rest) h =
    (ground arith, ground arith, steps_lem (right ∷ rest) (ground arith))

-- A sample that was taken for the check of another one.
pub record SameCheck (a b : TrustedResourceSample) : Type 0 where
  pub check : a.resource_check_id ≡ b.resource_check_id
  pub deployment : a.deployment_id ≡ b.deployment_id
  pub environment : a.environment ≡ b.environment
  pub host : a.host_checkpoint ≡ b.host_checkpoint
  pub nonce : a.checkpoint_nonce ≡ b.checkpoint_nonce

same_lem : (a b : TrustedResourceSample) → same_checkpoint a b ≡ true → SameCheck a b
unfolding same_checkpoint
same_lem a b h = record {
  check = ==→≡ a.resource_check_id b.resource_check_id (ground arith);
  deployment = ==→≡ a.deployment_id b.deployment_id (ground arith);
  environment = ==→≡ a.environment b.environment (ground arith);
  host = ==→≡ a.host_checkpoint b.host_checkpoint (ground arith);
  nonce = ==→≡ a.checkpoint_nonce b.checkpoint_nonce (ground arith);
}

all_same :
    (a : TrustedResourceSample) (bs : List TrustedResourceSample)
    → all_of (same_checkpoint a) bs ≡ true
    → All (SameCheck a) bs
unfolding all_of
all_same a [] h = tt
all_same a (b ∷ bs) h = (same_lem a b (ground arith), all_same a bs (ground arith))

-- The samples of one window: of one check, at the right cadence, over 27 to 33 seconds.
abbrev pub OneWindow : List TrustedResourceSample → Type 0
OneWindow [] = ⊥
OneWindow (first ∷ rest) =
    let ticks = map (λ s. s.monotonic) (first ∷ rest) in
    All (SameCheck first) rest
    × Steps ticks
    × (first.monotonic + 27000000 ≤ last ticks)
    × (last ticks ≤ first.monotonic + 33000000)

length-map :
    (field : TrustedResourceSample → ℕ) (samples : List TrustedResourceSample)
    → length (map field samples) ≡ length samples
length-map field [] = refl
length-map field (s ∷ ss) = ap suc (length-map field ss)

module _ (samples : List TrustedResourceSample) (seven : length samples ≡ 7) where
  rank_seven :
      (field : TrustedResourceSample → ℕ) (limit i : ℕ)
      → i < 7
      → (limit ≤ at (sort (map field samples)) i) ↔ (7 ≤ i + count_of samples field limit)
  rank_seven field limit i small =
      let seven_of : length (map field samples) ≡ 7 =
        omega (arith, seven, length-map field samples) in
      rw (← seven_of) (rank_iff limit i (map field samples) (omega (arith, seven_of)))

  minimum_iff :
      (field : TrustedResourceSample → ℕ) (limit : ℕ)
      → (limit ≤ minimum field samples) ↔ (count_of samples field limit ≡ 7)
  unfolding minimum
  minimum_iff field limit =
      let (f, g) = rank_seven field limit 0 (omega arith) in
      let most = reaching-le-length limit (map field samples) in
      let seven_of = length-map field samples in
      (λ h. omega (arith, f h, most, seven_of, seven), λ h. g (omega (arith, h)))

  -- The tests of `_evaluate`.
  passed_iff :
      (first : TrustedResourceSample) (now : Time)
      → ((measure first samples now).passed ≡ true) ↔ EnoughFor samples
  unfolding measure
  passed_iff first now =
      let median = rank_seven (λ s. s.mem_available_bytes) mem_median_min 3 (omega arith) in
      let memory = minimum_iff (λ s. s.mem_available_bytes) mem_sample_min in
      let swap = minimum_iff (λ s. s.swap_free_bytes) swap_sample_min in
      let root = minimum_iff (λ s. s.root_free_bytes) disk_sample_min in
      let docker = minimum_iff (λ s. s.docker_free_bytes) disk_sample_min in
      (
        λ h. record {
          median = omega (arith, median.0 (ground arith));
          memory = memory.0 (ground arith);
          swap = swap.0 (ground arith);
          root = root.0 (ground arith);
          docker = docker.0 (ground arith);
        },
        λ e.
            let m1 = median.1 (omega (arith, e.median)) in
            let m2 = memory.1 e.memory in
            let m3 = swap.1 e.swap in
            let m4 = root.1 e.root in let m5 = docker.1 e.docker in ground arith,
      )

evaluate_lem :
    (first : TrustedResourceSample) (rest : List TrustedResourceSample) (now : Time)
    (r : TrustedResourceResult)
    → evaluate (first ∷ rest) now ≡ ok r
    → (length (first ∷ rest) ≡ 7)
      × (all_of (same_checkpoint first) (first ∷ rest) ≡ true)
      × (any_bad_step (map (λ s. s.monotonic) (first ∷ rest)) ≡ false)
      × (bad_span (map (λ s. s.monotonic) (first ∷ rest)) ≡ false)
      × (r ≡ measure first (first ∷ rest) now)
unfolding evaluate
evaluate_lem first rest now r h = ground arith

measure-samples :
    (first : TrustedResourceSample) (samples : List TrustedResourceSample) (now : Time)
    → (measure first samples now).samples ≡ samples
unfolding measure
measure-samples first samples now = refl

nothing_of : (now : Time) (r : TrustedResourceResult) → evaluate [] now ≢ ok r
unfolding evaluate
nothing_of now r h = cc

Good : TrustedResourceResult → Type 0
Good r = (length r.samples ≡ 7) × OneWindow r.samples × ((r.passed ≡ true) ↔ EnoughFor r.samples)

window_lem :
    (first : TrustedResourceSample) (rest : List TrustedResourceSample)
    → all_of (same_checkpoint first) (first ∷ rest) ≡ true
    → any_bad_step (map (λ s. s.monotonic) (first ∷ rest)) ≡ false
    → bad_span (map (λ s. s.monotonic) (first ∷ rest)) ≡ false
    → OneWindow (first ∷ rest)
unfolding bad_span
window_lem first rest same steps span = (
  (all_same first (first ∷ rest) same).1,
  steps_lem (map (λ s. s.monotonic) (first ∷ rest)) steps,
  ground arith,
  ground arith,
)

of_samples :
    (samples : List TrustedResourceSample) (now : Time) (r : TrustedResourceResult)
    → evaluate samples now ≡ ok r
    → Good r
unfolding Good
of_samples [] now r h = absurd (nothing_of now r h)
of_samples (first ∷ rest) now r h =
    let (seven, bound, steps, span, same) = evaluate_lem first rest now r h in
    let whole = measure-samples first (first ∷ rest) now in
    rw (same, whole)
      (seven, window_lem first rest bound steps span, passed_iff (first ∷ rest) seven first now)

-- A result that the collector returns is of seven samples, all of one check, deployment, environment, host
-- and nonce, taken every 4 to 6 seconds over 27 to 33 seconds, and it passes
-- exactly when they show enough: the median that the code reads off a sorted list says that four of
-- the seven reach 1 GiB of memory, and each minimum that all seven reach its level.
pub collect-EnoughFor :
    (sample : ℕ → Result TrustedResourceSample) (now : Time) (r : TrustedResourceResult)
    → collect sample now ≡ ok r
    → (length r.samples ≡ 7) × OneWindow r.samples × ((r.passed ≡ true) ↔ EnoughFor r.samples)
unfolding collect Good
collect-EnoughFor sample now r h =
    let (samples, _, evaluated) =
      bind-ok (take_samples sample 0 7) (λ samples. evaluate samples now) h in
    of_samples samples now r evaluated
