-- ===== src/Policy/Resource/Gate.antt =====
-- Laws of `evaluate_resource_window`, app/services/deployment_policy.py.
use maoxx_os.Prelude.{
  ℕ, ◌+◌, ◌≤◌, ◌<◌, ◌≡◌, refl, ◌↔◌, true, false, List, [], ◌∷◌, arith, length, any_of, all_of, All,
}
use maoxx_os.Policy.Resource.{
  Metric, natural, negative, not_int, ResourceSample, amount, well_formed, sample_metrics,
  elapsed_of, memory_of, any_bad_interval, sort, at, last, below, evaluate_levels,
  evaluate_resource_window,
}
use maoxx_os.Policy.Resource.Median.{reaching, rank_iff, reaching-le-length}

-- The levels of the seven samples: four of them, and so the median, have 1 GiB of memory, and each
-- has 960 MiB of memory, 1.25 GiB of swap and 5 GiB on each of the two file systems.
pub record EnoughResources (samples : List ResourceSample) : Type 0 where
  pub median : 4 ≤ reaching 1073741824 (memory_of samples)
  pub memory : reaching 1006632960 (memory_of samples) ≡ 7
  pub swap : All (λ s. 1342177280 ≤ amount s.swap_free_bytes) samples
  pub root : All (λ s. 5368709120 ≤ amount s.root_free_bytes) samples
  pub docker : All (λ s. 5368709120 ≤ amount s.docker_free_bytes) samples

-- Each number lies 4000 to 6000 above the one before it.
abbrev pub Steps : List ℕ → Type 0
Steps [] = Unit
Steps (left ∷ []) = Unit
Steps (left ∷ right ∷ rest) = (left + 4000 ≤ right) × (right ≤ left + 6000) × Steps (right ∷ rest)

-- The metric is a natural number.
abbrev pub IsNatural : Metric → Type 0
IsNatural m = (n : ℕ) × (m ≡ natural n)

-- All five metrics of a sample are.
abbrev pub IsMeasured : ResourceSample → Type 0
IsMeasured s =
    IsNatural s.elapsed_ms
    × IsNatural s.mem_available_bytes
    × IsNatural s.swap_free_bytes
    × IsNatural s.root_free_bytes
    × IsNatural s.docker_free_bytes

any_bad_interval-Steps : (ticks : List ℕ) → (any_bad_interval ticks ≡ false) ↔ Steps ticks
unfolding any_bad_interval
any_bad_interval-Steps [] = (λ h. tt, λ h. refl)
any_bad_interval-Steps (left ∷ []) = (λ h. tt, λ h. refl)
any_bad_interval-Steps (left ∷ right ∷ rest) =
    let (f, g) = any_bad_interval-Steps (right ∷ rest) in
    (
      λ h. (ground arith, ground arith, f (ground arith)),
      λ (low, high, later). let none_later = g later in ground arith,
    )

well_formed-IsNatural : (m : Metric) → (well_formed m ≡ true) ↔ IsNatural m
unfolding well_formed
well_formed-IsNatural (natural n) = (λ h. (n, refl), λ h. refl)
well_formed-IsNatural (negative n) = (λ h. absurd (cc), λ h. absurd (cc (h.1)))
well_formed-IsNatural not_int = (λ h. absurd (cc), λ h. absurd (cc (h.1)))

metrics-IsMeasured :
    (samples : List ResourceSample)
    → ((all_of (λ s. well_formed s.elapsed_ms) samples ≡ true)
        × (all_of well_formed (sample_metrics samples) ≡ true))
      ↔ All IsMeasured samples
unfolding all_of sample_metrics
metrics-IsMeasured [] = (λ h. tt, λ h. (refl, refl))
metrics-IsMeasured (s ∷ ss) =
    let (f, g) = metrics-IsMeasured ss in
    let t = well_formed-IsNatural s.elapsed_ms in
    let m = well_formed-IsNatural s.mem_available_bytes in
    let w = well_formed-IsNatural s.swap_free_bytes in
    let r = well_formed-IsNatural s.root_free_bytes in
    let d = well_formed-IsNatural s.docker_free_bytes in
    (
      λ (times, metrics). (
        (
          t.0 (ground arith),
          m.0 (ground arith),
          w.0 (ground arith),
          r.0 (ground arith),
          d.0 (ground arith),
        ),
        f (ground arith, ground arith),
      ),
      λ ((t', m', w', r', d'), later).
          let (l1, l2) = g later in rw (t.1 t', m.1 m', w.1 w', r.1 r', d.1 d') (l1, l2),
    )

-- Seven well-formed samples, taken at once and then every 4 to 6 seconds over 28 to 32 seconds.
pub record GoodCadence (samples : List ResourceSample) : Type 0 where
  pub count : length samples ≡ 7
  pub measured : All IsMeasured samples
  pub immediate : at (elapsed_of samples) 0 ≤ 1000
  pub intervals : Steps (elapsed_of samples)
  pub span : (28000 ≤ last (elapsed_of samples)) × (last (elapsed_of samples) ≤ 32000)

length-memory_of : (samples : List ResourceSample) → length (memory_of samples) ≡ length samples
length-memory_of [] = refl
length-memory_of (s ∷ ss) = omega (arith, length-memory_of ss)

module _ (field : ResourceSample → Metric) (limit : ℕ) where
  below-All :
      (ss : List ResourceSample)
      → below field limit ss ≡ false
      → All (λ s. limit ≤ amount (field s)) ss
  unfolding below any_of
  below-All [] h = tt
  below-All (s ∷ ss) h = (ground arith, below-All ss (ground arith))

  All-below :
      (ss : List ResourceSample)
      → All (λ s. limit ≤ amount (field s)) ss
      → below field limit ss ≡ false
  unfolding below any_of
  All-below [] h = refl
  All-below (s ∷ ss) h = ground (arith, All-below ss h.1)

abbrev sorted_memory : List ResourceSample → List ℕ
sorted_memory samples = sort (memory_of samples)

module _ (samples : List ResourceSample) (seven : length samples ≡ 7) where
  rank_seven :
      (limit i : ℕ)
      → i < 7
      → (limit ≤ at (sorted_memory samples) i) ↔ (7 ≤ i + reaching limit (memory_of samples))
  rank_seven limit i small =
      let seven_of : length (memory_of samples) ≡ 7 =
        omega (arith, seven, length-memory_of samples) in
      rw (← seven_of) (rank_iff limit i (memory_of samples) (omega (arith, seven_of)))

  reaching_le_seven : (limit : ℕ) → reaching limit (memory_of samples) ≤ 7
  reaching_le_seven limit =
      omega (arith, seven, length-memory_of samples, reaching-le-length limit (memory_of samples))

-- The tests of `evaluate_levels`.
record LevelTests (samples : List ResourceSample) : Type 0 where
  median : 1073741824 ≤ at (sorted_memory samples) 3
  minimum : 1006632960 ≤ at (sorted_memory samples) 0
  swap : below (λ s. s.swap_free_bytes) 1342177280 samples ≡ false
  root : below (λ s. s.root_free_bytes) 5368709120 samples ≡ false
  docker : below (λ s. s.docker_free_bytes) 5368709120 samples ≡ false

levels_tested :
    (samples : List ResourceSample) → (evaluate_levels samples).passed ≡ true → LevelTests samples
unfolding evaluate_levels
levels_tested samples h = ground arith

tested_levels :
    (samples : List ResourceSample) → LevelTests samples → (evaluate_levels samples).passed ≡ true
unfolding evaluate_levels
tested_levels samples t = ground arith

enough_of_tests :
    (samples : List ResourceSample)
    → length samples ≡ 7
    → LevelTests samples
    → EnoughResources samples
enough_of_tests samples seven t = record {
  median = omega (arith, (rank_seven samples seven 1073741824 3 (omega arith)).0 t.median);
  memory = omega (
    arith,
    (rank_seven samples seven 1006632960 0 (omega arith)).0 t.minimum,
    reaching_le_seven samples seven 1006632960,
  );
  swap = below-All (λ s. s.swap_free_bytes) 1342177280 samples t.swap;
  root = below-All (λ s. s.root_free_bytes) 5368709120 samples t.root;
  docker = below-All (λ s. s.docker_free_bytes) 5368709120 samples t.docker;
}

tests_of_enough :
    (samples : List ResourceSample)
    → length samples ≡ 7
    → EnoughResources samples
    → LevelTests samples
tests_of_enough samples seven e = record {
  median = (rank_seven samples seven 1073741824 3 (omega arith)).1 (omega (arith, e.median));
  minimum = (rank_seven samples seven 1006632960 0 (omega arith)).1 (omega (arith, e.memory));
  swap = All-below (λ s. s.swap_free_bytes) 1342177280 samples e.swap;
  root = All-below (λ s. s.root_free_bytes) 5368709120 samples e.root;
  docker = All-below (λ s. s.docker_free_bytes) 5368709120 samples e.docker;
}

cadence_tested :
    (samples : List ResourceSample)
    → (evaluate_resource_window samples).passed ≡ true
    → GoodCadence samples × ((evaluate_levels samples).passed ≡ true)
unfolding evaluate_resource_window
cadence_tested samples h =
    let (f, _) = any_bad_interval-Steps (elapsed_of samples) in
    let (m, _) = metrics-IsMeasured samples in
    (
      record {
        count = ground arith;
        measured = m (ground arith, ground arith);
        immediate = ground arith;
        intervals = f (ground arith);
        span = ground arith;
      },
      ground arith,
    )

tested_cadence :
    (samples : List ResourceSample)
    → GoodCadence samples
    → evaluate_resource_window samples ≡ evaluate_levels samples
unfolding evaluate_resource_window
tested_cadence samples c =
    let steps = (any_bad_interval-Steps (elapsed_of samples)).1 c.intervals in
    let (times, metrics) = (metrics-IsMeasured samples).1 c.measured in
    let count = c.count in let immediate = c.immediate in let (low, high) = c.span in ground arith

-- The window passes exactly when its cadence is good and its levels are enough: seven samples, each of
-- natural numbers, the first within a second, each 4 to 6 seconds behind the one before, and the last at
-- 28 to 32 seconds; the median that the code reads off a sorted list says that four of the seven samples reach 1 GiB, and the
-- minimum that all of them reach 960 MiB.
pub evaluate_resource_window_iff :
    (samples : List ResourceSample)
    → ((evaluate_resource_window samples).passed ≡ true)
      ↔ (GoodCadence samples × EnoughResources samples)
evaluate_resource_window_iff samples = (
  λ h.
      let (c, l) = cadence_tested samples h in
      (c, enough_of_tests samples c.count (levels_tested samples l)),
  λ h.
      rw (tested_cadence samples h.0)
        (tested_levels samples (tests_of_enough samples h.0.count h.1)),
)
