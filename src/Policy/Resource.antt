-- ===== src/Policy/Resource.antt =====
-- `evaluate_resource_window` of app/services/deployment_policy.py.
pub mod Median
pub mod Gate
use maoxx_os.Prelude.{
  ℕ, zero, suc, ◌-◌, ◌*◌, ◌≡◌, refl, Bool, true, false, not, ◌||◌, ◌&&◌, Option, none, some, List,
  [], ◌∷◌, ◌++◌, String, all_of, any_of, length, map, ltb, leb, nat_beq, if◌then◌else◌,
}

-- A value that a caller passes for an `int`: `type(value) is not int` is the last case.
pub data Metric : Type 0 where
  natural : ℕ → Metric
  -- -(n + 1)
  negative : ℕ → Metric
  not_int : Metric

pub record ResourceSample : Type 0 where
  pub elapsed_ms : Metric
  pub mem_available_bytes : Metric
  pub swap_free_bytes : Metric
  pub root_free_bytes : Metric
  pub docker_free_bytes : Metric

pub record ResourceGateResult : Type 0 where
  pub passed : Bool
  pub reason : String
  pub median_mem_available_bytes : Option ℕ
  pub minimum_mem_available_bytes : Option ℕ

unfoldable pub well_formed : Metric → Bool
well_formed (natural n) = true
well_formed _ = false

-- The value of a metric that was found well formed.
abbrev pub amount : Metric → ℕ
amount (natural n) = n
amount _ = 0

unfoldable pub sample_metrics : List ResourceSample → List Metric
sample_metrics [] = []
sample_metrics (s ∷ ss) =
    s.mem_available_bytes
    ∷ s.swap_free_bytes
    ∷ s.root_free_bytes
    ∷ s.docker_free_bytes
    ∷ sample_metrics ss

abbrev pub elapsed_of : List ResourceSample → List ℕ
elapsed_of [] = []
elapsed_of (s ∷ ss) = amount s.elapsed_ms ∷ elapsed_of ss

abbrev pub memory_of : List ResourceSample → List ℕ
memory_of [] = []
memory_of (s ∷ ss) = amount s.mem_available_bytes ∷ memory_of ss

-- `interval < 4000 or interval > 6000`; an interval that runs backwards is negative in the source,
-- and 0 here, and fails either way
abbrev pub bad_interval : ℕ → ℕ → Bool
bad_interval left right = ltb (right - left) 4000 || ltb 6000 (right - left)

unfoldable pub any_bad_interval : List ℕ → Bool
any_bad_interval [] = false
any_bad_interval (left ∷ []) = false
any_bad_interval (left ∷ right ∷ rest) =
    let later = any_bad_interval (right ∷ rest) in if bad_interval left right then true else later

-- `sorted`
unfoldable pub insert_number : ℕ → List ℕ → List ℕ
insert_number x [] = x ∷ []
insert_number x (y ∷ ys) = let rest = insert_number x ys in if leb x y then x ∷ y ∷ ys else y ∷ rest

unfoldable pub sort : List ℕ → List ℕ
sort [] = []
sort (x ∷ xs) = insert_number x (sort xs)

-- `xs[i]`, at an index in range
abbrev pub at : List ℕ → ℕ → ℕ
at [] i = 0
at (x ∷ xs) zero = x
at (x ∷ xs) (suc i) = at xs i

abbrev pub last : List ℕ → ℕ
last [] = 0
last (x ∷ []) = x
last (x ∷ y ∷ ys) = last (y ∷ ys)

abbrev pub refused : String → ResourceGateResult
refused why = record {
  passed = false;
  reason = why;
  median_mem_available_bytes = none;
  minimum_mem_available_bytes = none;
}

abbrev pub measured : Bool → String → ℕ → ℕ → ResourceGateResult
measured p why median minimum = record {
  passed = p;
  reason = why;
  median_mem_available_bytes = some median;
  minimum_mem_available_bytes = some minimum;
}

unfoldable pub below : (ResourceSample → Metric) → ℕ → List ResourceSample → Bool
below field limit samples = any_of (λ s. ltb (amount (field s)) limit) samples

-- The part of the function behind the checks of the cadence.
unfoldable pub evaluate_levels : List ResourceSample → ResourceGateResult
evaluate_levels samples =
    let memory = sort (memory_of samples) in
    let median = at memory 3 in
    let minimum = at memory 0 in
    if ltb median 1073741824
    then measured false "median_memory" median minimum
    else if ltb minimum 1006632960
    then measured false "minimum_memory" median minimum
    else if below (λ s. s.swap_free_bytes) 1342177280 samples
    then measured false "swap" median minimum
    else if below (λ s. s.root_free_bytes) 5368709120 samples
    then measured false "root_filesystem" median minimum
    else if below (λ s. s.docker_free_bytes) 5368709120 samples
    then measured false "docker_filesystem" median minimum
    else measured true "passed" median minimum

unfoldable pub evaluate_resource_window : List ResourceSample → ResourceGateResult
evaluate_resource_window samples =
    let elapsed = elapsed_of samples in
    let levels = evaluate_levels samples in
    if not (nat_beq (length samples) 7)
    then refused "sample_count"
    else if not (
        all_of (λ s. well_formed s.elapsed_ms) samples
        && all_of well_formed (sample_metrics samples))
    then refused "malformed_metric"
    else if ltb 1000 (at elapsed 0)
    then refused "first_sample_not_immediate"
    else if any_bad_interval elapsed
    then refused "sample_interval"
    else if ltb (last elapsed) 28000 || ltb 32000 (last elapsed)
    then refused "sample_span"
    else levels
