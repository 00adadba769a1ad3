-- ===== src/Supervisor/Resources.antt =====
-- The collector of app/services/resource_authority.py. What the host measures is an argument. The
-- monotonic clock is in microseconds.
use maoxx_os.Prelude.{
  ℕ, zero, suc, ◌-◌, String, Bool, true, false, not, ◌||◌, ◌&&◌, List, [], ◌∷◌, Result, ok, err,
  resource_error, ◌>>=◌, ◌>>◌, raise_if, length, all_of, map, ltb, leb, nat_eq, string_eq, nat_beq,
  ◌==◌, Uuid, Time, seconds, if◌then◌else◌,
}
use maoxx_os.Policy.Resource.{sort, at, last}

pub record TrustedResourceSample : Type 0 where
  pub resource_check_id : Uuid
  pub deployment_id : Uuid
  pub environment : String
  pub host_checkpoint : String
  pub checkpoint_nonce : Uuid
  pub captured_at : Time
  pub monotonic : Time
  pub mem_available_bytes : ℕ
  pub swap_free_bytes : ℕ
  pub root_free_bytes : ℕ
  pub docker_free_bytes : ℕ

pub record TrustedResourceResult : Type 0 where
  pub resource_check_id : Uuid
  pub deployment_id : Uuid
  pub checkpoint_nonce : Uuid
  pub samples : List TrustedResourceSample
  pub evaluated_at : Time
  pub passed : Bool
  pub median_mem_available_bytes : ℕ
  pub minimum_mem_available_bytes : ℕ
  pub minimum_swap_free_bytes : ℕ
  pub minimum_root_free_bytes : ℕ
  pub minimum_docker_free_bytes : ℕ

-- `samples[-1].captured_at`; a result without samples is never built
unfoldable pub last_captured : List TrustedResourceSample → Time
last_captured samples = last (map (λ s. s.captured_at) samples)

-- A difference that is negative is 0 here, and no more than the bound either way.
unfoldable pub require_fresh : TrustedResourceResult → Time → Result (Unit {0})
require_fresh r now =
    raise_if
      (not r.passed
        || ltb (seconds 15) (now - last_captured r.samples)
        || ltb (seconds 30) (now - r.evaluated_at))
      (resource_error "resource_evidence_stale_or_failed")

-- One member of the set of identities.
unfoldable pub same_checkpoint : TrustedResourceSample → TrustedResourceSample → Bool
same_checkpoint a b =
    a.resource_check_id == b.resource_check_id
    && a.deployment_id == b.deployment_id
    && a.environment == b.environment
    && a.host_checkpoint == b.host_checkpoint
    && a.checkpoint_nonce == b.checkpoint_nonce

-- `not 4 <= value <= 6`; a clock that runs backwards gives 0 here, and fails either way
abbrev pub bad_step : Time → Time → Bool
bad_step left right = ltb (right - left) (seconds 4) || ltb (seconds 6) (right - left)

unfoldable pub any_bad_step : List Time → Bool
any_bad_step [] = false
any_bad_step (left ∷ []) = false
any_bad_step (left ∷ right ∷ rest) =
    let later = any_bad_step (right ∷ rest) in if bad_step left right then true else later

unfoldable pub bad_span : List Time → Bool
bad_span ticks =
    ltb (last ticks - at ticks 0) (seconds 27) || ltb (seconds 33) (last ticks - at ticks 0)

-- `min` of the samples' field
unfoldable pub minimum : (TrustedResourceSample → ℕ) → List TrustedResourceSample → ℕ
minimum field samples = at (sort (map field samples)) 0

abbrev pub mem_median_min : ℕ
mem_median_min = 1073741824

abbrev pub mem_sample_min : ℕ
mem_sample_min = 1006632960

abbrev pub swap_sample_min : ℕ
swap_sample_min = 1342177280

abbrev pub disk_sample_min : ℕ
disk_sample_min = 5368709120

-- Of a window whose cadence was found right.
unfoldable pub measure :
    TrustedResourceSample → List TrustedResourceSample → Time → TrustedResourceResult
measure first samples now =
    let med = at (sort (map (λ s. s.mem_available_bytes) samples)) 3 in
    let min_mem = minimum (λ s. s.mem_available_bytes) samples in
    let min_swap = minimum (λ s. s.swap_free_bytes) samples in
    let min_root = minimum (λ s. s.root_free_bytes) samples in
    let min_docker = minimum (λ s. s.docker_free_bytes) samples in
    record {
      resource_check_id = first.resource_check_id;
      deployment_id = first.deployment_id;
      checkpoint_nonce = first.checkpoint_nonce;
      samples = samples;
      evaluated_at = now;
      passed =
          leb mem_median_min med
          && leb mem_sample_min min_mem
          && leb swap_sample_min min_swap
          && leb disk_sample_min min_root
          && leb disk_sample_min min_docker;
      median_mem_available_bytes = med;
      minimum_mem_available_bytes = min_mem;
      minimum_swap_free_bytes = min_swap;
      minimum_root_free_bytes = min_root;
      minimum_docker_free_bytes = min_docker;
    }

-- `_evaluate`
unfoldable pub evaluate : List TrustedResourceSample → Time → Result TrustedResourceResult
evaluate [] now = err (resource_error "resource_sample_count")
evaluate (first ∷ rest) now =
    let samples = first ∷ rest in
    let ticks = map (λ s. s.monotonic) samples in
    raise_if (not (nat_beq (length samples) 7)) (resource_error "resource_sample_count")
    >> raise_if
        (not (all_of (same_checkpoint first) samples) || any_bad_step ticks || bad_span ticks)
        (resource_error "resource_cadence_or_binding")
    >> ok (measure first samples now)

-- The loop of `collect`: the samples from the `index`th on, `left` of them.
unfoldable pub take_samples :
    (ℕ → Result TrustedResourceSample) → ℕ → ℕ → Result (List TrustedResourceSample)
take_samples sample index zero = ok []
take_samples sample index (suc left) =
    sample index >>= λ s. take_samples sample (suc index) left >>= λ rest. ok (s ∷ rest)

-- `collect`; `sample i` is what `_sample` measures the `i`th time, or why it fails.
unfoldable pub collect : (ℕ → Result TrustedResourceSample) → Time → Result TrustedResourceResult
collect sample now = take_samples sample 0 7 >>= λ samples. evaluate samples now
