-- ===== src/Supervisor/Polling.antt =====
-- `verify_health` of app/services/production_supervisor.py: the loop that polls. `cycle i` is what the
-- `i`th cycle gives and `took i` how long it takes; `sleep i d t` is the time at which a sleep of `d`
-- ends that begins at `t`. The loop has no bound of its own, so it is run with fuel; the sleep between
-- two polls bounds it.
use maoxx_os.Prelude.{
  ℕ, zero, suc, ◌+◌, ◌*◌, ◌≤◌, ◌≡◌, ◌⊎◌, inl, inr, refl, String, Option, none, some, Result, ok,
  err, supervisor_error, leb, string_eq, ◌!=◌, Time, seconds, if◌then◌else◌, arith, Bool-cases,
}
use maoxx_os.Supervisor.Attempt.{HealthCycle}

-- `exc.code != "health_timeout_or_runtime_unknown" or last_error is None`
unfoldable pub kept_error : String → Option String → String
kept_error code none = code
kept_error code (some last) = if code != "health_timeout_or_runtime_unknown" then code else last

-- HEALTH_POLL_SECONDS
abbrev pub health_poll_seconds : ℕ
health_poll_seconds = 5

module _ (cycle : ℕ → Result HealthCycle) (took : ℕ → Time) (sleep : ℕ → Time → Time → Time)
    (deadline : Time) where
  -- What a cycle gives that has ended at a time: the rest of the loop is `next`, at the error that is
  -- kept.
  unfoldable pub poll_step :
      (String → Option (Result HealthCycle))
      → Time
      → Option String
      → Result HealthCycle
      → Option (Result HealthCycle)
  poll_step next now last (ok c) = some (ok c)
  poll_step next now last (err (supervisor_error code)) =
      let kept = kept_error code last in
      let rest = next kept in if leb deadline now then some (err (supervisor_error kept)) else rest
  poll_step next now last (err e) = some (err e)

  unfoldable pub poll : ℕ → ℕ → Time → Option String → Option (Result HealthCycle)
  poll zero i started last = none
  poll (suc fuel) i started last =
      let now = started + took i in
      poll_step (λ kept. poll fuel (suc i) (sleep i (seconds health_poll_seconds) now) (some kept))
        now last (cycle i)

  -- `verify_health`, from a time on
  unfoldable pub verify_health : Time → ℕ → Option (Result HealthCycle)
  verify_health started fuel = poll fuel 0 started none

  step_ends :
      (next : String → Option (Result HealthCycle)) (now : Time) (last : Option String)
      (c : Result HealthCycle)
      → (deadline ≤ now) ⊎ ((kept : String) → (r : Result HealthCycle) × (next kept ≡ some r))
      → (r : Result HealthCycle) × (poll_step next now last c ≡ some r)
  unfolding poll_step
  step_ends next now last (ok c) h = (ok c, refl)
  step_ends next now last (err (supervisor_error code)) (inl late) =
      (err (supervisor_error (kept_error code last)), ground arith)
  step_ends next now last (err (supervisor_error code)) (inr more) =
      let (r, h) = more (kept_error code last) in
      elim (Bool-cases (leb deadline now)) [
        | inl late ↦ (err (supervisor_error (kept_error code last)), ground arith)
        | inr early ↦ (r, ground arith)
      ]
  step_ends next now last (err e) h = (err e, refl)

  module _
      (sleeps : (i : ℕ) (duration started : Time)
        → started + duration ≤ sleep i duration started) where
    poll_ends :
        (fuel i : ℕ) (started : Time) (last : Option String)
        → deadline ≤ started + fuel * 5000000
        → (r : Result HealthCycle) × (poll (suc fuel) i started last ≡ some r)
    unfolding poll
    poll_ends zero i started last h =
        step_ends (λ _. none) (started + took i) last (cycle i) (inl (omega (arith, h)))
    poll_ends (suc fuel) i started last h =
        let now = started + took i in
        let woken = sleep i (seconds health_poll_seconds) now in
        step_ends (λ kept. poll (suc fuel) (suc i) woken (some kept)) now last (cycle i)
          (inr (λ kept.
            poll_ends fuel (suc i) woken (some kept)
              (omega (arith, h, sleeps i (seconds health_poll_seconds) now))))

    -- A sleep lasts at least as long as is asked for. The loop asks for five seconds between two
    -- polls, so a window that ends within 120 seconds of its start is over by the 25th poll: the loop
    -- ends by then, whatever the cycles give and however long they take.
    pub verify_health_ends :
        (started : Time)
        → deadline ≤ started + 120000000
        → (r : Result HealthCycle) × (verify_health started 25 ≡ some r)
    unfolding verify_health
    verify_health_ends started h = poll_ends 24 0 started none (omega (arith, h))

  step_ok :
      (next : String → Option (Result HealthCycle)) (now : Time) (last : Option String)
      (r : Result HealthCycle) (c : HealthCycle)
      → poll_step next now last r ≡ some (ok c)
      → (r ≡ ok c) ⊎ ((kept : String) × (next kept ≡ some (ok c)))
  unfolding poll_step
  step_ok next now last (ok d) c h = inl (ground arith)
  step_ok next now last (err (supervisor_error code)) c h = inr (kept_error code last, ground arith)
  step_ok next now last (err e) c h = absurd (ground arith)

  pub poll-ok :
      (fuel i : ℕ) (started : Time) (last : Option String) (c : HealthCycle)
      → poll fuel i started last ≡ some (ok c)
      → (j : ℕ) × (cycle j ≡ ok c)
  unfolding poll
  poll-ok zero i started last c h = absurd (ground arith)
  poll-ok (suc fuel) i started last c h =
      let now = started + took i in
      let woken = sleep i (seconds health_poll_seconds) now in
      elim (step_ok (λ kept. poll fuel (suc i) woken (some kept)) now last (cycle i) c h) [
        | inl here ↦ (i, here)
        | inr (kept, later) ↦ poll-ok fuel (suc i) woken (some kept) c later
      ]
