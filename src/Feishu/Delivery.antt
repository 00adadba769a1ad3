-- ===== src/Feishu/Delivery.antt =====
-- `deliver_with_retry` of app/services/feishu_delivery.py. What the `i`th call of `send_once` gives is an
-- argument, and so is the jitter that is drawn behind it. Times are in microseconds; a backoff below 0,
-- which the function refuses, is not a number here.
pub mod Laws
use maoxx_os.Prelude.{
  ℕ, zero, suc, ◌+◌, ◌-◌, ◌*◌, ◌^◌, ◌≤◌, ◌<◌, ◌≡◌, ◌↔◌, refl, String, Bool, true, false, not, ◌||◌,
  Option, none, some, List, [], ◌∷◌, Result, ok, err, value_error, other_exception, raise_if, ◌>>◌,
  ◌>>=◌, elem, ltb, nat_eq, if◌then◌else◌, arith, Bool-cases, inl, inr, Time,
}

pub data Sending : Type 0 where
  -- TimeoutError, ConnectionError or OSError; and any other exception
  transport broken : Sending
  -- `response.success()`, with what `message_id_of` reads
  success : Option String → Sending
  -- `response.code`
  refused : ℕ → Sending

pub record DeliveryResult : Type 0 where
  pub sent : Bool
  pub attempts : ℕ
  pub failure_reason : Option String
  pub message_id : Option String

abbrev pub transient_response_codes : List ℕ
transient_response_codes = 99991400 ∷ 99991663 ∷ []

abbrev pub undelivered : ℕ → String → DeliveryResult
undelivered attempt reason = record {
  sent = false;
  attempts = attempt;
  failure_reason = some reason;
  message_id = none;
}

-- What comes of one call: the function's result, or another attempt, or the exception.
pub data Verdict : Type 0 where
  ends : DeliveryResult → Verdict
  raises again : Verdict

unfoldable pub judge : Bool → ℕ → Sending → Verdict
judge final attempt transport =
    if final then ends (undelivered attempt "transport_error") else again
judge final attempt broken = raises
judge final attempt (success message_id) =
    ends
      (record { sent = true; attempts = attempt; failure_reason = none; message_id = message_id })
judge final attempt (refused code) =
    if not (elem code transient_response_codes)
    then ends (undelivered attempt "permanent_error")
    else if final
    then ends (undelivered attempt "rate_limited")
    else again

-- `sleep(delay + (delay * random_value()))`, at the jitter that is drawn
abbrev pub pause : ℕ → (ℕ → ℕ) → ℕ → Time
pause backoff jitter attempt = backoff * 2 ^ (attempt - 1) + jitter attempt

module _ (send_once : ℕ → Sending) (backoff : ℕ) (jitter : ℕ → ℕ) where
  -- By the verdict; `rest` is what further attempts come to, and how long they sleep.
  abbrev pub go_on : ℕ → Verdict → Result (DeliveryResult × Time) → Result (DeliveryResult × Time)
  go_on attempt (ends r) rest = ok (r, 0)
  go_on attempt raises rest = err other_exception
  go_on attempt again (err e) = err e
  go_on attempt again (ok (r, slept)) = ok (r, pause backoff jitter attempt + slept)

  -- The loop from an attempt on, which `left` more may follow.
  unfoldable pub deliver_from : ℕ → ℕ → Result (DeliveryResult × Time)
  deliver_from zero attempt =
      go_on attempt (judge true attempt (send_once attempt)) (err other_exception)
  deliver_from (suc left) attempt =
      go_on attempt (judge false attempt (send_once attempt)) (deliver_from left (suc attempt))

  unfoldable pub deliver_with_retry : ℕ → Result (DeliveryResult × Time)
  deliver_with_retry max_attempts =
      raise_if (ltb max_attempts 1) (value_error "max_attempts must be at least 1")
      >> deliver_from (max_attempts - 1) 1
