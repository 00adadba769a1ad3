-- ===== src/Feishu/Delivery/Laws.antt =====
-- Laws of `deliver_with_retry`, app/services/feishu_delivery.py.
use maoxx_os.Prelude.{
  ℕ, zero, suc, ◌+◌, ◌-◌, ◌*◌, ◌^◌, ◌≤◌, ◌<◌, ◌≡◌, ◌≢◌, String, ◌⊎◌, refl, sym, Bool, true, false,
  Option, some, none, ok, elem, nat_eq, ltb, arith, Bool-cases, inl, inr, Time, ◌==◌, ==→≡, ≡→==,
  subst,
}
use native.Mathlib.Nat.{pow-succ'}
use maoxx_os.Feishu.Delivery.{
  Sending, transport, broken, success, refused, DeliveryResult, transient_response_codes,
  undelivered, ends, again, judge, pause, deliver_from, deliver_with_retry,
}

-- The two codes of a rate limit.
abbrev pub IsLimit : ℕ → Type 0
IsLimit code = (code ≡ 99991400) ⊎ (code ≡ 99991663)

elem-IsLimit : (code : ℕ) → elem code transient_response_codes ≡ true → IsLimit code
unfolding elem
elem-IsLimit code h = elim (Bool-cases (code == 99991400)) [
  | inl first ↦ inl (==→≡ code 99991400 first)
  | inr other ↦ inr (==→≡ code 99991663 (ground arith))
]

no_limit : (code : ℕ) → elem code transient_response_codes ≡ false → IsLimit code → ⊥
unfolding elem
no_limit code h (inl first) = let equal = ≡→== code 99991400 first in ground arith
no_limit code h (inr second) = let equal = ≡→== code 99991663 second in ground arith

-- What is worth another attempt.
abbrev pub IsTransient : Sending → Type 0
IsTransient s = (s ≡ transport) ⊎ ((code : ℕ) × (s ≡ refused code) × IsLimit code)

-- What a result says of the call that it ends with: whether it was sent, by which message, and why not.
abbrev pub Tells : DeliveryResult → Sending → Type 0
Tells r transport =
    (r.sent ≡ false) × (r.message_id ≡ none) × (r.failure_reason ≡ some "transport_error")
Tells r broken = ⊥
Tells r (success m) = (r.sent ≡ true) × (r.message_id ≡ m) × (r.failure_reason ≡ none)
Tells r (refused code) =
    (r.sent ≡ false)
    × (r.message_id ≡ none)
    × (IsLimit code → r.failure_reason ≡ some "rate_limited")
    × ((IsLimit code → ⊥) → r.failure_reason ≡ some "permanent_error")

-- The loop ends with a call that is worth another attempt only where it is the last one.
abbrev pub EndsAt : ℕ → ℕ → Sending → Type 0
EndsAt attempts most s = IsTransient s → attempts ≡ most

data Judged (final : Bool) (attempt : ℕ) (s : Sending) : Type 0 where
  ended :
      (r : DeliveryResult)
      → judge final attempt s ≡ ends r
      → r.attempts ≡ attempt
      → Tells r s
      → (IsTransient s → final ≡ true)
      → Judged final attempt s
  repeated : judge final attempt s ≡ again → IsTransient s → Judged final attempt s

not_transient : (m : Option String) → IsTransient (success m) → ⊥
not_transient m (inl h) = cc
not_transient m (inr (code, h, _)) = cc

permanent_lem : (code : ℕ) → (IsLimit code → ⊥) → IsTransient (refused code) → ⊥
permanent_lem code h (inl t) = cc
permanent_lem code h (inr (other, same, listed)) =
    let same_code : code ≡ other = cc in h (rw same_code listed)

judged : (final : Bool) (attempt : ℕ) (s : Sending) → s ≢ broken → Judged final attempt s
unfolding judge
judged true attempt transport h =
    ended (undelivered attempt "transport_error") refl refl (refl, refl, refl) (λ _. refl)
judged false attempt transport h = repeated refl (inl refl)
judged final attempt broken h = absurd (h refl)
judged final attempt (success m) h =
    ended _ refl refl (refl, refl, refl) (λ t. absurd (not_transient m t))
judged final attempt (refused code) h = elim (Bool-cases (elem code transient_response_codes)) [
  | inr permanent ↦
      ended (undelivered attempt "permanent_error") (ground arith) refl
        (refl, refl, λ l. absurd (no_limit code permanent l), λ _. refl)
        (λ t. absurd (permanent_lem code (no_limit code permanent) t))
  | inl limited ↦ elim (Bool-cases final) [
    | inl last ↦
        ended (undelivered attempt "rate_limited") (ground arith) refl
          (refl, refl, λ _. refl, λ n. absurd (n (elem-IsLimit code limited))) (λ _. last)
    | inr more ↦ repeated (ground arith) (inr (code, refl, elem-IsLimit code limited))
  ]
]

never_again : (attempt : ℕ) (s : Sending) → judge true attempt s ≢ again
unfolding judge
never_again attempt transport h = cc
never_again attempt broken h = cc
never_again attempt (success m) h = cc
never_again attempt (refused code) h = ground arith

before : (n : ℕ) → suc n - 1 ≡ n
before n = omega arith

module _ (send_once : ℕ → Sending) (backoff : ℕ) (jitter : ℕ → ℕ) where
  -- The result of the attempts from `suc n` on, of which `left` more may follow.
  pub record Delivered (n left : ℕ) (r : DeliveryResult) (slept : Time) : Type 0 where
    pub from : suc n ≤ r.attempts
    pub most : r.attempts ≤ suc n + left
    pub tells : Tells r (send_once r.attempts)
    pub ends_at : EndsAt r.attempts (suc n + left) (send_once r.attempts)
    pub transient_before : (i : ℕ) → suc n ≤ i → i < r.attempts → IsTransient (send_once i)
    pub slept_most : slept + 2 * (backoff * 2 ^ n) ≤ 2 * (backoff * 2 ^ (r.attempts - 1))

  module _ (sends : (i : ℕ) → send_once i ≢ broken)
      (drawn : (i : ℕ) → jitter i ≤ backoff * 2 ^ (i - 1)) where
    abbrev Outcome : ℕ → ℕ → Type 0
    Outcome n left =
        (r : DeliveryResult) × (slept : Time) × (deliver_from send_once backoff jitter left (suc n)
          ≡ ok (r, slept))
        × Delivered n left r slept

    at_end :
        (n left : ℕ) (r : DeliveryResult)
        → r.attempts ≡ suc n
        → Tells r (send_once (suc n))
        → (IsTransient (send_once (suc n)) → left ≡ 0)
        → Delivered n left r 0
    at_end n left r at tells last = record {
      from = omega (arith, at);
      most = omega (arith, at);
      tells = rw at tells;
      ends_at =
          let last_at : IsTransient (send_once r.attempts) → left ≡ 0 = rw at last in
          λ t. omega (arith, at, last_at t);
      transient_before = λ i low high. absurd (omega (arith, at, low, high));
      slept_most = rw (at, before n) (omega arith);
    }

    doubles : (n : ℕ) → backoff * 2 ^ suc n ≡ 2 * (backoff * 2 ^ n)
    doubles n = rw (pow-succ' 2 n) (omega arith)

    once_more :
        (n left : ℕ) (r : DeliveryResult) (slept : Time)
        → IsTransient (send_once (suc n))
        → Delivered (suc n) left r slept
        → Delivered n (suc left) r (pause backoff jitter (suc n) + slept)
    once_more n left r slept again_at d = record {
      from = omega (arith, d.from);
      most = omega (arith, d.most);
      tells = d.tells;
      ends_at = λ t. omega (arith, d.ends_at t);
      transient_before = λ i low high. elim (Bool-cases (i == suc n)) [
        | inl here ↦ subst (λ j. IsTransient (send_once j)) (sym (==→≡ i (suc n) here)) again_at
        | inr later ↦ d.transient_before i (ground arith) high
      ];
      slept_most =
          let j : jitter (suc n) ≤ backoff * 2 ^ n =
            subst (λ k. jitter (suc n) ≤ backoff * 2 ^ k) (before n) (drawn (suc n)) in
          rw (before n) (omega (arith, j, doubles n, d.slept_most));
    }

    delivers : (left n : ℕ) → Outcome n left
    unfolding deliver_from
    delivers zero n = elim (judged true (suc n) (send_once (suc n)) (sends (suc n))) [
      | ended r e at tells _ ↦ (r, 0, rw e refl, at_end n 0 r at tells (λ _. refl))
      | repeated e _ ↦ absurd (never_again (suc n) (send_once (suc n)) e)
    ]
    delivers (suc left) n = elim (judged false (suc n) (send_once (suc n)) (sends (suc n))) [
      | ended r e at tells last ↦
          (r, 0, rw e refl, at_end n (suc left) r at tells (λ t. absurd (let early = last t in cc)))
      | repeated e again_at ↦
          let (r, slept, later, d) = delivers left (suc n) in
          (
            r,
            pause backoff jitter (suc n) + slept,
            rw (e, later) refl,
            once_more n left r slept again_at d,
          )
    ]

    -- Where no call raises but for the transport, the loop returns after between one and the allowed
    -- number of attempts. Its result tells whether the last call sent the message, by which id, and
    -- why not; that call was not worth another attempt or was the last one allowed, each call before
    -- it was worth another attempt; and with a jitter of at most the delay it has slept for less than twice
    -- the backoff, doubled with each attempt.
    pub deliver_with_retry-Delivered :
        (max_attempts : ℕ)
        → 1 ≤ max_attempts
        → (r : DeliveryResult) × (slept : Time) × (deliver_with_retry send_once backoff jitter
              max_attempts
            ≡ ok (r, slept))
          × (1 ≤ r.attempts)
          × (r.attempts ≤ max_attempts)
          × Tells r (send_once r.attempts)
          × EndsAt r.attempts max_attempts (send_once r.attempts)
          × ((i : ℕ) → 1 ≤ i → i < r.attempts → IsTransient (send_once i))
          × (slept + 2 * backoff ≤ 2 * (backoff * 2 ^ (r.attempts - 1)))
    unfolding deliver_with_retry
    deliver_with_retry-Delivered max_attempts some_allowed =
        let (r, slept, h, d) = delivers (max_attempts - 1) 0 in
        let allowed : ltb max_attempts 1 ≡ false = ground arith in
        (
          r,
          slept,
          rw allowed h,
          d.from,
          omega (arith, d.most),
          d.tells,
          λ t. omega (arith, some_allowed, d.ends_at t),
          d.transient_before,
          omega (arith, d.slept_most),
        )
