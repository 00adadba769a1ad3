-- ===== src/Deployment/Events/Log.antt =====
-- The log that `_append_state_event` of app/services/deployment_service.py writes.
use maoxx_os.Prelude.{
  ℕ, ◌+◌, ◌<◌, ◌≤◌, ◌≡◌, ◌≢◌, refl, subst, inl, inr, false, Option, none, some, List, [], ◌∷◌, ok,
  arith, All, Bool-cases, ==→≡, nat_eq, ◌==◌, Uuid,
}
use maoxx_os.Policy.Transition.{require_transition}
use maoxx_os.Policy.Transition.Rank.{
  rank, require_transition_iff, require_transition_initial, ⟶-rank,
}
use maoxx_os.Tables.{DeploymentStateEvent}
use maoxx_os.Deployment.Events.{
  newer, latest_state_event, state_of, next_sequence, Transition, next_event, append_state_event,
}

-- An event that may follow the newest one before it.
pub record Follows (e : DeploymentStateEvent) (latest : Option DeploymentStateEvent) : Type 0 where
  pub numbered : e.sequence ≡ next_sequence latest
  pub from_latest : e.from_state ≡ state_of latest
  pub legal : require_transition (state_of latest) e.to_state ≡ ok tt

abbrev pub IsLog : List DeploymentStateEvent → Type 0
IsLog [] = Unit
IsLog (e ∷ es) = Follows e (latest_state_event e.deployment_id es) × IsLog es

pub append_lem :
    (t : Transition) (id : Uuid) (events after : List DeploymentStateEvent)
    → append_state_event t id events ≡ ok after
    → (after ≡ next_event t id (latest_state_event t.deployment_id events) ∷ events)
      × (require_transition (state_of (latest_state_event t.deployment_id events)) t.to_state
          ≡ ok tt)
unfolding append_state_event
append_lem t id events after h = ground arith

-- An append keeps the log.
pub append_state_event-IsLog :
    (t : Transition) (id : Uuid) (events after : List DeploymentStateEvent)
    → append_state_event t id events ≡ ok after
    → IsLog events
    → IsLog after
append_state_event-IsLog t id events after h log =
    let (written, legal) = append_lem t id events after h in
    rw written (record { numbered = refl; from_latest = refl; legal = legal }, log)

newer_first :
    (e : DeploymentStateEvent) (latest : Option DeploymentStateEvent)
    → e.sequence ≡ next_sequence latest
    → newer e latest ≡ e
newer_first e none n = refl
newer_first e (some f) n = ground arith

newest_bound :
    (d : Uuid) (e : DeploymentStateEvent) (es : List DeploymentStateEvent)
    → e.deployment_id ≡ d
    → Follows e (latest_state_event d es)
    → latest_state_event d (e ∷ es) ≡ some e
unfolding latest_state_event
newest_bound d e es same follows =
    let first = newer_first e (latest_state_event d es) follows.numbered in ground arith

skipped :
    (d : Uuid) (e : DeploymentStateEvent) (es : List DeploymentStateEvent)
    → (e.deployment_id == d) ≡ false
    → latest_state_event d (e ∷ es) ≡ latest_state_event d es
unfolding latest_state_event
skipped d e es other = rw other

irrefl : {n : ℕ} → ¬ (n < n)
irrefl h = ground arith

-- What is known of the newest event of a deployment.
abbrev Ranked : Option DeploymentStateEvent → Type 0
Ranked none = Unit
Ranked (some e) = e.sequence ≡ rank e.to_state

Follows-Ranked :
    (e : DeploymentStateEvent) (latest : Option DeploymentStateEvent)
    → Follows e latest
    → Ranked latest
    → e.sequence ≡ rank e.to_state
Follows-Ranked e none f r =
    let first = require_transition_initial e.to_state f.legal in rw first (f.numbered)
Follows-Ranked e (some l) f r =
    let step = (require_transition_iff l.to_state e.to_state).0 f.legal in
    let up = ⟶-rank step in let n = f.numbered in ground arith

latest-Ranked :
    (d : Uuid) (es : List DeploymentStateEvent) → IsLog es → Ranked (latest_state_event d es)
latest-Ranked d [] log = unfold latest_state_event in tt
latest-Ranked d (e ∷ es) log = elim (Bool-cases (e.deployment_id == d)) [
  | inl hit ↦
      let same = ==→≡ e.deployment_id d hit in
      let follows : Follows e (latest_state_event d es) =
        subst (λ i. Follows e (latest_state_event i es)) same log.0 in
      rw (newest_bound d e es same follows)
        (Follows-Ranked e (latest_state_event d es) follows (latest-Ranked d es log.1))
  | inr other ↦ rw (skipped d e es other) (latest-Ranked d es log.1)
]

-- In a log, the number of a deployment's newest event is the distance of its state from the start.
pub latest_state_event-rank :
    (d : Uuid) (es : List DeploymentStateEvent) (e : DeploymentStateEvent)
    → IsLog es
    → latest_state_event d es ≡ some e
    → e.sequence ≡ rank e.to_state
latest_state_event-rank d es e log newest = subst (λ o. Ranked o) newest (latest-Ranked d es log)

-- The events of a deployment that are older than a number, each numbered by its state.
abbrev Older : Uuid → ℕ → DeploymentStateEvent → Type 0
Older d n f = f.deployment_id ≡ d → (f.sequence < n) × (f.sequence ≡ rank f.to_state)

Older-mono :
    (d : Uuid) (m n : ℕ) (es : List DeploymentStateEvent)
    → m ≤ n
    → All (Older d m) es
    → All (Older d n) es
Older-mono d m n [] le h = tt
Older-mono d m n (f ∷ es) le h =
    (λ same. let (lt, r) = h.0 same in (ground arith, r), Older-mono d m n es le h.1)

older :
    (d : Uuid) (es : List DeploymentStateEvent)
    → IsLog es
    → All (Older d (next_sequence (latest_state_event d es))) es
older d [] log = tt
older d (e ∷ es) log = elim (Bool-cases (e.deployment_id == d)) [
  | inl hit ↦
      let same = ==→≡ e.deployment_id d hit in
      let follows : Follows e (latest_state_event d es) =
        subst (λ i. Follows e (latest_state_event i es)) same log.0 in
      let ranked = Follows-Ranked e (latest_state_event d es) follows (latest-Ranked d es log.1) in
      let number : e.sequence + 1 ≡ next_sequence (latest_state_event d (e ∷ es)) =
        rw (newest_bound d e es same follows) in
      subst (λ n. All (Older d n) (e ∷ es)) number
        (
          λ _. (ground arith, ranked),
          Older-mono d (next_sequence (latest_state_event d es)) (e.sequence + 1) es
              (let n = follows.numbered in ground arith) (older d es log.1),
        )
  | inr other ↦
      let number : next_sequence (latest_state_event d es)
          ≡ next_sequence (latest_state_event d (e ∷ es)) =
        rw (skipped d e es other) in
      subst (λ n. All (Older d n) (e ∷ es)) number (λ same. absurd (ground arith), older d es log.1)
]

apart :
    (d : Uuid) (e : DeploymentStateEvent) (es : List DeploymentStateEvent)
    → e.sequence ≡ rank e.to_state
    → All (Older d e.sequence) es
    → All
        (λ f.
          f.deployment_id ≡ d
          → (f.sequence < e.sequence)
            × (rank f.to_state < rank e.to_state)
            × (f.to_state ≢ e.to_state))
        es
apart d e [] r h = tt
apart d e (f ∷ es) r h = (
  λ same.
      let (lt, n) = h.0 same in
      let less : rank f.to_state < rank e.to_state = ground arith in
      (lt, less, λ (eq : f.to_state ≡ e.to_state). irrefl (rw eq at less)),
  apart d e es r h.1,
)

-- A deployment never returns: an event of a log has a greater number than every earlier event of its
-- deployment, and its state is strictly farther from the start, so each state is entered at most once.
pub IsLog-once :
    (e : DeploymentStateEvent) (es : List DeploymentStateEvent)
    → IsLog (e ∷ es)
    → All
        (λ f.
          f.deployment_id ≡ e.deployment_id
          → (f.sequence < e.sequence)
            × (rank f.to_state < rank e.to_state)
            × (f.to_state ≢ e.to_state))
        es
IsLog-once e es log =
    let d = e.deployment_id in
    let ranked = Follows-Ranked e (latest_state_event d es) log.0 (latest-Ranked d es log.1) in
    apart d e es ranked (rw log.0.numbered (older d es log.1))
