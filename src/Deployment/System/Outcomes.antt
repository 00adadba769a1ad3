-- ===== src/Deployment/System/Outcomes.antt =====
-- What `create_rollback_link` of app/services/deployment_service.py reads of a log.
use maoxx_os.Prelude.{
  ◌≤◌, ◌≡◌, ◌≢◌, false, inl, inr, Bool-cases, ◌==◌, ◌!=◌, !=_false→≡, nat_eq, option_eq, Option,
  none, some, List, [], ◌∷◌, ok, arith, All, Uuid,
}
use maoxx_os.Policy.Transition.{DeploymentState, production_failed, state_eq}
use maoxx_os.Policy.Transition.Rank.{rank}
use maoxx_os.Tables.{Db, DeploymentIntent, DeploymentStateEvent, DeploymentRollback}
use maoxx_os.Deployment.Events.{newer, latest_state_event, state_of}
use maoxx_os.Deployment.Intents.{intent_of_id}
use maoxx_os.Deployment.Bindings.{link_rows, create_rollback_link}

-- What a bound on every row of a table says of the newest row.
abbrev Low : Option DeploymentStateEvent → Type 0
Low none = Unit
Low (some e) = rank e.to_state ≤ 6

newer-Low :
    (e : DeploymentStateEvent) (o : Option DeploymentStateEvent)
    → rank e.to_state ≤ 6
    → Low o
    → rank (newer e o).to_state ≤ 6
newer-Low e none low rest = low
newer-Low e (some f) low rest = ground arith

latest-Low :
    (d : Uuid) (es : List DeploymentStateEvent)
    → All (λ e. rank e.to_state ≤ 6) es
    → Low (latest_state_event d es)
unfolding latest_state_event
latest-Low d [] low = tt
latest-Low d (e ∷ es) low = elim (Bool-cases (e.deployment_id == d)) [
  | inl hit ↦ rw hit (newer-Low e (latest_state_event d es) low.0 (latest-Low d es low.1))
  | inr other ↦ rw other (latest-Low d es low.1)
]

some_injective : {s t : DeploymentState} → some s ≡ some t → s ≡ t
some_injective h = cc

Low-not_failed : (o : Option DeploymentStateEvent) → Low o → state_of o ≢ some production_failed
Low-not_failed none low h = cc
Low-not_failed (some e) low h =
    let seven : rank e.to_state ≡ 7 = rw (some_injective h) in ground arith

pub not_failed :
    (d : Uuid) (es : List DeploymentStateEvent)
    → All (λ e. rank e.to_state ≤ 6) es
    → state_of (latest_state_event d es) ≢ some production_failed
not_failed d es low = Low-not_failed (latest_state_event d es) (latest-Low d es low)

link_failed :
    (r : DeploymentRollback) (db : Db) (i : Option DeploymentIntent) (a : DeploymentRollback)
    (after : Db)
    → link_rows r db i ≡ ok (a, after)
    → (state_of (latest_state_event r.failed_deployment_id db.deployment_state_events)
        != some production_failed)
      ≡ false
unfolding link_rows
link_failed r db none a after h = absurd (cc)
link_failed r db (some i) a after h = ground arith

pub linked_failed :
    (r : DeploymentRollback) (db : Db) (a : DeploymentRollback) (after : Db)
    → create_rollback_link r db ≡ ok (a, after)
    → state_of (latest_state_event r.failed_deployment_id db.deployment_state_events)
      ≡ some production_failed
unfolding create_rollback_link
linked_failed r db a after h =
    !=_false→≡ (state_of (latest_state_event r.failed_deployment_id db.deployment_state_events))
      (some production_failed)
      (link_failed r db (intent_of_id r.deployment_id db.deployment_intents) a after h)
