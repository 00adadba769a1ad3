-- ===== src/Approval/Decisions/Fresh.antt =====
-- The tests of `record_approval_decision`, app/services/approval_service.py: which rows and which actor let a
-- decision be recorded.
use maoxx_os.Prelude.{
  ◌≡◌, ◌≢◌, refl, false, Option, none, some, List, [], ◌∷◌, ◌++◌, String, arith, find, nat_eq,
  string_eq, option_eq, Uuid, inl, inr, All, any_of, Option-cases, ◌⊎◌, ==_false→≢, ≢→==_false,
  length, codes, ◌≤◌,
}
use maoxx_os.Approval.Fields.{is_none}
use maoxx_os.Tables.{ApprovalRequest, ApprovalDecision}
use maoxx_os.Approval.Decisions.{
  Actor, decision_of_event, decision_of_request, bad_event, deployment_unauthorized,
  decision_conflicts,
}

-- No row has the id, the request or the event of a decision.
abbrev pub Fresh : ApprovalDecision → List ApprovalDecision → Type 0
Fresh d =
    All
      (λ e. (e.id ≢ d.id) × (e.request_id ≢ d.request_id) × (e.feishu_event_id ≢ d.feishu_event_id))

-- No two rows share an id, a request or an event.
abbrev pub IsUnique : List ApprovalDecision → Type 0
IsUnique [] = Unit
IsUnique (d ∷ ds) = Fresh d ds × IsUnique ds

pub conflicts-Fresh :
    (d : ApprovalDecision) (ds : List ApprovalDecision)
    → decision_conflicts d ds ≡ false
    → Fresh d ds
unfolding decision_conflicts any_of
conflicts-Fresh d [] h = tt
conflicts-Fresh d (e ∷ es) h = (
  (
    ==_false→≢ e.id d.id (ground arith),
    ==_false→≢ e.request_id d.request_id (ground arith),
    ==_false→≢ e.feishu_event_id d.feishu_event_id (ground arith),
  ),
  conflicts-Fresh d es (ground arith),
)

pub IsUnique-suffix : (xs ys : List ApprovalDecision) → IsUnique (xs ++ ys) → IsUnique ys
IsUnique-suffix [] ys h = h
IsUnique-suffix (x ∷ xs) ys h = IsUnique-suffix xs ys h.1

-- The request is for no deployment, or the actor has a mapped identity and did not ask for it.
abbrev pub MayDecide : ApprovalRequest → Actor → Type 0
MayDecide r a =
    (r.deployment_id ≡ none)
    ⊎ ((identity : Uuid) × (a.actor_external_identity_id ≡ some identity)
        × (r.user_id ≢ a.actor_user_id))

is_mapped : (o : Option Uuid) → is_none o ≡ false → (identity : Uuid) × (o ≡ some identity)
is_mapped none h = absurd (cc)
is_mapped (some identity) h = (identity, refl)

pub may_decide :
    (r : ApprovalRequest) (a : Actor) → deployment_unauthorized r a ≡ false → MayDecide r a
unfolding deployment_unauthorized
may_decide r a h = elim (Option-cases r.deployment_id) [
  | inl no_deployment ↦ inl no_deployment
  | inr (d, deployment) ↦
      let mapped = is_mapped a.actor_external_identity_id (ground arith) in
      inr (mapped.0, mapped.1, ==_false→≢ r.user_id a.actor_user_id (ground arith))
]

pub MayDecide-authorized :
    (r : ApprovalRequest) (a : Actor) → MayDecide r a → deployment_unauthorized r a ≡ false
unfolding deployment_unauthorized
MayDecide-authorized r a (inl none_for) = rw none_for refl
MayDecide-authorized r a (inr (identity, mapped, other)) =
    let differs = ≢→==_false r.user_id a.actor_user_id other in rw mapped (ground arith)

pub Fresh-conflicts :
    (d : ApprovalDecision) (ds : List ApprovalDecision)
    → Fresh d ds
    → decision_conflicts d ds ≡ false
unfolding decision_conflicts any_of
Fresh-conflicts d [] h = refl
Fresh-conflicts d (e ∷ es) ((id, request, event), later) =
    rw
      (
        ≢→==_false e.id d.id id,
        ≢→==_false e.request_id d.request_id request,
        ≢→==_false e.feishu_event_id d.feishu_event_id event,
      )
      (Fresh-conflicts d es later)

pub Fresh-suffix :
    (d : ApprovalDecision) (xs ys : List ApprovalDecision) → Fresh d (xs ++ ys) → Fresh d ys
Fresh-suffix d [] ys h = h
Fresh-suffix d (x ∷ xs) ys h = Fresh-suffix d xs ys h.1

pub Fresh-none :
    (d : ApprovalDecision) (ds : List ApprovalDecision)
    → Fresh d ds
    → (decision_of_request d.request_id ds ≡ none) × (decision_of_event d.feishu_event_id ds ≡ none)
unfolding decision_of_request decision_of_event find
Fresh-none d [] h = (refl, refl)
Fresh-none d (e ∷ es) ((_, request, event), later) =
    let (no_request, no_event) = Fresh-none d es later in
    (
      rw (≢→==_false e.request_id d.request_id request) no_request,
      rw (≢→==_false e.feishu_event_id d.feishu_event_id event) no_event,
    )

pub event_lem :
    (event_id : String)
    → bad_event event_id ≡ false
    → (event_id ≢ "") × (length (codes event_id) ≤ 200)
unfolding bad_event
event_lem event_id h = (==_false→≢ event_id "" (ground arith), ground arith)
