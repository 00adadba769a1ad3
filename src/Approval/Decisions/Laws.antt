-- ===== src/Approval/Decisions/Laws.antt =====
-- Laws of `record_approval_decision`, app/services/approval_service.py.
use maoxx_os.Prelude.{
  ◌<◌, ◌≡◌, ◌≢◌, refl, Bool, true, false, Option, none, some, List, ◌∷◌, ◌++◌, String, arith, find,
  nat_eq, string_eq, option_eq, ==_refl, Uuid, Time, Hashing, ap, ≢→==_false, ltb, leb, length,
  codes, ◌≤◌,
}
use maoxx_os.Tables.{Db, ApprovalRequest, ApprovalDecision}
use maoxx_os.Approval.Requests.{request_of_id}
use maoxx_os.Approval.Decisions.{
  ApprovalCommand, ApprovalOutcome, recorded, duplicate, outcome_of, Actor, decision_of_event,
  decision_of_request, bad_event, matching_duplicate, commit_decision, new_decision, decide_request,
  approval_identity_fingerprint, record_approval_decision,
}
use maoxx_os.Approval.Decisions.Fresh.{
  Fresh, conflicts-Fresh, MayDecide, may_decide, MayDecide-authorized, Fresh-conflicts,
  Fresh-suffix, Fresh-none, event_lem,
}

-- What a recorded decision has met, and what it has written.
pub record Recorded (r : ApprovalRequest) (d : ApprovalDecision) (a : Actor) (now : Time)
    (raced : List ApprovalDecision) (db db' : Db) : Type 0 where
  pub authorized : MayDecide r a
  pub in_time : now < r.expires_at
  pub undecided : decision_of_request d.request_id db.approval_decisions ≡ none
  pub no_clash : Fresh d (raced ++ db.approval_decisions)
  pub written : db' ≡ record db { approval_decisions = d ∷ (raced ++ db.approval_decisions) }

decide_recorded :
    (o : Option ApprovalRequest) (d : ApprovalDecision) (a : Actor) (now : Time)
    (raced : List ApprovalDecision) (db : Db)
    → (decide_request o d a now raced db).0.code ≡ recorded
    → (r : ApprovalRequest) × (o ≡ some r)
      × Recorded r d a now raced db (decide_request o d a now raced db).1
unfolding decide_request commit_decision
decide_recorded none d a now raced db h = absurd (cc)
decide_recorded (some r) d a now raced db h = (
  r,
  refl,
  record {
    authorized = may_decide r a (ground arith);
    in_time = ground arith;
    undecided = ground arith;
    no_clash = conflicts-Fresh d (raced ++ db.approval_decisions) (ground arith);
    written = ground arith;
  },
)

module _ (hashing : Hashing) where
  module _ (fails : Bool) (command : ApprovalCommand) (actor : Actor) (now : Time) (new_id : Uuid)
      (raced : List ApprovalDecision) (db : Db) where
    abbrev row : ApprovalDecision
    row =
        new_decision command actor (approval_identity_fingerprint hashing actor.actor_open_id) now
          new_id

    abbrev call : ApprovalOutcome × Db
    call = record_approval_decision hashing fails command actor now new_id raced db

    reached :
        call.0.code ≡ recorded
        → (bad_event actor.feishu_event_id ≡ false)
          × (decision_of_event actor.feishu_event_id db.approval_decisions ≡ none)
          × (call
              ≡ decide_request
                  (request_of_id command.request_id db.approval_requests)
                  row
                  actor
                  now
                  raced
                  db)
    unfolding record_approval_decision
    reached h = ground arith

    -- A decision is recorded only if the event is well formed and new, the request exists and has not
    -- expired, and, for a deployment, the actor has a mapped identity and is not the requester; no
    -- row, of those that were committed meanwhile neither, has the request, the event or the id of the
    -- new one, and what is written is then exactly the new row.
    pub record_recorded :
        (record_approval_decision hashing fails command actor now new_id raced db).0.code ≡ recorded
        → (r : ApprovalRequest) × (request_of_id command.request_id db.approval_requests ≡ some r)
          × (actor.feishu_event_id ≢ "")
          × (length (codes actor.feishu_event_id) ≤ 200)
          × Recorded r
              (new_decision command actor
                (approval_identity_fingerprint hashing actor.actor_open_id)
                now
                new_id)
              actor
              now
              raced
              db
              (record_approval_decision hashing fails command actor now new_id raced db).1
    record_recorded h =
        let (event, fresh, same) = reached h in
        let (r, found, rec) =
          decide_recorded (request_of_id command.request_id db.approval_requests) row actor now
            raced db (rw same at h) in
        let (given, short) = event_lem actor.feishu_event_id event in
        (r, found, given, short, rw same rec)

  -- What it takes for a decision to be recorded, where the database answers: an event that is well formed,
  -- a request that is there and has not expired, an actor who may decide, and no row of the request, the
  -- event or the id, of those that are committed meanwhile neither. Then it is recorded.
  pub record_approval_decision-recorded :
      (command : ApprovalCommand) (actor : Actor) (now : Time) (new_id : Uuid)
      (raced : List ApprovalDecision) (db : Db) (r : ApprovalRequest)
      → actor.feishu_event_id ≢ ""
      → length (codes actor.feishu_event_id) ≤ 200
      → request_of_id command.request_id db.approval_requests ≡ some r
      → MayDecide r actor
      → now < r.expires_at
      → Fresh
          (new_decision command actor
            (approval_identity_fingerprint hashing actor.actor_open_id)
            now
            new_id)
          (raced ++ db.approval_decisions)
      → (record_approval_decision hashing false command actor now new_id raced db).0.code ≡ recorded
  unfolding record_approval_decision decide_request commit_decision bad_event
  record_approval_decision-recorded command actor now new_id raced db r given short found may
        in_time fresh =
      let d =
        new_decision command actor (approval_identity_fingerprint hashing actor.actor_open_id) now
          new_id in
      let (no_request, no_event) =
        Fresh-none d db.approval_decisions (Fresh-suffix d raced db.approval_decisions fresh) in
      let no_clash = Fresh-conflicts d (raced ++ db.approval_decisions) fresh in
      let authorized = MayDecide-authorized r actor may in
      let named = ≢→==_false actor.feishu_event_id "" given in
      let fits : ltb 200 (length (codes actor.feishu_event_id)) ≡ false = ground arith in
      let alive : leb r.expires_at now ≡ false = ground arith in
      rw (named, fits, no_event, found, authorized, alive, no_request, no_clash) refl

  event_found :
      (d : ApprovalDecision) (ds : List ApprovalDecision)
      → decision_of_event d.feishu_event_id (d ∷ ds) ≡ some d
  unfolding decision_of_event find
  event_found d ds = rw (==_refl d.feishu_event_id)

  request_found :
      (d : ApprovalDecision) (ds : List ApprovalDecision)
      → decision_of_request d.request_id (d ∷ ds) ≡ some d
  unfolding decision_of_request find
  request_found d ds = rw (==_refl d.request_id)

  own_duplicate :
      (command : ApprovalCommand) (actor : Actor) (now : Time) (new_id : Uuid) (f : String)
      → matching_duplicate (new_decision command actor f now new_id) command actor.actor_user_id f
        ≡ true
  unfolding matching_duplicate
  own_duplicate command actor now new_id f = rw (
    ==_refl command.request_id,
    ==_refl command.decision_code,
    ==_refl actor.actor_user_id,
    ==_refl f,
  )

  answered_again :
      (d : ApprovalDecision) (command : ApprovalCommand) (actor : Actor) (later : Time) (id : Uuid)
      (others : List ApprovalDecision) (db : Db)
      → bad_event actor.feishu_event_id ≡ false
      → decision_of_event actor.feishu_event_id db.approval_decisions ≡ some d
      → matching_duplicate d command actor.actor_user_id
          (approval_identity_fingerprint hashing actor.actor_open_id)
        ≡ true
      → record_approval_decision hashing false command actor later id others db
        ≡ (outcome_of duplicate command.decision_code, db)
  unfolding record_approval_decision
  answered_again d command actor later id others db event found same = rw event (rw found (rw same))

  never_again :
      (d : ApprovalDecision) (fails : Bool) (other : ApprovalCommand) (by : Actor) (later : Time)
      (id : Uuid) (others : List ApprovalDecision) (db : Db)
      → decision_of_request other.request_id db.approval_decisions ≡ some d
      → (record_approval_decision hashing fails other by later id others db).0.code ≢ recorded
  never_again d fails other by later id others db decided h =
      let (_, _, _, _, rec) = record_recorded fails other by later id others db h in
      cc (rec.undecided)

  -- A decision that was recorded is recorded once: its event, delivered again at any later time, is
  -- answered as a duplicate with the same decision and changes nothing, and no other command for
  -- its request, whoever sends it, is ever recorded.
  pub record_final :
      (fails : Bool) (command : ApprovalCommand) (actor : Actor) (now : Time) (new_id : Uuid)
      (raced : List ApprovalDecision) (db : Db)
      → let (answer, after) =
          record_approval_decision hashing fails command actor now new_id raced db in
        answer.code ≡ recorded
        → ((later : Time) (other_id : Uuid) (others : List ApprovalDecision)
            → record_approval_decision hashing false command actor later other_id others after
              ≡ (outcome_of duplicate command.decision_code, after))
          × ((broken : Bool) (other : ApprovalCommand) (by : Actor) (later : Time) (other_id : Uuid)
                (others : List ApprovalDecision)
              → other.request_id ≡ command.request_id
              → (record_approval_decision hashing broken other by later other_id others
                  after).0.code
                ≢ recorded)
  record_final fails command actor now new_id raced db h =
      let (r, found, _, _, rec) = record_recorded fails command actor now new_id raced db h in
      let (event, _, _) = reached fails command actor now new_id raced db h in
      let d = row fails command actor now new_id raced db in
      let after = (record_approval_decision hashing fails command actor now new_id raced db).1 in
      let rows : after.approval_decisions ≡ d ∷ (raced ++ db.approval_decisions) =
        ap (λ (b : Db). b.approval_decisions) rec.written in
      (
        λ later other_id others.
            answered_again d command actor later other_id others after event
              (rw rows (event_found d (raced ++ db.approval_decisions)))
              (own_duplicate command actor now new_id
                (approval_identity_fingerprint hashing actor.actor_open_id)),
        λ broken other by later other_id others same.
            never_again d broken other by later other_id others after
              (rw (rows, same) (request_found d (raced ++ db.approval_decisions))),
      )
