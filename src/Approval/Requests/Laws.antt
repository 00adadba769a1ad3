-- ===== src/Approval/Requests/Laws.antt =====
-- Laws of `create_approval_request`, app/services/approval_service.py.
use maoxx_os.Prelude.{
  ◌≡◌, refl, Bool, true, false, Option, none, some, List, [], ◌∷◌, ◌++◌, Result, ok, arith, find,
  nat_eq, string_eq, option_eq, ==_refl, Uuid, Time, Bool-cases, inl, inr, ◌>>=◌, bind-ok, ◌⊎◌, ◌≢◌,
  All, !=_false→≡,
}
use maoxx_os.Tables.{Db, ApprovalRequest}
use maoxx_os.Approval.Fields.{ApprovalFields, validate_approval_request_fields}
use maoxx_os.Approval.Requests.{
  request_of_key, differs, require_matching, new_request, request_conflicts, commit_request,
  create_approval_request, reuse_or_create,
}

-- No two rows share an id or a key.
abbrev pub IsUnique : List ApprovalRequest → Type 0
IsUnique [] = Unit
IsUnique (r ∷ rs) =
    All (λ q. (q.id ≢ r.id) × (q.idempotency_key ≢ r.idempotency_key)) rs × IsUnique rs

-- The row has the fields that are asked for.
pub record Matches (f : ApprovalFields) (r : ApprovalRequest) : Type 0 where
  pub user_id : r.user_id ≡ f.user_id
  pub action_code : r.action_code ≡ f.action_code
  pub repository : r.repository ≡ f.repository
  pub pull_request_number : r.pull_request_number ≡ f.pull_request_number
  pub target_sha : r.target_sha ≡ f.target_sha
  pub target_environment : r.target_environment ≡ f.target_environment

differs-Matches : (f : ApprovalFields) (r : ApprovalRequest) → differs f r ≡ false → Matches f r
unfolding differs
differs-Matches f r h = record {
  user_id = !=_false→≡ r.user_id f.user_id (ground arith);
  action_code = !=_false→≡ r.action_code f.action_code (ground arith);
  repository = !=_false→≡ r.repository f.repository (ground arith);
  pull_request_number = !=_false→≡ r.pull_request_number f.pull_request_number (ground arith);
  target_sha = !=_false→≡ r.target_sha f.target_sha (ground arith);
  target_environment = !=_false→≡ r.target_environment f.target_environment (ground arith);
}

-- The row that the call stands for: it is the table's row of the key, and the code's test finds no
-- difference.
record Created (f : ApprovalFields) (r : ApprovalRequest) (rows : List ApprovalRequest)
    : Type 0 where
  stored : request_of_key f.idempotency_key rows ≡ some r
  same : differs f r ≡ false

matching :
    (f : ApprovalFields) (q r : ApprovalRequest)
    → require_matching f q ≡ ok r
    → (q ≡ r) × (differs f r ≡ false)
unfolding require_matching
matching f q r h = elim (Bool-cases (differs f q)) [
  | inl no_match ↦ absurd (ground arith)
  | inr fine ↦ let e : q ≡ r = ground arith in (e, rw e at fine)
]

new_same : (f : ApprovalFields) (now : Time) (id : Uuid) → differs f (new_request f now id) ≡ false
unfolding differs
new_same f now id = rw (
  ==_refl f.user_id,
  ==_refl f.action_code,
  ==_refl f.repository,
  ==_refl f.pull_request_number,
  ==_refl f.target_sha,
  ==_refl f.target_environment,
)

new_stored :
    (f : ApprovalFields) (now : Time) (id : Uuid) (rows : List ApprovalRequest)
    → request_of_key f.idempotency_key (new_request f now id ∷ rows) ≡ some (new_request f now id)
unfolding request_of_key find
new_stored f now id rows = rw (==_refl f.idempotency_key)

-- The two ways in which a commit returns.
abbrev Inserted :
    ApprovalFields
    → Time
    → Uuid
    → List ApprovalRequest
    → ApprovalRequest
    → List ApprovalRequest
    → Type 0
Inserted f now id rows r rows' =
    (request_conflicts (new_request f now id) rows ≡ false)
    × (r ≡ new_request f now id)
    × (rows' ≡ new_request f now id ∷ rows)

abbrev Found :
    ApprovalFields → List ApprovalRequest → ApprovalRequest → List ApprovalRequest → Type 0
Found f rows r rows' =
    (request_of_key f.idempotency_key rows ≡ some r) × (differs f r ≡ false) × (rows' ≡ rows)

returned :
    {S : Type 0} (f : ApprovalFields) (q : ApprovalRequest) (state : S) (r : ApprovalRequest)
    (state' : S)
    → ◌>>=◌ {B = ApprovalRequest × S} (require_matching f q) (λ r. ok (r, state)) ≡ ok (r, state')
    → (q ≡ r) × (differs f q ≡ false) × (state' ≡ state)
unfolding require_matching
returned f q state r state' h = ground arith

commit_cases :
    (f : ApprovalFields) (now : Time) (id : Uuid) (rows : List ApprovalRequest)
    (r : ApprovalRequest) (rows' : List ApprovalRequest) (c : Bool) (o : Option ApprovalRequest)
    → request_conflicts (new_request f now id) rows ≡ c
    → request_of_key f.idempotency_key rows ≡ o
    → commit_request f (new_request f now id) rows c o ≡ ok (r, rows')
    → Inserted f now id rows r rows' ⊎ Found f rows r rows'
unfolding commit_request
commit_cases f now id rows r rows' false o fresh query h = inl (fresh, ground arith, ground arith)
commit_cases f now id rows r rows' true none clash query h = absurd (cc)
commit_cases f now id rows r rows' true (some q) clash query h =
    let (same, fine, all) = returned f q rows r rows' h in
    inr (rw (← same) query, rw same at fine, all)

commit-Created :
    (f : ApprovalFields) (now : Time) (id : Uuid) (rows : List ApprovalRequest)
    (r : ApprovalRequest) (rows' : List ApprovalRequest)
    → Inserted f now id rows r rows' ⊎ Found f rows r rows'
    → Created f r rows'
commit-Created f now id rows r rows' (inl (_, same, all)) =
    rw (same, all) (record { stored = new_stored f now id rows; same = new_same f now id })
commit-Created f now id rows r rows' (inr (stored, fine, all)) =
    rw all (record { stored = stored; same = fine })

-- What a call of `create_approval_request` that returned has done: it read the row of its key, or
-- it committed.
abbrev Done :
    ApprovalFields → Time → Uuid → List ApprovalRequest → Db → ApprovalRequest → Db → Type 0
Done f now id raced db r db' =
    (Found f db.approval_requests r db.approval_requests × (db' ≡ db))
    ⊎ ((rows : List ApprovalRequest) × (Inserted f now id (raced ++ db.approval_requests) r rows
          ⊎ Found f (raced ++ db.approval_requests) r rows)
        × (db' ≡ record db { approval_requests = rows }))

reuse_cases :
    (f : ApprovalFields) (now : Time) (id : Uuid) (raced : List ApprovalRequest) (db : Db)
    (r : ApprovalRequest) (db' : Db) (o : Option ApprovalRequest)
    → request_of_key f.idempotency_key db.approval_requests ≡ o
    → reuse_or_create f now id raced db o ≡ ok (r, db')
    → Done f now id raced db r db'
unfolding reuse_or_create
reuse_cases f now id raced db r db' (some q) query h =
    let (same, fine, all) = returned f q db r db' h in
    inl ((rw (← same) query, rw same at fine, refl), all)
reuse_cases f now id raced db r db' none query h =
    let request = new_request f now id in
    let rows = raced ++ db.approval_requests in
    let k : ApprovalRequest × List ApprovalRequest → Result (ApprovalRequest × Db) =
      λ p. ok (p.0, record db { approval_requests = p.1 }) in
    let (made, committed, e) =
      bind-ok
        (commit_request f request rows (request_conflicts request rows)
          (request_of_key f.idempotency_key rows))
        k h in
    let same : made.0 ≡ r = ground arith in
    let whole : made ≡ (r, made.1) = ground arith in
    inr (
      made.1,
      commit_cases f now id rows r made.1 (request_conflicts request rows)
          (request_of_key f.idempotency_key rows) refl refl (rw whole at committed),
      ground arith,
    )

create_cases :
    (f : ApprovalFields) (now : Time) (id : Uuid) (raced : List ApprovalRequest) (db : Db)
    (r : ApprovalRequest) (db' : Db)
    → create_approval_request f now id raced db ≡ ok (r, db')
    → (validate_approval_request_fields f ≡ ok tt) × Done f now id raced db r db'
unfolding create_approval_request
create_cases f now id raced db r db' h =
    let query = request_of_key f.idempotency_key db.approval_requests in
    let (_, passes, h₁) =
      bind-ok (validate_approval_request_fields f)
        (λ (u : Unit {0}). reuse_or_create f now id raced db query) h in
    (passes, reuse_cases f now id raced db r db' query refl h₁)

Done-Created :
    (f : ApprovalFields) (now : Time) (id : Uuid) (raced : List ApprovalRequest) (db : Db)
    (r : ApprovalRequest) (db' : Db)
    → Done f now id raced db r db'
    → Created f r db'.approval_requests
Done-Created f now id raced db r db' (inl ((stored, fine, _), same)) =
    rw same (record { stored = stored; same = fine })
Done-Created f now id raced db r db' (inr (rows, c, same)) =
    rw same (commit-Created f now id (raced ++ db.approval_requests) r rows c)

again :
    (f : ApprovalFields) (now : Time) (id : Uuid) (raced : List ApprovalRequest) (db : Db)
    (r : ApprovalRequest)
    → validate_approval_request_fields f ≡ ok tt
    → Created f r db.approval_requests
    → create_approval_request f now id raced db ≡ ok (r, db)
unfolding create_approval_request reuse_or_create require_matching
again f now id raced db r passes c = rw passes (rw c.stored (rw c.same))

-- Creating a request is idempotent: a call that returns has left in the table, under its key, a row
-- with the user, action, repository, pull request, commit and environment that were asked for, and the
-- same call at any later time, with whatever others commit, returns that row and changes nothing. When
-- the row expires is not compared.
pub create_approval_request_idem :
    (f : ApprovalFields) (now : Time) (id : Uuid) (raced : List ApprovalRequest) (db : Db)
    (r : ApprovalRequest) (db' : Db)
    → create_approval_request f now id raced db ≡ ok (r, db')
    → (request_of_key f.idempotency_key db'.approval_requests ≡ some r)
      × Matches f r
      × ((later : Time) (other_id : Uuid) (others : List ApprovalRequest)
          → create_approval_request f later other_id others db' ≡ ok (r, db'))
create_approval_request_idem f now id raced db r db' h =
    let (passes, done) = create_cases f now id raced db r db' h in
    let c = Done-Created f now id raced db r db' done in
    (
      c.stored,
      differs-Matches f r c.same,
      λ later other_id others. again f later other_id others db' r passes c,
    )
