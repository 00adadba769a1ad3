-- ===== src/Supervisor/Quiet.antt =====
-- Which calls of app/services/production_supervisor.py leave Docker alone: they add lines to the journal
-- and rows to the table of evidence, and nothing else.
use maoxx_os.Prelude.{
  ℕ, zero, suc, ◌≡◌, refl, ap, Bool, true, false, List, [], ◌∷◌, ◌++◌, Result, ok, err, Error,
  nat_eq, string_eq, ==_refl, uuid_text, bind-ok, arith, any_of, Bool-cases, inl, inr, Uuid, Time,
  Payload, Dict, String, subst, length, supervisor_error, raise_if, ◌>>◌ as ◌>>>◌, not,
}
use maoxx_os.Tables.{Db, DeploymentEvidence}
use maoxx_os.Supervisor.Attempt.{RuntimeState, SupervisorAttempt}
use maoxx_os.Supervisor.Journal.{
  JournalEvent, JournalLine, JournalRecord, row, unreadable, journal_record,
}
use maoxx_os.Supervisor.Run.{
  World, Outcome, stopped, raised, returned, Run, continue, handle, ◌>>=◌, ◌>>◌, try_run, lift,
  Clock, append, append_left, cut_short, Commit, failed, done, unanswered, transact, transact_left,
  committed,
}
use maoxx_os.Supervisor.Evidence.{
  is_marker, is_marked, insert_evidence, record_runtime_result, record_mutation_submitted,
  mutation_submitted, marker_row, record_resource, resource_row,
}
use maoxx_os.Supervisor.Resources.{TrustedResourceResult, require_fresh}
use maoxx_os.Deployment.Evidence.{evidence_of_key}
use maoxx_os.Approval.Fields.{is_none}

-- The markers of the first database stand in the second.
abbrev pub MarkersKept : Db → Db → Type 0
MarkersKept before after =
    (deployment_id attempt_id : Uuid)
    → is_marked deployment_id attempt_id before ≡ true
    → is_marked deployment_id attempt_id after ≡ true

pub record Grows (before after : World) : Type 0 where
  pub same_mutations : after.mutations ≡ before.mutations
  pub markers : MarkersKept before.db after.db
  pub added : List JournalLine
  pub journal_added : after.journal ≡ added ++ before.journal

pub Grows-refl : (w : World) → Grows w w
Grows-refl w = record {
  same_mutations = refl;
  markers = λ d i h. h;
  added = [];
  journal_added = refl;
}

++-assoc : (a b c : List JournalLine) → a ++ (b ++ c) ≡ (a ++ b) ++ c
++-assoc [] b c = refl
++-assoc (x ∷ a) b c = ap (λ l. x ∷ l) (++-assoc a b c)

pub Grows-trans : (u v w : World) → Grows u v → Grows v w → Grows u w
Grows-trans u v w g h = record {
  same_mutations = rw (h.same_mutations) (g.same_mutations);
  markers = λ d i m. h.markers d i (g.markers d i m);
  added = h.added ++ g.added;
  journal_added = rw (h.journal_added, g.journal_added) (++-assoc h.added g.added u.journal);
}

abbrev pub Quiet : {A : Type 0} → Run A → Type 0
Quiet m = (w : World) → Grows w (m w).1

continue-Grows :
    {A B : Type 0} (f : A → Run B)
    → ((a : A) → Quiet (f a))
    → (w : World) (p : Outcome A × World) → Grows w p.1
    → Grows w (continue f p).1
continue-Grows f q w (stopped, v) g = g
continue-Grows f q w (raised e, v) g = g
continue-Grows f q w (returned a, v) g = Grows-trans w v (f a v).1 g (q a v)

handle-Grows :
    {A B : Type 0} (f : A → Run B) (h : Error → Run B)
    → ((a : A) → Quiet (f a))
    → ((e : Error) → Quiet (h e))
    → (w : World) (p : Outcome A × World) → Grows w p.1
    → Grows w (handle f h p).1
handle-Grows f h q r w (stopped, v) g = g
handle-Grows f h q r w (raised e, v) g = Grows-trans w v (h e v).1 g (r e v)
handle-Grows f h q r w (returned a, v) g = Grows-trans w v (f a v).1 g (q a v)

pub >>=-Quiet :
    {A B : Type 0} (m : Run A) (f : A → Run B) → Quiet m → ((a : A) → Quiet (f a)) → Quiet (m >>= f)
>>=-Quiet m f q r w = continue-Grows f r w (m w) (q w)

pub >>-Quiet : {B : Type 0} (m : Run (Unit {0})) (k : Run B) → Quiet m → Quiet k → Quiet (m >> k)
>>-Quiet m k q r = >>=-Quiet m (λ _. k) q (λ _. r)

pub try_run-Quiet :
    {A B : Type 0} (m : Run A) (h : Error → Run B) (f : A → Run B)
    → Quiet m
    → ((e : Error) → Quiet (h e))
    → ((a : A) → Quiet (f a))
    → Quiet (try_run m h f)
try_run-Quiet m h f q r s w = handle-Grows f h s r w (m w) (q w)

pub lift-Quiet : {A : Type 0} (r : Result A) → Quiet (lift r)
lift-Quiet (ok a) w = Grows-refl w
lift-Quiet (err e) w = Grows-refl w

cut_short-Grows :
    (w : World) (torn : Bool) → Grows w (record w { journal = cut_short torn w.journal })
cut_short-Grows w true = record {
  same_mutations = refl;
  markers = λ d i h. h;
  added = unreadable ∷ [];
  journal_added = refl;
}
cut_short-Grows w false = record {
  same_mutations = refl;
  markers = λ d i h. h;
  added = [];
  journal_added = refl;
}

append_left-Grows : (r : JournalRecord) (left : ℕ) (w : World) → Grows w (append_left r left w).1
append_left-Grows r zero w = cut_short-Grows w w.torn
append_left-Grows r (suc n) w = record {
  same_mutations = refl;
  markers = λ d i h. h;
  added = row r ∷ [];
  journal_added = refl;
}

pub append-Quiet :
    (clock : Clock) (event : JournalEvent) (a : SupervisorAttempt) (outcome : Dict String)
    → Quiet (append clock event a outcome)
unfolding append
append-Quiet clock event a outcome w =
    append_left-Grows (journal_record event a outcome (clock (length w.journal))) w.left w

with_db :
    (w : World) (db : Db) (n : ℕ) → MarkersKept w.db db → Grows w (record w { db = db; left = n })
with_db w db n kept = record {
  same_mutations = refl;
  markers = kept;
  added = [];
  journal_added = refl;
}

committed-Grows :
    (commit : Commit) (n : ℕ) (db : Db) (w : World)
    → MarkersKept w.db db
    → Grows w (committed commit n db w).1
committed-Grows failed n db w kept = with_db w w.db n (λ d i h. h)
committed-Grows done n db w kept = with_db w db n kept
committed-Grows unanswered n db w kept = with_db w db n kept

transact_left-Grows :
    (commit : Commit) (written : Result Db) (left : ℕ) (w : World)
    → ((db : Db) → written ≡ ok db → MarkersKept w.db db)
    → Grows w (transact_left commit written left w).1
transact_left-Grows commit written zero w kept = Grows-refl w
transact_left-Grows commit (err e) (suc n) w kept = with_db w w.db n (λ d i h. h)
transact_left-Grows commit (ok db) (suc n) w kept = committed-Grows commit n db w (kept db refl)

-- A write that keeps the markers.
abbrev pub Keeps : (Db → Result Db) → Type 0
Keeps write = (before after : Db) → write before ≡ ok after → MarkersKept before after

pub transact-Quiet :
    (commit : Commit) (write : Db → Result Db) → Keeps write → Quiet (transact commit write)
unfolding transact
transact-Quiet commit write kept w =
    transact_left-Grows commit (write w.db) w.left w (λ db. kept w.db db)

pub insert_evidence-Keeps : (e : DeploymentEvidence) → Keeps (insert_evidence e)
unfolding insert_evidence is_marked any_of
insert_evidence-Keeps e before after h d i marked = ground arith

pub record_runtime_result-Keeps :
    (a : SupervisorAttempt) (state : RuntimeState) (source : String) (now : Time) (id : Uuid)
    → Keeps (record_runtime_result a state source now id)
unfolding record_runtime_result
record_runtime_result-Keeps a state source now id = insert_evidence-Keeps _

pub record_mutation_submitted-Keeps :
    (a : SupervisorAttempt) (now : Time) (id : Uuid) → Keeps (record_mutation_submitted a now id)
unfolding record_mutation_submitted
record_mutation_submitted-Keeps a now id before after h =
    elim (Bool-cases (mutation_submitted a before)) [
      | inl there ↦
          let same : before ≡ after = ground arith in
          subst (λ (db : Db). MarkersKept before db) same (λ d i marked. marked)
      | inr absent ↦ insert_evidence-Keeps (marker_row a now id) before after (ground arith)
    ]

marker_row-is_marker :
    (a : SupervisorAttempt) (now : Time) (id : Uuid)
    → is_marker a.deployment_id a.execution_attempt_id (marker_row a now id) ≡ true
unfolding is_marker
marker_row-is_marker a now id =
    rw (==_refl a.deployment_id) (==_refl (uuid_text a.execution_attempt_id))

pub record_mutation_submitted-is_marked :
    (a : SupervisorAttempt) (now : Time) (id : Uuid) (before after : Db)
    → record_mutation_submitted a now id before ≡ ok after
    → is_marked a.deployment_id a.execution_attempt_id after ≡ true
unfolding record_mutation_submitted mutation_submitted insert_evidence is_marked any_of
record_mutation_submitted-is_marked a now id before after h =
    let own = marker_row-is_marker a now id in ground (arith, own)

pub record_resource-Keeps :
    (payload : TrustedResourceResult → Payload) (r : TrustedResourceResult) (now : Time) (id : Uuid)
    → Keeps (record_resource payload r now id)
unfolding record_resource
record_resource-Keeps payload r now id before after h =
    let e = resource_row r (payload r) id in
    let unused =
      raise_if (not (is_none (evidence_of_key e before.deployment_evidence)))
        (supervisor_error "resource_checkpoint_already_used") in
    let (_, _, inserted) =
      bind-ok (require_fresh r now >>> unused) (λ (_ : Unit {0}). insert_evidence e before) h in
    insert_evidence-Keeps e before after inserted
