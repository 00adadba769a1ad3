-- ===== src/Supervisor/Run.antt =====
-- Running the supervisor of app/services/production_supervisor.py: what its calls read and write, and
-- where a call ends. A call may die before any of its effects, which are the appends to the journal, the
-- commits to the database and the Docker mutation; `left` is how many it still lives to do.
use maoxx_os.Prelude.{
  ℕ, zero, suc, ◌+◌, String, Bool, true, false, List, ◌∷◌, length, Result, ok, err, Error,
  other_exception, Time, Dict,
}
use maoxx_os.Tables.{Db}
use maoxx_os.Supervisor.Attempt.{SupervisorAttempt}
use maoxx_os.Supervisor.Journal.{
  JournalEvent, JournalRecord, JournalLine, row, unreadable, journal_record,
}

pub record World : Type 0 where
  pub db : Db
  pub journal : List JournalLine
  -- how often `docker compose up` was called
  pub mutations : ℕ
  pub left : ℕ
  -- whether a call that dies in an append leaves a part of the line
  pub torn : Bool

pub data Outcome (A : Type 0) : Type 0 where
  -- the process died, or could not write its journal
  stopped : Outcome A
  raised : Error → Outcome A
  returned : A → Outcome A

abbrev pub Run : Type 0 → Type 0
Run A = World → Outcome A × World

abbrev pub continue : {A B : Type 0} → (A → Run B) → Outcome A × World → Outcome B × World
continue f (stopped, w) = (stopped, w)
continue f (raised e, w) = (raised e, w)
continue f (returned a, w) = f a w

infixl 5 ◌>>=◌
abbrev pub ◌>>=◌ : {A B : Type 0} → Run A → (A → Run B) → Run B
m >>= f = λ w. continue f (m w)

infixl 5 ◌>>◌
abbrev pub ◌>>◌ : {B : Type 0} → Run (Unit {0}) → Run B → Run B
m >> k = m >>= λ _. k

abbrev pub answer : {A : Type 0} → A → Run A
answer a w = (returned a, w)

abbrev pub lift : {A : Type 0} → Result A → Run A
lift (ok a) w = (returned a, w)
lift (err e) w = (raised e, w)

abbrev pub handle :
    {A B : Type 0} → (A → Run B) → (Error → Run B) → Outcome A × World → Outcome B × World
handle f h (stopped, w) = (stopped, w)
handle f h (raised e, w) = h e w
handle f h (returned a, w) = f a w

-- `try: a = m; except Exception as e: h(e); else: f(a)`
abbrev pub try_run : {A B : Type 0} → Run A → (Error → Run B) → (A → Run B) → Run B
try_run m h f = λ w. handle f h (m w)

-- `datetime.now(UTC)`, read when so many lines are written
abbrev pub Clock : Type 0
Clock = ℕ → Time

abbrev pub cut_short : Bool → List JournalLine → List JournalLine
cut_short true lines = unreadable ∷ lines
cut_short false lines = lines

abbrev pub append_left : JournalRecord → ℕ → Run (Unit {0})
append_left r zero w = (stopped, record w { journal = cut_short w.torn w.journal })
append_left r (suc n) w = (returned tt, record w { journal = row r ∷ w.journal; left = n })

-- `journal.append`
unfoldable pub append : Clock → JournalEvent → SupervisorAttempt → Dict String → Run (Unit {0})
append clock event attempt outcome w =
    append_left (journal_record event attempt outcome (clock (length w.journal))) w.left w

-- A transaction may fail, or its commit may happen and the answer be lost.
pub data Commit : Type 0 where
  failed done unanswered : Commit

abbrev pub committed : Commit → ℕ → Db → Run (Unit {0})
committed failed n db w = (raised other_exception, record w { left = n })
committed done n db w = (returned tt, record w { db = db; left = n })
committed unanswered n db w = (raised other_exception, record w { db = db; left = n })

abbrev pub transact_left : Commit → Result Db → ℕ → Run (Unit {0})
transact_left commit written zero w = (stopped, w)
transact_left commit (err e) (suc n) w = (raised e, record w { left = n })
transact_left commit (ok db) (suc n) w = committed commit n db w

-- A session that writes and commits.
unfoldable pub transact : Commit → (Db → Result Db) → Run (Unit {0})
transact commit write w = transact_left commit (write w.db) w.left w

abbrev pub answered : Result (Unit {0}) → Outcome (Unit {0})
answered (ok _) = returned tt
answered (err e) = raised e

abbrev pub submit_left : Result (Unit {0}) → ℕ → Run (Unit {0})
submit_left answer zero w = (stopped, w)
submit_left answer (suc n) w = (answered answer, record w { mutations = w.mutations + 1; left = n })

-- `self._runtime.submit`: the mutation is out, whatever its answer is.
unfoldable pub submit : Result (Unit {0}) → Run (Unit {0})
submit answer w = submit_left answer w.left w
