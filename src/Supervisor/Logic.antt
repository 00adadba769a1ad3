-- ===== src/Supervisor/Logic.antt =====
-- Conditions before and behind a call of app/services/production_supervisor.py.
use maoxx_os.Prelude.{ℕ, zero, suc, Bool, true, false, Result, ok, err, Error, if◌then◌else◌, List}
use maoxx_os.Tables.{Db}
use maoxx_os.Supervisor.Journal.{JournalLine}
use maoxx_os.Supervisor.Run.{
  World, Outcome, stopped, raised, returned, Run, continue, handle, ◌>>=◌, try_run, lift, Commit,
  failed, done, unanswered, committed, transact_left, transact,
}

-- `Q` behind a call that returned, and `E` behind one that raised.
abbrev pub Post :
    {A : Type 0} → (A → World → Type 0) → (World → Type 0) → Outcome A × World → Type 0
Post Q E (stopped, w) = Unit
Post Q E (raised e, w) = E w
Post Q E (returned a, w) = Q a w

abbrev pub Triple :
    {A : Type 0} → (World → Type 0) → Run A → (A → World → Type 0) → (World → Type 0) → Type 0
Triple P m Q E = (w : World) → P w → Post Q E (m w)

-- Nothing is asked of a world.
abbrev pub Any : World → Type 0
Any _ = Unit

module _ {A B : Type 0} (Q : A → World → Type 0) (R : B → World → Type 0) (E : World → Type 0) where
  continue-Post :
      (f : A → Run B)
      → ((a : A) → Triple (Q a) (f a) R E)
      → (p : Outcome A × World) → Post Q E p
      → Post R E (continue f p)
  continue-Post f t (stopped, w) q = tt
  continue-Post f t (raised e, w) q = q
  continue-Post f t (returned a, w) q = t a w q

  handle-Post :
      (E' : World → Type 0) (f : A → Run B) (h : Error → Run B)
      → ((e : Error) → Triple E' (h e) R E)
      → ((a : A) → Triple (Q a) (f a) R E)
      → (p : Outcome A × World) → Post Q E' p
      → Post R E (handle f h p)
  handle-Post E' f h s t (stopped, w) q = tt
  handle-Post E' f h s t (raised e, w) q = s e w q
  handle-Post E' f h s t (returned a, w) q = t a w q

  pub >>=-Triple :
      (P : World → Type 0) (m : Run A) (f : A → Run B)
      → Triple P m Q E
      → ((a : A) → Triple (Q a) (f a) R E)
      → Triple P (m >>= f) R E
  >>=-Triple P m f s t w p = continue-Post f t (m w) (s w p)

  pub try_run-Triple :
      (P E' : World → Type 0) (m : Run A) (h : Error → Run B) (f : A → Run B)
      → Triple P m Q E'
      → ((e : Error) → Triple E' (h e) R E)
      → ((a : A) → Triple (Q a) (f a) R E)
      → Triple P (try_run m h f) R E
  try_run-Triple P E' m h f s r t w p = handle-Post E' f h r t (m w) (s w p)

pub if-Triple :
    {A : Type 0} (P : World → Type 0) (Q : A → World → Type 0) (E : World → Type 0) (b : Bool)
    (m k : Run A)
    → Triple P m Q E
    → Triple P k Q E
    → Triple P (if b then m else k) Q E
if-Triple P Q E true m k s t = s
if-Triple P Q E false m k s t = t

pub lift-Triple : {A : Type 0} (P : World → Type 0) (r : Result A) → Triple P (lift r) (λ _. P) P
lift-Triple P (ok a) w p = p
lift-Triple P (err e) w p = p

-- Where nothing is asked of a call that raises.
pub lift-Any : {A : Type 0} (P : World → Type 0) (r : Result A) → Triple P (lift r) (λ _. P) Any
lift-Any P (ok a) w p = p
lift-Any P (err e) w p = tt

trivial-Post : {A : Type 0} (p : Outcome A × World) → Post (λ _. Any) Any p
trivial-Post (stopped, w) = tt
trivial-Post (raised e, w) = tt
trivial-Post (returned a, w) = tt

pub trivial-Triple : {A : Type 0} (P : World → Type 0) (m : Run A) → Triple P m (λ _. Any) Any
trivial-Triple P m w p = trivial-Post (m w)

-- A condition on the journal lasts through a transaction.
module _ (J : List JournalLine → Type 0) where
  committed-Post :
      (commit : Commit) (n : ℕ) (db : Db) (w : World)
      → J w.journal
      → Post (λ _ v. J v.journal) (λ v. J v.journal) (committed commit n db w)
  committed-Post failed n db w j = j
  committed-Post done n db w j = j
  committed-Post unanswered n db w j = j

  transact_left-Post :
      (commit : Commit) (written : Result Db) (left : ℕ) (w : World)
      → J w.journal
      → Post (λ _ v. J v.journal) (λ v. J v.journal) (transact_left commit written left w)
  transact_left-Post commit written zero w j = tt
  transact_left-Post commit (err e) (suc n) w j = j
  transact_left-Post commit (ok db) (suc n) w j = committed-Post commit n db w j

  pub transact-Triple :
      (commit : Commit) (write : Db → Result Db)
      → Triple (λ v. J v.journal) (transact commit write) (λ _ v. J v.journal) (λ v. J v.journal)
  unfolding transact
  transact-Triple commit write w j = transact_left-Post commit (write w.db) w.left w j
