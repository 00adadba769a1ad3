-- ===== src/Supervisor/Replay/Verdict.antt =====
-- What the steps of app/services/production_supervisor.py do to the verdict in the journal: a record of
-- another event leaves it open, and a terminal record decides it.
use maoxx_os.Prelude.{
  ◌≡◌, ◌⊎◌, inl, inr, refl, ℕ, zero, suc, true, false, List, [], ◌∷◌, Result, ok, Time, String,
  Dict, dict_get, length, ◌==◌, arith, any_of, string_eq,
}
use maoxx_os.Supervisor.Attempt.{
  RuntimeState, not_started, in_progress, healthy, failed, unknown,
  mutation_completed_health_unknown, runtime_state_eq, state_text, state_of_text, SupervisorAttempt,
}
use maoxx_os.Supervisor.Journal.{
  JournalEvent, JournalEvent-discrete, journal_event_eq, JournalRecord, JournalLine, journal_record,
  load_journal, has_event, attempt_terminal, db_disconnected,
}
use maoxx_os.Supervisor.Run.{World, Run, ◌>>=◌, ◌>>◌, lift, answer, append, append_left, transact}
use maoxx_os.Supervisor.Terminal.{
  state_outcome, terminal_rows, outcome_state, only_terminal, ends_disconnected, terminal_state,
}
use maoxx_os.Supervisor.Evidence.{record_runtime_result}
use maoxx_os.Supervisor.Host.{Host}
use maoxx_os.Supervisor.Execute.{note, record_result_or_unknown, finish, disconnected}
use maoxx_os.Supervisor.Lines.{load-own}
use maoxx_os.Supervisor.Logic.{
  Post, Triple, Any, >>=-Triple, try_run-Triple, lift-Any, trivial-Triple, transact-Triple,
}

-- The readable journal of an attempt without a verdict.
abbrev pub NoVerdict : SupervisorAttempt → List JournalLine → Type 0
NoVerdict a lines =
    (rows : List JournalRecord) × (load_journal a lines ≡ ok rows) × (terminal_rows rows ≡ [])

-- And of one whose verdict is `s`, and is replayed.
abbrev pub Verdict : SupervisorAttempt → RuntimeState → List JournalLine → Type 0
Verdict a s lines =
    (rows : List JournalRecord) × (load_journal a lines ≡ ok rows)
    × (has_event attempt_terminal rows ≡ true)
    × (terminal_state rows ≡ ok s)

abbrev pub Undecided : SupervisorAttempt → World → Type 0
Undecided a w = NoVerdict a w.journal

abbrev Decided : SupervisorAttempt → RuntimeState → World → Type 0
Decided a s w = Verdict a s w.journal

-- What a state that is returned says of the journal.
abbrev pub Final : SupervisorAttempt → RuntimeState → World → Type 0
Final a s w = (s ≡ unknown) ⊎ Decided a s w

other_rows :
    (r : JournalRecord) (rows : List JournalRecord)
    → (r.event == attempt_terminal) ≡ false
    → terminal_rows rows ≡ []
    → terminal_rows (r ∷ rows) ≡ []
unfolding terminal_rows
other_rows r rows h none_yet = rw (h, none_yet) refl

verdict_rows :
    (a : SupervisorAttempt) (s : RuntimeState) (now : Time) (rows : List JournalRecord)
    → terminal_rows rows ≡ []
    → terminal_state (journal_record attempt_terminal a (state_outcome s) now ∷ rows) ≡ ok s
unfolding terminal_state ends_disconnected terminal_rows only_terminal outcome_state dict_get
    JournalEvent-discrete state_of_text state_text
verdict_rows a not_started now rows none_yet = rw none_yet refl
verdict_rows a in_progress now rows none_yet = rw none_yet refl
verdict_rows a mutation_completed_health_unknown now rows none_yet = rw none_yet refl
verdict_rows a failed now rows none_yet = rw none_yet refl
verdict_rows a healthy now rows none_yet = rw none_yet refl
verdict_rows a unknown now rows none_yet = rw none_yet refl

first_row :
    (a : SupervisorAttempt) (outcome : Dict String) (now : Time) (rows : List JournalRecord)
    → has_event attempt_terminal (journal_record attempt_terminal a outcome now ∷ rows) ≡ true
unfolding has_event any_of JournalEvent-discrete
first_row a outcome now rows = refl

module _ (host : Host) (a : SupervisorAttempt) where
  append_left-other :
      (event : JournalEvent) (outcome : Dict String) (now : Time) (left : ℕ) (w : World)
      → (event == attempt_terminal) ≡ false
      → Undecided a w
      → Post (λ _. Undecided a) Any (append_left (journal_record event a outcome now) left w)
  append_left-other event outcome now zero w h u = tt
  append_left-other event outcome now (suc n) w h (rows, read, none_yet) = (
    journal_record event a outcome now ∷ rows,
    load-own a event outcome now w.journal rows read,
    other_rows (journal_record event a outcome now) rows h none_yet,
  )

  pub note_other :
      (event : JournalEvent) (outcome : Dict String)
      → (event == attempt_terminal) ≡ false
      → Triple (Undecided a) (note host a event outcome) (λ _. Undecided a) Any
  unfolding note append
  note_other event outcome h w u =
      append_left-other event outcome (host.clock (length w.journal)) w.left w h u

  append_left-verdict :
      (s : RuntimeState) (now : Time) (left : ℕ) (w : World)
      → Undecided a w
      → Post
          (λ _. Decided a s)
          Any
          (append_left (journal_record attempt_terminal a (state_outcome s) now) left w)
  append_left-verdict s now zero w u = tt
  append_left-verdict s now (suc n) w (rows, read, none_yet) = (
    journal_record attempt_terminal a (state_outcome s) now ∷ rows,
    load-own a attempt_terminal (state_outcome s) now w.journal rows read,
    first_row a (state_outcome s) now rows,
    verdict_rows a s now rows none_yet,
  )

  note_verdict :
      (s : RuntimeState)
      → Triple (Undecided a) (note host a attempt_terminal (state_outcome s)) (λ _. Decided a s) Any
  unfolding note append
  note_verdict s w u = append_left-verdict s (host.clock (length w.journal)) w.left w u

  -- `return RuntimeState.UNKNOWN`, behind anything
  pub then_unknown :
      {A : Type 0} (P : World → Type 0) (m : Run A)
      → Triple P (m >>= λ _. answer unknown) (Final a) Any
  then_unknown P m =
      >>=-Triple (λ _. Any) (Final a) Any P m (λ _. answer unknown) (trivial-Triple P m)
        (λ _ _ _. inl refl)

  pub disconnected_lem : (P : World → Type 0) → Triple P (disconnected host a) (Final a) Any
  unfolding disconnected
  disconnected_lem P = then_unknown P (note host a db_disconnected [])

  record_lem :
      (s : RuntimeState) (source : String)
      → Triple (Decided a s) (record_result_or_unknown host a s source) (Final a) Any
  unfolding record_result_or_unknown
  record_lem s source =
      try_run-Triple (λ _. Decided a s) (Final a) Any (Decided a s) (Decided a s)
        (transact host.result_commit (record_runtime_result a s source host.now host.result_id)) _
        (λ _. answer s)
        (transact-Triple (Verdict a s) host.result_commit
          (record_runtime_result a s source host.now host.result_id))
        (λ _. then_unknown (Decided a s) (note host a db_disconnected []))
        (λ _ _ decided. inr decided)

  pub finish_lem :
      (s : RuntimeState) (source : String)
      → Triple (Undecided a) (finish host a s source) (Final a) Any
  unfolding finish
  finish_lem s source =
      >>=-Triple (λ _. Decided a s) (Final a) Any (Undecided a)
        (note host a attempt_terminal (state_outcome s)) _ (note_verdict s)
        (λ _. record_lem s source)

  -- A record that is no verdict, and what follows it.
  pub after_note :
      (event : JournalEvent) (outcome : Dict String) (k : Run RuntimeState)
      → (event == attempt_terminal) ≡ false
      → Triple (Undecided a) k (Final a) Any
      → Triple (Undecided a) (note host a event outcome >> k) (Final a) Any
  after_note event outcome k h t =
      >>=-Triple (λ _. Undecided a) (Final a) Any (Undecided a) (note host a event outcome) (λ _. k)
        (note_other event outcome h) (λ _. t)

  -- What is read or answered changes nothing.
  pub after_lift :
      {A : Type 0} (r : Result A) (k : A → Run RuntimeState)
      → ((x : A) → Triple (Undecided a) (k x) (Final a) Any)
      → Triple (Undecided a) (lift r >>= k) (Final a) Any
  after_lift r k t =
      >>=-Triple (λ _. Undecided a) (Final a) Any (Undecided a) (lift r) k
        (lift-Any (Undecided a) r) t

pub open_rows :
    (rows : List JournalRecord) → has_event attempt_terminal rows ≡ false → terminal_rows rows ≡ []
unfolding has_event any_of terminal_rows
open_rows [] h = refl
open_rows (r ∷ rows) h = ground (arith, open_rows rows)
