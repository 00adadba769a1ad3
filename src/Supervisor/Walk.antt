-- ===== src/Supervisor/Walk.antt =====
-- The way of a call of app/services/production_supervisor.py through its journal: what holds until a
-- terminal record is written, and what holds of the state that is returned.
use maoxx_os.Prelude.{
  ◌≡◌, refl, ℕ, zero, suc, false, List, [], ◌∷◌, Result, ok, err, Error, String, Dict, ◌==◌,
  string_eq, subst,
}
use maoxx_os.Tables.{Db}
use maoxx_os.Supervisor.Attempt.{
  RuntimeState, failed, unknown, mutation_completed_health_unknown, runtime_state_eq,
  SupervisorAttempt, RuntimeSnapshot,
}
use maoxx_os.Supervisor.Journal.{
  JournalEvent, JournalEvent-discrete, journal_event_eq, JournalRecord, JournalLine, has_event,
  attempt_accepted, mutation_submitted, mutation_completed, mutation_failed, attempt_terminal,
  reconciliation_started, reconciliation_result, db_disconnected,
}
use maoxx_os.Supervisor.Run.{
  World, Outcome, returned, Run, try_run, Commit, ◌>>=◌, ◌>>◌, lift, answer, submit, submit_left,
  transact,
}
use maoxx_os.Supervisor.Terminal.{is_final}
use maoxx_os.Supervisor.Resources.{collect, require_fresh}
use maoxx_os.Supervisor.Host.{Library, Host}
use maoxx_os.Supervisor.Execute.{
  note, record_result_or_unknown, finish, health_locked, resolve_state, reconcile_locked,
  mutation_refused, submit_failed, disconnected, mutate, accept, fresh_answer, start_fresh, resume,
}
use maoxx_os.Supervisor.Logic.{
  Post, Triple, Any, >>=-Triple, try_run-Triple, if-Triple, trivial-Triple, transact-Triple,
}

module _ (host : Host) (a : SupervisorAttempt) (J : List JournalLine → Type 0)
    (F : RuntimeState → World → Type 0) where
  abbrev pub Open : World → Type 0
  Open w = J w.journal

  -- A record that is not terminal, and what follows it.
  pub record Walk : Type 0 where
    pub noted :
        (event : JournalEvent) (outcome : Dict String)
        → (event == attempt_terminal) ≡ false
        → Triple Open (note host a event outcome) (λ _. Open) Any
    pub told_unknown : (w : World) → F unknown w
    pub failing : (source : String) → Triple Open (finish host a failed source) F Any
    pub verifying : Triple Open (health_locked host a) F Any
    pub finishing :
        (s : RuntimeSnapshot) (source : String)
        → host.first_observed ≡ ok s
        → Triple Open (finish host a s.state source) F Any

  submit_left-Open :
      (told : Result (Unit {0})) (left : ℕ) (w : World)
      → Open w
      → Post (λ _. Open) Open (submit_left told left w)
  submit_left-Open told zero w u = tt
  submit_left-Open (ok _) (suc n) w u = u
  submit_left-Open (err e) (suc n) w u = u

  submit_lem : (told : Result (Unit {0})) → Triple Open (submit told) (λ _. Open) Open
  unfolding submit
  submit_lem told w u = submit_left-Open told w.left w u

  -- What is read or answered changes nothing.
  pub after_lift :
      {A : Type 0} (r : Result A) (k : A → Run RuntimeState)
      → ((x : A) → r ≡ ok x → Triple Open (k x) F Any)
      → Triple Open (lift r >>= k) F Any
  after_lift (ok x) k t w u = t x refl w u
  after_lift (err e) k t w u = tt

  module _ (walk : Walk) where
    pub after_note :
        (event : JournalEvent) (outcome : Dict String) (k : Run RuntimeState)
        → (event == attempt_terminal) ≡ false
        → Triple Open k F Any
        → Triple Open (note host a event outcome >> k) F Any
    after_note event outcome k h t =
        >>=-Triple (λ _. Open) F Any Open (note host a event outcome) (λ _. k)
          (walk.noted event outcome h) (λ _. t)

    -- `return RuntimeState.UNKNOWN`, behind anything
    pub then_unknown :
        {A : Type 0} (P : World → Type 0) (m : Run A) → Triple P (m >>= λ _. answer unknown) F Any
    then_unknown P m =
        >>=-Triple (λ _. Any) F Any P m (λ _. answer unknown) (trivial-Triple P m)
          (λ _ w _. walk.told_unknown w)

    disconnected_lem : Triple Open (disconnected host a) F Any
    unfolding disconnected
    disconnected_lem = then_unknown Open (note host a db_disconnected [])

    -- A transaction, and the journal's `DB_DISCONNECTED` where it fails.
    after_transact :
        (commit : Commit) (write : Db → Result Db) (k : Run RuntimeState)
        → Triple Open k F Any
        → Triple Open (try_run (transact commit write) (λ _. disconnected host a) (λ _. k)) F Any
    after_transact commit write k t =
        try_run-Triple (λ _. Open) F Any Open Open (transact commit write)
          (λ _. disconnected host a) (λ _. k) (transact-Triple J commit write)
          (λ _. disconnected_lem) (λ _. t)

    resolve_lem :
        (s : RuntimeSnapshot)
        → host.first_observed ≡ ok s
        → Triple Open (resolve_state host a s.state) F Any
    unfolding resolve_state
    resolve_lem s seen =
        if-Triple Open F Any (s.state == mutation_completed_health_unknown) _ _ walk.verifying (
          if-Triple Open F Any (is_final s.state) _ _ (walk.finishing s "reconciliation" seen)
            (then_unknown Open (record_result_or_unknown host a unknown "reconciliation")))

    reconcile_lem : Triple Open (reconcile_locked host a) F Any
    unfolding reconcile_locked JournalEvent-discrete
    reconcile_lem = after_note reconciliation_started [] _ refl (
        after_lift host.first_observed _
          (λ s seen. after_note reconciliation_result _ _ refl (resolve_lem s seen)))

    refused_lem : (e : Error) → Triple Open (submit_failed host a e) F Any
    unfolding submit_failed JournalEvent-discrete
    refused_lem e =
        if-Triple Open F Any (mutation_refused host a e) _ _
          (after_note mutation_failed _ _ refl (walk.failing "mutation")) reconcile_lem

    mutate_lem : Triple Open (mutate host a) F Any
    unfolding mutate JournalEvent-discrete
    mutate_lem = after_note mutation_submitted [] _ refl (
        try_run-Triple (λ _. Open) F Any Open Open (submit host.submitted) (submit_failed host a) _
          (submit_lem host.submitted) refused_lem
          (λ _. after_note mutation_completed [] _ refl walk.verifying))

    module _ (library : Library) where
      accept_lem : Triple Open (accept host a library) F Any
      unfolding accept JournalEvent-discrete
      accept_lem = after_note attempt_accepted [] _ refl (
          after_lift host.plan _ (λ _ _. after_lift (collect host.sample host.now) _ (λ resources _.
            after_lift (require_fresh resources host.now) _ (λ _ _.
              after_transact host.resource_commit _ _
                (after_transact host.marker_commit _ _ mutate_lem)))))

      -- From a journal that holds no terminal record.
      pub resume_lem :
          (rows : List JournalRecord)
          → has_event attempt_terminal rows ≡ false
          → Triple Open (resume host a library rows) F Any
      unfolding resume start_fresh
      resume_lem [] h w u = after_lift (fresh_answer host a library w.db) _ (λ _ _. accept_lem) w u
      resume_lem (r ∷ rows) h w u = rw h (
          if-Triple Open F Any (has_event mutation_submitted (r ∷ rows)) _ _ reconcile_lem
            accept_lem w u)

pub of_returned :
    {A : Type 0} (Q : A → World → Type 0) (p : Outcome A × World) (b : A) (v : World)
    → Post Q Any p
    → p ≡ (returned b, v)
    → Q b v
of_returned Q p b v q h = let at : Post Q Any (returned b, v) = subst (λ p. Post Q Any p) h q in at
