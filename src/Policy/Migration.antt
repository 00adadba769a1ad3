-- ===== src/Policy/Migration.antt =====
-- The migration gate of app/services/deployment_policy.py.
use Prim.Native.Nat.{max}
use maoxx_os.Prelude.{
  ℕ, String, ◌≡◌, ◌≢◌, ◌↔◌, refl, Bool, true, false, ◌&&◌, ◌||◌, not, Option, none, some, List, [],
  ◌∷◌, Result, ok, policy_error, ap, ◌∙◌, raise_if, ◌>>◌, arith, all_of, any_of, elem, Eq,
  discrete_eq, ◌==◌, string_eq, if◌then◌else◌,
}

pub data MigrationRisk : Type 0 where
  none_risk low medium high : MigrationRisk

unfoldable pub MigrationRisk-discrete : Discrete MigrationRisk
MigrationRisk-discrete = hlevel

instance abbrev pub risk_eq : Eq MigrationRisk
risk_eq = discrete_eq MigrationRisk-discrete

abbrev pub low_migration_changes : List String
low_migration_changes =
    "add_table" ∷ "add_nullable_column" ∷ "add_nonblocking_index" ∷ "add_constraint_not_valid" ∷ []

abbrev pub medium_migration_changes : List String
medium_migration_changes =
    "reversible_data_backfill" ∷ "reversible_column_type" ∷ "validated_constraint"
    ∷ "blocking_index" ∷ []

abbrev pub high_migration_changes : List String
high_migration_changes =
    "drop_table" ∷ "drop_column" ∷ "destructive_data_change" ∷ "irreversible_change"
    ∷ "breaking_type_change" ∷ "exclusive_lock" ∷ "set_not_null_with_rewrite" ∷ []

unfoldable pub is_high : String → Bool
is_high c = elem c high_migration_changes

unfoldable pub is_known : String → Bool
is_known c = elem c low_migration_changes || elem c medium_migration_changes

unfoldable pub is_medium : String → Bool
is_medium c = elem c medium_migration_changes

-- `if not changes`, and the tests on the set behind it
unfoldable pub classify_migration_risk : List String → MigrationRisk
classify_migration_risk [] = none_risk
classify_migration_risk (c ∷ cs) =
    let changes = c ∷ cs in
    if any_of is_high changes
    then high
    else if not (all_of is_known changes)
    then high
    else if any_of is_medium changes
    then medium
    else low

-- Python's truth of `str | None`
unfoldable pub is_given : Option String → Bool
is_given none = false
is_given (some s) = not (s == "")

unfoldable pub validate_migration_plan :
    MigrationRisk → Option String → Option String → Result (Unit {0})
validate_migration_plan risk migration_revision rollback_runbook_ref =
    raise_if (risk == high) (policy_error "HIGH migration risk is prohibited")
    >> raise_if
        (risk == medium
          && (not (is_given migration_revision) || not (is_given rollback_runbook_ref)))
        (policy_error "MEDIUM migration requires revision and rollback runbook")

abbrev pub level : MigrationRisk → ℕ
level none_risk = 0
level low = 1
level medium = 2
level high = 3

abbrev pub of_tests : Bool → Bool → Bool → MigrationRisk
of_tests h k m = if h then high else if not k then high else if m then medium else low

-- The risk of one change: what is in no list is HIGH.
abbrev pub change_risk : String → MigrationRisk
change_risk c = of_tests (is_high c) (is_known c) (is_medium c)

abbrev pub worst : List String → ℕ
worst [] = 0
worst (c ∷ cs) = max (level (change_risk c)) (worst cs)

combine_one :
    (h k m : Bool)
    → level (
        of_tests
          (if h then true else false)
          (if k then true else false)
          (if m then true else false))
      ≡ max (level (of_tests h k m)) 0
combine_one true k m = refl
combine_one false false m = refl
combine_one false true true = refl
combine_one false true false = refl

combine :
    (h k m h' k' m' : Bool)
    → level (of_tests (if h then true else h') (if k then k' else false) (if m then true else m'))
      ≡ max (level (of_tests h k m)) (level (of_tests h' k' m'))
combine h k m h' k' m' = ground arith

of_tests_lem :
    (c : String) (cs : List String)
    → level
        (of_tests (any_of is_high (c ∷ cs)) (all_of is_known (c ∷ cs)) (any_of is_medium (c ∷ cs)))
      ≡ worst (c ∷ cs)
unfolding any_of all_of
of_tests_lem c [] = combine_one (is_high c) (is_known c) (is_medium c)
of_tests_lem c (d ∷ cs) =
    combine (is_high c) (is_known c) (is_medium c) (any_of is_high (d ∷ cs))
      (all_of is_known (d ∷ cs)) (any_of is_medium (d ∷ cs))
    ∙ ap (max (level (change_risk c))) (of_tests_lem d cs)

-- The risk of a migration is the worst risk of a change in it, in whatever order they are named.
pub classify_migration_risk-worst :
    (changes : List String) → level (classify_migration_risk changes) ≡ worst changes
unfolding classify_migration_risk
classify_migration_risk-worst [] = refl
classify_migration_risk-worst (c ∷ cs) = of_tests_lem c cs

-- A plan passes exactly when its risk is not HIGH and, if MEDIUM, it names a revision and a
-- rollback runbook.
pub validate_migration_plan_iff :
    (risk : MigrationRisk) (revision runbook : Option String)
    → (validate_migration_plan risk revision runbook ≡ ok tt)
      ↔ ((risk ≢ high) × (risk ≡ medium → (is_given revision ≡ true) × (is_given runbook ≡ true)))
unfolding validate_migration_plan MigrationRisk-discrete
validate_migration_plan_iff none_risk revision runbook =
    (λ h. (λ e. cc, λ e. absurd (cc)), λ h. refl)
validate_migration_plan_iff low revision runbook = (λ h. (λ e. cc, λ e. absurd (cc)), λ h. refl)
validate_migration_plan_iff medium revision runbook =
    (λ h. (λ e. cc, λ _. (ground arith, ground arith)), λ h. (let (r, b) = h.1 refl in rw (r, b)))
validate_migration_plan_iff high revision runbook = (λ h. absurd (cc), λ h. absurd (h.0 refl))
