-- ===== src/Policy/Health.antt =====
-- The health schema of app/services/deployment_policy.py. A dict of checks is an association list.
use maoxx_os.Prelude.{
  String, ◌≡◌, refl, Bool, true, false, ◌&&◌, Option, none, some, List, [], ◌∷◌, ◌++◌, arith,
  all_of, elem, ◌==◌, string_eq, ==→≡, Bool-cases, inl, inr, if◌then◌else◌,
}

abbrev pub HealthChecks : Type 0
HealthChecks = List (String × Bool)

abbrev base_checks : List String
base_checks =
    "artifact_digest" ∷ "revision_sha" ∷ "migration" ∷ "smoke" ∷ "critical_regression"
    ∷ "verification_within_timeout" ∷ []

abbrev api_checks : List String
api_checks = "api.alive" ∷ "api.ready" ∷ "api.live" ∷ "api.http" ∷ "api.dependency.db" ∷ []

abbrev worker_checks : List String
worker_checks =
    "feishu-worker.alive" ∷ "feishu-worker.ready" ∷ "feishu-worker.live" ∷ "feishu-worker.connected"
    ∷ []

unfoldable pub required_health_checks : List String → List String
required_health_checks services =
    base_checks
    ++ (if elem "api" services then api_checks else [])
    ++ (if elem "feishu-worker" services then worker_checks else [])

unfoldable pub keys : HealthChecks → List String
keys [] = []
keys ((k, _) ∷ d) = k ∷ keys d

unfoldable pub values : HealthChecks → List Bool
values [] = []
values ((_, v) ∷ d) = v ∷ values d

-- `set(xs) <= set(ys)`
unfoldable pub subset : List String → List String → Bool
subset xs ys = all_of (λ x. elem x ys) xs

-- `set(health_checks) == required and all(health_checks.values())`
unfoldable pub health_checks_are_complete : List String → HealthChecks → Bool
health_checks_are_complete services health_checks =
    let required = required_health_checks services in
    (subset (keys health_checks) required && subset required (keys health_checks))
    && all_of (λ v. v) (values health_checks)

-- `health_checks.get(k)`
unfoldable pub get : String → HealthChecks → Option Bool
get k [] = none
get k ((j, v) ∷ d) = if k == j then some v else get k d

get-in :
    (k : String) (d : HealthChecks)
    → elem k (keys d) ≡ true
    → all_of (λ v. v) (values d) ≡ true
    → get k d ≡ some true
unfolding elem keys values all_of get
get-in k [] h a = cc
get-in k ((j, v) ∷ d) h a = ground (arith, get-in k d)

get-out : (k : String) (d : HealthChecks) → elem k (keys d) ≡ false → get k d ≡ none
unfolding elem keys get
get-out k [] h = refl
get-out k ((j, v) ∷ d) h = ground (arith, get-out k d)

pub elem-subset :
    (x : String) (xs ys : List String) → subset xs ys ≡ true → elem x xs ≡ true → elem x ys ≡ true
unfolding subset all_of elem
elem-subset x [] ys s e = cc
elem-subset x (y ∷ xs) ys s e = elim (Bool-cases (x == y)) [
  | inl here ↦ rw (==→≡ x y here) (ground arith)
  | inr later ↦ elem-subset x xs ys (ground arith) (rw later at e)
]

same_elems :
    (x : String) (xs ys : List String)
    → subset xs ys ≡ true
    → subset ys xs ≡ true
    → elem x xs ≡ elem x ys
same_elems x xs ys s t = ground (arith, elem-subset x xs ys s, elem-subset x ys xs t)

complete_parts :
    (services : List String) (d : HealthChecks)
    → health_checks_are_complete services d ≡ true
    → (subset (keys d) (required_health_checks services) ≡ true)
      × (subset (required_health_checks services) (keys d) ≡ true)
      × (all_of (λ v. v) (values d) ≡ true)
unfolding health_checks_are_complete
complete_parts services d h = ground arith

-- A complete report answers exactly the checks that its services require, and each with true: a
-- check that is missing, failed or not in the schema makes the report incomplete.
pub health_checks_are_complete_lem :
    (services : List String) (d : HealthChecks)
    → health_checks_are_complete services d ≡ true
    → (k : String)
    → get k d ≡ (if elem k (required_health_checks services) then some true else none)
health_checks_are_complete_lem services d h k =
    let (s, t, a) = complete_parts services d h in
    let same = same_elems k (keys d) (required_health_checks services) s t in
    elim (Bool-cases (elem k (keys d))) [
      | inl inside ↦ rw (← same, inside) (get-in k d inside a)
      | inr outside ↦ rw (← same, outside) (get-out k d outside)
    ]
