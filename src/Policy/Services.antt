-- ===== src/Policy/Services.antt =====
-- `validate_service_set` of app/services/deployment_policy.py.
use maoxx_os.Prelude.{
  ℕ, String, ◌≡◌, refl, subst, ◌∙◌, ap, ==_refl, ◌⊎◌, inl, inr, Bool, true, false, not, ◌||◌, List,
  [], ◌∷◌, Result, ok, policy_error, ◌>>◌, arith, codes, all_of, elem, length, ltb, nat_beq, nat_eq,
  string_eq, ◌==◌, ==→≡, Bool-cases, raise_if, if◌then◌else◌,
}

-- Python's `<` on two texts
unfoldable pub text_lt : List ℕ → List ℕ → Bool
text_lt [] [] = false
text_lt [] (d ∷ t) = true
text_lt (c ∷ s) [] = false
text_lt (c ∷ s) (d ∷ t) =
    let rest = text_lt s t in if ltb c d then true else if nat_beq c d then rest else false

-- `sorted(set(xs))`: each text goes to its place, once
unfoldable pub insert_sorted : String → List String → List String
insert_sorted x [] = x ∷ []
insert_sorted x (y ∷ ys) =
    let rest = insert_sorted x ys in
    if x == y then y ∷ ys else if text_lt (codes x) (codes y) then x ∷ y ∷ ys else y ∷ rest

unfoldable pub sorted_set : List String → List String
sorted_set [] = []
sorted_set (x ∷ xs) = insert_sorted x (sorted_set xs)

abbrev pub is_empty : List String → Bool
is_empty [] = true
is_empty (_ ∷ _) = false

-- APPROVED_PRODUCTION_SERVICES
abbrev pub approved_production_services : List String
approved_production_services = "api" ∷ "feishu-worker" ∷ []

unfoldable pub approved : String → Bool
approved x = elem x approved_production_services

unfoldable pub validate_service_set : List String → Result (List String)
validate_service_set services =
    let normalized = sorted_set services in
    raise_if (is_empty normalized || not (nat_beq (length normalized) (length services)))
      (policy_error "service set must be non-empty and unique")
    >> raise_if (not (all_of approved normalized))
        (policy_error "service is outside approved allowlist")
    >> ok normalized

-- The service sets that pass.
pub data Canonical : List String → Type 0 where
  only_api : Canonical ("api" ∷ [])
  only_worker : Canonical ("feishu-worker" ∷ [])
  both : Canonical ("api" ∷ "feishu-worker" ∷ [])

approved_insert :
    (x : String) (l : List String)
    → all_of approved (insert_sorted x l) ≡ true
    → (approved x ≡ true) × (all_of approved l ≡ true)
unfolding insert_sorted all_of
approved_insert x [] h = ground arith
approved_insert x (y ∷ l) h = elim (Bool-cases (x == y)) [
  | inl same ↦ rw (==→≡ x y same) (ground arith)
  | inr other ↦ ground (arith, approved_insert x l)
]

approved_cases : (x : String) → approved x ≡ true → (x ≡ "api") ⊎ (x ≡ "feishu-worker")
unfolding approved elem
approved_cases x h = elim (Bool-cases (x == "api")) [
  | inl a ↦ inl (==→≡ x "api" a)
  | inr n ↦ inr (==→≡ x "feishu-worker" (ground arith))
]

data Sorted : List String → Type 0 where
  empty : Sorted []
  full : {l : List String} → Canonical l → Sorted l

insert_approved :
    (x : String) (l : List String)
    → (x ≡ "api") ⊎ (x ≡ "feishu-worker")
    → Sorted l
    → Sorted (insert_sorted x l)
unfolding insert_sorted text_lt codes
insert_approved x l (inl a) empty = rw a (full only_api)
insert_approved x l (inr w) empty = rw w (full only_worker)
insert_approved x l (inl a) (full only_api) = rw a (full only_api)
insert_approved x l (inl a) (full only_worker) = rw a (full both)
insert_approved x l (inl a) (full both) = rw a (full both)
insert_approved x l (inr w) (full only_api) = rw w (full both)
insert_approved x l (inr w) (full only_worker) = rw w (full only_worker)
insert_approved x l (inr w) (full both) = rw w (full both)

Sorted-approved :
    (xs : List String) → all_of approved (sorted_set xs) ≡ true → Sorted (sorted_set xs)
unfolding sorted_set
Sorted-approved [] h = empty
Sorted-approved (x ∷ xs) h =
    let (a, rest) = approved_insert x (sorted_set xs) h in
    insert_approved x (sorted_set xs) (approved_cases x a) (Sorted-approved xs rest)

elem-insert : (z x : String) (l : List String) → elem z (insert_sorted x l) ≡ elem z (x ∷ l)
unfolding insert_sorted elem
elem-insert z x [] = refl
elem-insert z x (y ∷ l) = elim (Bool-cases (x == y)) [
  | inl same ↦ rw (==→≡ x y same) (ground (arith, ==_refl y))
  | inr other ↦ ground (arith, elem-insert z x l)
]

elem-sorted_set : (z : String) (xs : List String) → elem z (sorted_set xs) ≡ elem z xs
unfolding sorted_set elem
elem-sorted_set z [] = refl
elem-sorted_set z (x ∷ xs) =
    elem-insert z x (sorted_set xs) ∙ ap (λ r. if z == x then true else r) (elem-sorted_set z xs)

service_checks :
    (services r : List String)
    → validate_service_set services ≡ ok r
    → (is_empty (sorted_set services) ≡ false)
      × (all_of approved (sorted_set services) ≡ true)
      × (sorted_set services ≡ r)
unfolding validate_service_set
service_checks services r h = ground arith

Canonical-of_Sorted : (l : List String) → is_empty l ≡ false → Sorted l → Canonical l
Canonical-of_Sorted l e empty = absurd (cc)
Canonical-of_Sorted l e (full c) = c

pub Canonical-passes : {l : List String} → Canonical l → validate_service_set l ≡ ok l
unfolding validate_service_set sorted_set insert_sorted text_lt codes all_of approved elem
Canonical-passes only_api = refl
Canonical-passes only_worker = refl
Canonical-passes both = refl

-- A service set that passes is returned as one of the three canonical tuples, sorted and without
-- repetition, that holds the same services; and that tuple passes again and is returned as it is,
-- which the reload before the mutation relies on.
pub validate_service_set-Canonical :
    (services r : List String)
    → validate_service_set services ≡ ok r
    → Canonical r × (validate_service_set r ≡ ok r) × ((x : String) → elem x r ≡ elem x services)
validate_service_set-Canonical services r h =
    let (filled, fine, same) = service_checks services r h in
    let c : Canonical r =
      subst Canonical same
        (Canonical-of_Sorted (sorted_set services) filled (Sorted-approved services fine)) in
    (c, Canonical-passes c, λ x. rw (← same) (elem-sorted_set x services))
