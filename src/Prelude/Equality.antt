-- ===== src/Prelude/Equality.antt =====
-- Python's `==` on the values that the program compares.
use Prim.Native.Nat.{ℕ}
use Prim.Native.String.{String}
use mathlib.Core.Path.{◌≡◌, refl, ap}
use mathlib.Core.Logic.{◌≢◌, ◌↔◌, inl, inr}
use mathlib.Core.Bool.{Bool, true, false, ◌&&◌, not}
use mathlib.Core.Option.{Option, none, some}
use mathlib.Core.List.{List, [], ◌∷◌}
use native.Mathlib.Omega.{arith}
use text.Mathlib.Text.{◌==◌ as str_beq}
use text.Mathlib.TextEquality.{eq_iff}
use maoxx_os.Prelude.Tests.{Bool-cases, nat_beq, nat_beq_iff, if◌then◌else◌}

pub record Eq {ℓ} (A : Type ℓ) : Type ℓ where
  pub test : A → A → Bool
  pub test_iff : (x y : A) → (test x y ≡ true) ↔ (x ≡ y)

infix 50 ◌==◌ ◌!=◌
abbrev pub ◌==◌ {ℓ} : {A : Type ℓ} ⦃e : Eq A⦄ → A → A → Bool
◌==◌ ⦃e⦄ = e.test

abbrev pub ◌!=◌ {ℓ} : {A : Type ℓ} ⦃e : Eq A⦄ → A → A → Bool
a != b = not (a == b)

instance abbrev pub nat_eq : Eq ℕ
nat_eq = record { test = nat_beq; test_iff = nat_beq_iff }

instance abbrev pub string_eq : Eq String
string_eq = record { test = str_beq; test_iff = eq_iff }

module _ {ℓ} {A : Type ℓ} ⦃e : Eq A⦄ where
  pub ==→≡ : (a b : A) → (a == b) ≡ true → a ≡ b
  ==→≡ a b = (e.test_iff a b).0

  pub ≡→== : (a b : A) → a ≡ b → (a == b) ≡ true
  ≡→== a b = (e.test_iff a b).1

  pub ==_refl : (a : A) → (a == a) ≡ true
  ==_refl a = ≡→== a a refl

  pub ==_false→≢ : (a b : A) → (a == b) ≡ false → a ≢ b
  ==_false→≢ a b h same = let equal = ≡→== a b same in cc

  pub ≢→==_false : (a b : A) → a ≢ b → (a == b) ≡ false
  ≢→==_false a b h = elim (Bool-cases (a == b)) [
    | inl same ↦ absurd (h (==→≡ a b same))
    | inr other ↦ other
  ]

  pub !=_false→≡ : (a b : A) → (a != b) ≡ false → a ≡ b
  !=_false→≡ a b h = ==→≡ a b (ground arith)

  abbrev option_beq : Option A → Option A → Bool
  option_beq none none = true
  option_beq (some a) (some b) = a == b
  option_beq _ _ = false

  pub option_beq_iff : (a b : Option A) → (option_beq a b ≡ true) ↔ (a ≡ b)
  option_beq_iff none none = (λ _. refl, λ _. refl)
  option_beq_iff none (some b) = (λ h. cc, λ h. cc)
  option_beq_iff (some a) none = (λ h. cc, λ h. cc)
  option_beq_iff (some a) (some b) = (λ h. ap some (==→≡ a b h), λ h. ≡→== a b (cc))

  instance abbrev pub option_eq : Eq (Option A)
  option_eq = record { test = option_beq; test_iff = option_beq_iff }

  abbrev list_beq : List A → List A → Bool
  list_beq [] [] = true
  list_beq (x ∷ xs) (y ∷ ys) = x == y && list_beq xs ys
  list_beq _ _ = false

  pub list_beq_sound : (a b : List A) → list_beq a b ≡ true → a ≡ b
  list_beq_sound [] [] h = refl
  list_beq_sound [] (y ∷ ys) h = cc
  list_beq_sound (x ∷ xs) [] h = cc
  list_beq_sound (x ∷ xs) (y ∷ ys) h = ground (arith, e.test_iff x y, list_beq_sound xs ys)

  pub list_beq_refl : (a : List A) → list_beq a a ≡ true
  list_beq_refl [] = refl
  list_beq_refl (x ∷ xs) = ground (arith, e.test_iff x x, list_beq_refl xs)

  instance abbrev pub list_eq : Eq (List A)
  list_eq = record {
    test = list_beq;
    test_iff = λ a b. (list_beq_sound a b, λ (p : a ≡ b). rw p (list_beq_refl b));
  }

  -- `a in xs`
  unfoldable pub elem : A → List A → Bool
  elem a [] = false
  elem a (x ∷ xs) = if a == x then true else elem a xs

-- Equality of an enumeration.
abbrev pub decided {ℓ} : {A : Type ℓ} → Dec A → Bool
decided (yes _) = true
decided (no _) = false

pub decided_iff {ℓ} : {A : Type ℓ} (d : Dec A) → (decided d ≡ true) ↔ A
decided_iff (yes a) = (λ _. a, λ _. refl)
decided_iff (no f) = (λ h. cc, λ a. absurd (f a))

abbrev pub discrete_eq {ℓ} : {A : Type ℓ} → Discrete A → Eq A
discrete_eq d = record { test = λ a b. decided (d a b); test_iff = λ a b. decided_iff (d a b) }
