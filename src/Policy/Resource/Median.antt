-- ===== src/Policy/Resource/Median.antt =====
-- What the sorted memory samples say of the samples.
use maoxx_os.Prelude.{
  ℕ, zero, suc, ◌+◌, ◌≤◌, ◌<◌, ◌≡◌, refl, List, [], ◌∷◌, arith, length, leb, if◌then◌else◌,
  Bool-cases, inl, inr, ltb, ◌↔◌,
}
use maoxx_os.Policy.Resource.{sort, insert_number, at}

-- How many numbers reach a level.
abbrev pub reaching : ℕ → List ℕ → ℕ
reaching limit [] = 0
reaching limit (x ∷ xs) = if leb limit x then suc (reaching limit xs) else reaching limit xs

-- Every number is at least x.
abbrev AtLeast : ℕ → List ℕ → Type 0
AtLeast x [] = Unit
AtLeast x (y ∷ ys) = (x ≤ y) × AtLeast x ys

abbrev pub IsSorted : List ℕ → Type 0
IsSorted [] = Unit
IsSorted (x ∷ xs) = AtLeast x xs × IsSorted xs

AtLeast-weaken : (x y : ℕ) (l : List ℕ) → x ≤ y → AtLeast y l → AtLeast x l
AtLeast-weaken x y [] h a = tt
AtLeast-weaken x y (z ∷ l) h a = (omega arith, AtLeast-weaken x y l h a.1)

AtLeast-insert : (x y : ℕ) (l : List ℕ) → x ≤ y → AtLeast x l → AtLeast x (insert_number y l)
unfolding insert_number
AtLeast-insert x y [] h a = (h, tt)
AtLeast-insert x y (z ∷ l) h a = ground (arith, AtLeast-insert x y l h)

insert-IsSorted : (x : ℕ) (l : List ℕ) → IsSorted l → IsSorted (insert_number x l)
unfolding insert_number
insert-IsSorted x [] s = (tt, tt)
insert-IsSorted x (y ∷ l) s = elim (Bool-cases (leb x y)) [
  | inl le ↦ rw le ((ground arith, AtLeast-weaken x y l (ground arith) s.0), s)
  | inr gt ↦ rw gt (AtLeast-insert y x l (ground arith) s.0, insert-IsSorted x l s.1)
]

pub sort-IsSorted : (l : List ℕ) → IsSorted (sort l)
unfolding sort
sort-IsSorted [] = tt
sort-IsSorted (x ∷ l) = insert-IsSorted x (sort l) (sort-IsSorted l)

reaching-insert :
    (limit x : ℕ) (l : List ℕ) → reaching limit (insert_number x l) ≡ reaching limit (x ∷ l)
unfolding insert_number
reaching-insert limit x [] = refl
reaching-insert limit x (y ∷ l) = ground (arith, reaching-insert limit x l)

pub reaching-sort : (limit : ℕ) (l : List ℕ) → reaching limit (sort l) ≡ reaching limit l
unfolding sort
reaching-sort limit [] = refl
reaching-sort limit (x ∷ l) =
    ground (arith, reaching-insert limit x (sort l), reaching-sort limit l)

length-insert : (x : ℕ) (l : List ℕ) → length (insert_number x l) ≡ suc (length l)
unfolding insert_number
length-insert x [] = refl
length-insert x (y ∷ l) = ground (arith, length-insert x l)

pub length-sort : (l : List ℕ) → length (sort l) ≡ length l
unfolding sort
length-sort [] = refl
length-sort (x ∷ l) = omega (arith, length-insert x (sort l), length-sort l)

reaching_all : (limit x : ℕ) (l : List ℕ) → limit ≤ x → AtLeast x l → reaching limit l ≡ length l
reaching_all limit x [] h a = refl
reaching_all limit x (y ∷ l) h a = ground (arith, reaching_all limit x l h)

-- In a sorted list all from index i on reach what the number at i reaches.
pub at-reaching :
    (limit i : ℕ) (l : List ℕ)
    → IsSorted l
    → i < length l
    → limit ≤ at l i
    → length l ≤ i + reaching limit l
at-reaching limit i [] s lt h = absurd (omega arith)
at-reaching limit zero (x ∷ l) s lt h = ground (arith, reaching_all limit x l h s.0)
at-reaching limit (suc i) (x ∷ l) s lt h = ground (arith, at-reaching limit i l s.1)

pub reaching-le-length : (limit : ℕ) (l : List ℕ) → reaching limit l ≤ length l
reaching-le-length limit [] = omega arith
reaching-le-length limit (x ∷ l) = ground (arith, reaching-le-length limit l)

AtLeast-at : (x i : ℕ) (l : List ℕ) → AtLeast x l → i < length l → x ≤ at l i
AtLeast-at x i [] a lt = absurd (omega arith)
AtLeast-at x zero (y ∷ l) a lt = a.0
AtLeast-at x (suc i) (y ∷ l) a lt = AtLeast-at x i l a.1 (omega arith)

-- And where the number at i does not reach a level, none up to i does.
pub at-missing :
    (limit i : ℕ) (l : List ℕ)
    → IsSorted l
    → i < length l
    → at l i < limit
    → reaching limit l + suc i ≤ length l
at-missing limit i [] s lt h = absurd (omega arith)
at-missing limit zero (x ∷ l) s lt h = ground (arith, reaching-le-length limit l)
at-missing limit (suc i) (x ∷ l) s lt h =
    ground (arith, at-missing limit i l s.1, AtLeast-at x i l s.0)

-- The number at index i of the sorted list reaches a level exactly when all but i numbers of the list do.
pub rank_iff :
    (limit i : ℕ) (l : List ℕ)
    → i < length l
    → (limit ≤ at (sort l) i) ↔ (length l ≤ i + reaching limit l)
rank_iff limit i l small = (
  λ h. omega (
    arith,
    length-sort l,
    reaching-sort limit l,
    at-reaching limit i (sort l) (sort-IsSorted l) (omega (arith, length-sort l)) h,
  ),
  λ h. elim (Bool-cases (ltb (at (sort l) i) limit)) [
    | inl lt ↦ absurd (
        omega (
          arith,
          length-sort l,
          reaching-sort limit l,
          at-missing limit i (sort l) (sort-IsSorted l) (omega (arith, length-sort l))
              (ground arith),
        ))
    | inr ge ↦ ground arith
  ],
)
