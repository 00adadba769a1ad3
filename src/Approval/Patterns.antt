-- ===== src/Approval/Patterns.antt =====
-- The patterns of app/services/approval_service.py.
use maoxx_os.Prelude.{
  ℕ, String, Bool, true, false, ◌&&◌, ◌||◌, Option, none, some, List, [], ◌∷◌, codes, all_of,
  is_alnum, length, leb, nat_beq, nat_eq, list_eq, ◌==◌, if◌then◌else◌,
}

-- `[A-Za-z0-9_.-]`
unfoldable pub is_name_char : ℕ → Bool
is_name_char c = is_alnum c || nat_beq c b'_' || nat_beq c b'.' || nat_beq c b'-'

-- `[A-Za-z0-9](?:[A-Za-z0-9_.-]{0,99})`
unfoldable pub segment_pattern : List ℕ → Bool
segment_pattern [] = false
segment_pattern (c ∷ s) = is_alnum c && leb (length s) 99 && all_of is_name_char s

-- The parts before and behind the first `/`, which no segment holds.
unfoldable pub split_slash : List ℕ → Option (List ℕ × List ℕ)
split_slash [] = none
split_slash (c ∷ s) =
    let rest = split_slash s in
    if nat_beq c b'/'
    then some ([], s)
    else elim rest [ none ↦ none | some (a, b) ↦ some (c ∷ a, b) ]

-- REPOSITORY_PATTERN
unfoldable pub repository_pattern : String → Bool
repository_pattern s = elim (split_slash (codes s)) [
  | none ↦ false
  | some (owner, name) ↦ segment_pattern owner && segment_pattern name
]

-- `text.endswith(suffix)`
unfoldable pub ends_with : List ℕ → List ℕ → Bool
ends_with suffix [] = suffix == []
ends_with suffix (c ∷ s) = let rest = ends_with suffix s in if suffix == c ∷ s then true else rest

-- `[A-Za-z0-9_.:-]`
unfoldable pub is_key_char : ℕ → Bool
is_key_char c = is_name_char c || nat_beq c b':'

-- IDEMPOTENCY_KEY_PATTERN: `^[A-Za-z0-9_.:-]{1,200}$`
unfoldable pub idempotency_key_pattern : String → Bool
idempotency_key_pattern s =
    leb 1 (length (codes s)) && leb (length (codes s)) 200 && all_of is_key_char (codes s)
