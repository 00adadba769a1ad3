-- ===== src/Policy/Artifact.antt =====
-- The patterns of app/services/deployment_policy.py, and `validate_immutable_artifact`.
pub mod Laws
use maoxx_os.Prelude.{
  ℕ, String, Bool, true, false, ◌&&◌, ◌||◌, Option, none, some, List, [], ◌∷◌, Result, ok,
  policy_error, ◌>>◌, raise_if, not, codes, hex_run, is_alnum, strip_prefix, nat_beq, ◌!=◌, list_eq,
  nat_eq, option_eq, if◌then◌else◌,
}

-- `^sha256:[0-9a-f]{64}$`
unfoldable pub digest_pattern : List ℕ → Bool
digest_pattern s = elim (strip_prefix (codes "sha256:") s) [ none ↦ false | some r ↦ hex_run 64 r ]

-- `^[0-9a-f]{40}$`
unfoldable pub sha_pattern : String → Bool
sha_pattern s = hex_run 40 (codes s)

-- `^[0-9a-f]{64}$`
unfoldable pub fingerprint_pattern : String → Bool
fingerprint_pattern s = hex_run 64 (codes s)

-- `[A-Za-z0-9._/:\-]`
unfoldable pub is_image_char : ℕ → Bool
is_image_char c =
    is_alnum c
    || nat_beq c b'.'
    || nat_beq c b'_'
    || nat_beq c b'/'
    || nat_beq c b':'
    || nat_beq c b'-'

-- `[A-Za-z0-9._/:\-]*@sha256:[0-9a-f]{64}`; the class does not hold `@`
unfoldable pub image_rest : List ℕ → Bool
image_rest [] = false
image_rest (c ∷ s) =
    let rest = image_rest s in
    if nat_beq c b'@' then digest_pattern s else if is_image_char c then rest else false

-- `^[A-Za-z0-9][A-Za-z0-9._/:\-]*@sha256:[0-9a-f]{64}$`
unfoldable pub immutable_image_pattern : List ℕ → Bool
unfolding image_rest is_image_char
immutable_image_pattern [] = false
immutable_image_pattern (c ∷ s) = is_alnum c && image_rest s

-- `text.rsplit("@", 1)[1]`, where the text holds an `@`
unfoldable pub after_last_at : List ℕ → Option (List ℕ)
after_last_at [] = none
after_last_at (c ∷ s) =
    let rest = after_last_at s in
    elim rest [ some r ↦ some r | none ↦ if nat_beq c b'@' then some s else none ]

unfoldable pub validate_immutable_artifact : String → String → Result (Unit {0})
validate_immutable_artifact digest image_reference =
    raise_if (not (digest_pattern (codes digest))) (policy_error "invalid artifact digest")
    >> raise_if (not (immutable_image_pattern (codes image_reference)))
        (policy_error "mutable image reference is forbidden")
    >> raise_if (after_last_at (codes image_reference) != some (codes digest))
        (policy_error "image reference digest mismatch")
