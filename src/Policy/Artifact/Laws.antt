-- ===== src/Policy/Artifact/Laws.antt =====
-- Laws of `validate_immutable_artifact`, app/services/deployment_policy.py.
use maoxx_os.Prelude.{
  ℕ, String, ◌≡◌, refl, true, none, some, List, [], ◌∷◌, ◌++◌, ok, arith, codes, all_of, is_hex,
  hex_run, nat_beq, strip_prefix, strip_prefix-append, nat_eq, list_eq, option_eq, ap, inl, inr,
  Bool-cases, Option-cases, ==→≡, ◌==◌, is_alnum,
}
use maoxx_os.Policy.Artifact.{
  digest_pattern, immutable_image_pattern, image_rest, is_image_char, after_last_at,
  validate_immutable_artifact,
}

hex_has_no_at : (s : List ℕ) → all_of is_hex s ≡ true → after_last_at s ≡ none
unfolding all_of after_last_at
hex_has_no_at [] h = refl
hex_has_no_at (c ∷ s) h = ground (arith, hex_has_no_at s)

after_prefix_at :
    (r : List ℕ) → after_last_at r ≡ none → after_last_at (codes "sha256:" ++ r) ≡ none
unfolding after_last_at codes
after_prefix_at r h = simp h

digest_has_no_at : (s : List ℕ) → digest_pattern s ≡ true → after_last_at s ≡ none
unfolding digest_pattern hex_run
digest_has_no_at s h = elim (Option-cases (strip_prefix (codes "sha256:") s)) [
  | inl e ↦ ground arith
  | inr (r, e) ↦
      rw (strip_prefix-append (codes "sha256:") s r e)
        (after_prefix_at r (hex_has_no_at r (ground arith)))
]

-- A text that the tail of the image pattern accepts is a name, an `@` and a digest.
pub record Tail (s name d : List ℕ) : Type 0 where
  pub split : s ≡ name ++ b'@' ∷ d
  pub named : all_of is_image_char name ≡ true
  pub digest : digest_pattern d ≡ true
  pub last : after_last_at s ≡ some d

image_rest-Tail :
    (s : List ℕ) → image_rest s ≡ true → (name : List ℕ) × (d : List ℕ) × Tail s name d
unfolding image_rest after_last_at all_of
image_rest-Tail [] h = cc
image_rest-Tail (c ∷ s) h = elim (Bool-cases (nat_beq c b'@')) [
  | inl at ↦
      let d : digest_pattern s ≡ true = ground arith in
      (
        [],
        s,
        record {
          split = ground arith;
          named = refl;
          digest = d;
          last = ground (arith, digest_has_no_at s d);
        },
      )
  | inr other ↦
      let (name, d, t) = image_rest-Tail s (ground arith) in
      (
        c ∷ name,
        d,
        record {
          split = ap (λ r. c ∷ r) t.split;
          named = ground (arith, t.named);
          digest = t.digest;
          last = ground (arith, t.last);
        },
      )
]

-- An image reference that is pinned to a digest.
pub record IsPinned (image digest : List ℕ) : Type 0 where
  pub name : List ℕ
  pub first : ℕ
  pub split : image ≡ first ∷ name ++ b'@' ∷ digest
  pub begins : is_alnum first ≡ true
  pub named : all_of is_image_char name ≡ true
  pub pinned : digest_pattern digest ≡ true

image-IsPinned :
    (s d : List ℕ) → immutable_image_pattern s ≡ true → after_last_at s ≡ some d → IsPinned s d
unfolding immutable_image_pattern after_last_at
image-IsPinned [] d h e = cc
image-IsPinned (c ∷ s) d h e =
    let (name, d', t) = image_rest-Tail s (ground arith) in
    let same : d' ≡ d = ground (arith, t.last) in
    record {
      name = name;
      first = c;
      split = rw (t.split, same);
      begins = ground arith;
      named = t.named;
      pinned = rw same at t.digest;
    }

validate_checks :
    (digest image : String)
    → validate_immutable_artifact digest image ≡ ok tt
    → (immutable_image_pattern (codes image) ≡ true)
      × ((after_last_at (codes image) == some (codes digest)) ≡ true)
unfolding validate_immutable_artifact
validate_checks digest image h = ground arith

-- An artifact that passes is pinned: the image reference is a name, an `@` and exactly the digest
-- that was asked for, which is `sha256:` and 64 hexadecimal digits.
pub validate_immutable_artifact-IsPinned :
    (digest image : String)
    → validate_immutable_artifact digest image ≡ ok tt
    → IsPinned (codes image) (codes digest)
validate_immutable_artifact-IsPinned digest image h =
    let (p, q) = validate_checks digest image h in
    image-IsPinned (codes image) (codes digest) p
      (==→≡ (after_last_at (codes image)) (some (codes digest)) q)
