-- ===== src/Prelude/Platform.antt =====
-- What the program takes from Python's library: the text of a UUID, times, dicts, and SHA-256.
use Prim.Native.Nat.{ℕ, zero, suc, ◌*◌, ◌/◌, ◌%◌, ◌^◌}
use Prim.Native.String.{String, ◌++◌ as ◌<>◌}
use mathlib.Core.Path.{◌≡◌, refl, ap}
use mathlib.Core.Logic.{◌↔◌}
use native.Mathlib.Omega.{arith}
use mathlib.Core.Bool.{Bool, true, false, ◌&&◌}
use mathlib.Core.Option.{Option, none, some}
use mathlib.Core.List.{List, [], ◌∷◌}
use maoxx_os.Prelude.Tests.{nat_beq, if◌then◌else◌}
use maoxx_os.Prelude.Equality.{Eq, ◌==◌, string_eq, option_eq, ==→≡, ==_refl}
use maoxx_os.Prelude.Lists.{length, all_of}
use maoxx_os.Prelude.Text.{codes, hex_run}

-- A UUID is its 128-bit number.
abbrev pub Uuid : Type 0
Uuid = ℕ

-- A `datetime` with its zone is the number of microseconds since an epoch.
abbrev pub Time : Type 0
Time = ℕ

-- `timedelta(seconds=n)`
abbrev pub seconds : ℕ → ℕ
seconds n = n * 1000000

abbrev nth : List String → ℕ → String
nth [] i = ""
nth (s ∷ ss) zero = s
nth (s ∷ ss) (suc i) = nth ss i

hex_digit : ℕ → String
hex_digit = nth (
    "0" ∷ "1" ∷ "2" ∷ "3" ∷ "4" ∷ "5" ∷ "6" ∷ "7" ∷ "8" ∷ "9" ∷ "a" ∷ "b" ∷ "c" ∷ "d" ∷ "e" ∷ "f"
    ∷ [])

hex_text : ℕ → ℕ → String
unfolding hex_digit
hex_text zero n = ""
hex_text (suc w) n = hex_text w (n / 16) <> hex_digit (n % 16)

-- `str(uuid)`
unfoldable pub uuid_text : Uuid → String
unfolding hex_text
uuid_text u =
    hex_text 8 (u / 2 ^ 96)
    <> "-"
    <> hex_text 4 (u / 2 ^ 80 % 2 ^ 16)
    <> "-"
    <> hex_text 4 (u / 2 ^ 64 % 2 ^ 16)
    <> "-"
    <> hex_text 4 (u / 2 ^ 48 % 2 ^ 16)
    <> "-"
    <> hex_text 12 (u % 2 ^ 48)

abbrev pub Dict {ℓ} : Type ℓ → Type ℓ
Dict V = List (String × V)

-- `d.get(k)`
unfoldable pub dict_get {ℓ} : {V : Type ℓ} → String → Dict V → Option V
dict_get k [] = none
dict_get k ((j, v) ∷ d) = if k == j then some v else dict_get k d

-- `a == b` of two dicts, whose keys are unique
unfoldable pub dict_beq {ℓ} : {V : Type ℓ} ⦃e : Eq V⦄ → Dict V → Dict V → Bool
dict_beq a b = nat_beq (length a) (length b) && all_of (λ kv. dict_get kv.0 b == some kv.1) a

-- The values of a JSON payload that the program writes or compares.
pub data Json : Type 0 where
  text : String → Json
  number : ℕ → Json
  flag : Bool → Json
  null : Json

unfoldable pub json_beq : Json → Json → Bool
json_beq (text s) (text t) = s == t
json_beq (number m) (number n) = nat_beq m n
json_beq (flag true) (flag true) = true
json_beq (flag false) (flag false) = true
json_beq null null = true
json_beq _ _ = false

abbrev pub Payload : Type 0
Payload = Dict Json

json_beq_sound : (a b : Json) → json_beq a b ≡ true → a ≡ b
unfolding json_beq
json_beq_sound (text s) (text t) h = ap text (==→≡ s t h)
json_beq_sound (number m) (number n) h = ground arith
json_beq_sound (flag true) (flag true) h = refl
json_beq_sound (flag false) (flag false) h = refl
json_beq_sound null null h = refl
json_beq_sound _ _ h = absurd (cc)

json_beq_refl : (a : Json) → json_beq a a ≡ true
unfolding json_beq
json_beq_refl (text s) = ==_refl s
json_beq_refl (number m) = ground arith
json_beq_refl (flag true) = refl
json_beq_refl (flag false) = refl
json_beq_refl null = refl

pub json_beq_iff : (a b : Json) → (json_beq a b ≡ true) ↔ (a ≡ b)
json_beq_iff a b = (json_beq_sound a b, λ (p : a ≡ b). rw p (json_beq_refl b))

instance abbrev pub json_eq : Eq Json
json_eq = record { test = json_beq; test_iff = json_beq_iff }

unfoldable pub payload_beq : Payload → Payload → Bool
unfolding json_beq dict_beq dict_get
payload_beq a b = dict_beq a b

-- `hashlib.sha256(text.encode()).hexdigest()`, which the program does not implement; it relies on
-- the form of the digest.
pub record Hashing : Type 0 where
  pub sha256_hex : String → String
  pub digest_form : (s : String) → hex_run 64 (codes (sha256_hex s)) ≡ true
