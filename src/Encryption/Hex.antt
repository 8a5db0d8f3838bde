-- ===== src/Encryption/Hex.antt =====
-- Texts and bytes as lists of numbers, with the parts of the standard library that
-- backend/src/common/encryption/encryption.service.ts uses: Buffer's hex encoding, join and split
-- at a colon.
use delivery_tracking.Prelude.{
  ℕ, Option, none, some, true, false, ◌&&◌, ◌≡◌, refl, ◌+◌, ◌-◌, ◌*◌, ◌/◌, ◌%◌, ◌<◌, ltb, leb, ◌==◌,
  if◌then◌else◌, List, [], ◌∷◌, ◌++◌, All, any, arith,
}

abbrev pub Text : Type 0
Text = List ℕ

abbrev pub colon : ℕ
colon = b':'

-- The digits 0 to 9 and a to f.
unfoldable pub hex_digit : ℕ → ℕ
hex_digit n = if ltb n 10 then 48 + n else 87 + n

-- Capitals are read too.
unfoldable pub digit_value : ℕ → Option ℕ
digit_value c =
    if leb 48 c && leb c 57
    then some (c - 48)
    else if leb 97 c && leb c 102
    then some (c - 87)
    else if leb 65 c && leb c 70
    then some (c - 55)
    else none

unfoldable pub to_hex : Text → Text
unfolding hex_digit
to_hex [] = []
to_hex (b ∷ bs) = hex_digit (b / 16) ∷ hex_digit (b % 16) ∷ to_hex bs

abbrev pub byte_of : Option ℕ → Option ℕ → Option ℕ
byte_of none l = none
byte_of (some h) none = none
byte_of (some h) (some l) = some (16 * h + l)

-- Reads pairs of digits up to the first pair that is not one.
unfoldable pub from_hex : Text → Text
unfolding digit_value
from_hex [] = []
from_hex (c ∷ []) = []
from_hex (c ∷ d ∷ cs) =
    let rest = from_hex cs in
    elim (byte_of (digit_value c) (digit_value d)) [ none ↦ [] | some b ↦ b ∷ rest ]

-- The parts between the colons; the first part is never missing.
abbrev to_first : ℕ → List Text → List Text
to_first c [] = (c ∷ []) ∷ []
to_first c (p ∷ ps) = (c ∷ p) ∷ ps

unfoldable pub split : Text → List Text
split [] = [] ∷ []
split (c ∷ cs) = if c == colon then [] ∷ split cs else to_first c (split cs)

abbrev pub IsByte : ℕ → Type 0
IsByte b = b < 256

abbrev pub HasNoColon : Text → Type 0
HasNoColon = All (λ c. (c == colon) ≡ false)

digit_value-hex : (n : ℕ) → n < 16 → digit_value (hex_digit n) ≡ some n
unfolding digit_value hex_digit
digit_value-hex n h = ground arith

hex-not_colon : (n : ℕ) → n < 16 → (hex_digit n == colon) ≡ false
unfolding hex_digit
hex-not_colon n h = ground arith

pub from_hex-to_hex : (bs : Text) → All IsByte bs → from_hex (to_hex bs) ≡ bs
unfolding from_hex to_hex
from_hex-to_hex [] h = refl
from_hex-to_hex (b ∷ bs) h = ground (
  arith,
  digit_value-hex (b / 16) (omega arith),
  digit_value-hex (b % 16) (omega arith),
  from_hex-to_hex bs h.1,
)

pub to_hex-HasNoColon : (bs : Text) → All IsByte bs → HasNoColon (to_hex bs)
unfolding to_hex
to_hex-HasNoColon [] h = tt
to_hex-HasNoColon (b ∷ bs) h = (
  hex-not_colon (b / 16) (omega arith),
  (hex-not_colon (b % 16) (omega arith), to_hex-HasNoColon bs h.1),
)

pub split-none : (t : Text) → HasNoColon t → split t ≡ t ∷ []
unfolding split
split-none [] h = refl
split-none (c ∷ t) h = ground (arith, split-none t h.1)

pub split-colon : (t u : Text) → HasNoColon t → split (t ++ (colon ∷ u)) ≡ t ∷ split u
unfolding split
split-colon [] u h = refl
split-colon (c ∷ t) u h = ground (arith, split-colon t u h.1)

pub any-colon : (t u : Text) → any (λ c. c == colon) (t ++ (colon ∷ u)) ≡ true
any-colon [] u = refl
any-colon (c ∷ t) u = ground (arith, any-colon t u)
