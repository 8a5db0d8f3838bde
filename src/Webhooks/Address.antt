-- ===== src/Webhooks/Address.antt =====
-- The IPv4 addresses that backend/src/modules/webhooks/webhook-url-validator.ts refuses. A text is a
-- list of its codes. Of what `Number` reads, only digits are modelled: the callers pass no other
-- parts.
use delivery_tracking.Prelude.{
  ℕ, ◌+◌, ◌*◌, ◌-◌, ◌%◌, ◌^◌, ◌==◌, leb, Bool, true, ◌&&◌, Option, none, some, List, [], ◌∷◌, any,
  if◌then◌else◌,
}

abbrev dot : ℕ
dot = 46

-- A character before the first part of a split text.
abbrev before_first : ℕ → List (List ℕ) → List (List ℕ)
before_first c [] = (c ∷ []) ∷ []
before_first c (p ∷ ps) = (c ∷ p) ∷ ps

-- `split('.')`.
unfoldable pub split_dots : List ℕ → List (List ℕ)
split_dots [] = [] ∷ []
split_dots (c ∷ cs) =
    let rest = split_dots cs in if c == dot then [] ∷ rest else before_first c rest

-- The number of some digits after a number.
unfoldable pub number_after : ℕ → List ℕ → Option ℕ
number_after n [] = some n
number_after n (c ∷ cs) =
    let rest = number_after (n * 10 + (c - 48)) cs in if leb 48 c && leb c 57 then rest else none

abbrev pub octet : List ℕ → Option ℕ
octet p = elim (number_after 0 p) [ none ↦ none | some n ↦ if leb n 255 then some n else none ]

-- `(n << 8) | o` on each part, which no octet lets overflow.
unfoldable pub octets_after : ℕ → List (List ℕ) → Option ℕ
octets_after n [] = some n
octets_after n (p ∷ ps) = elim (octet p) [ none ↦ none | some o ↦ octets_after (n * 256 + o) ps ]

abbrev if_four : List (List ℕ) → Option ℕ
if_four (a ∷ (b ∷ (c ∷ (d ∷ [])))) = octets_after 0 (a ∷ (b ∷ (c ∷ (d ∷ []))))
if_four ps = none

unfoldable pub ipv4_to_int : List ℕ → Option ℕ
ipv4_to_int ip = if_four (split_dots ip)

abbrev pub quad : (a b c d : ℕ) → ℕ
quad a b c d = a * 16777216 + (b * 65536 + (c * 256 + d))

-- Each with its first address and the number of bits that are fixed.
abbrev pub blocked_v4_cidrs : List (ℕ × ℕ)
blocked_v4_cidrs =
    (quad 0 0 0 0, 8)
    ∷ (quad 10 0 0 0, 8)
    ∷ (quad 100 64 0 0, 10)
    ∷ (quad 127 0 0 0, 8)
    ∷ (quad 169 254 0 0, 16)
    ∷ (quad 172 16 0 0, 12)
    ∷ (quad 192 0 0 0, 24)
    ∷ (quad 192 0 2 0, 24)
    ∷ (quad 192 168 0 0, 16)
    ∷ (quad 198 18 0 0, 15)
    ∷ (quad 198 51 100 0, 24)
    ∷ (quad 203 0 113 0, 24)
    ∷ (quad 224 0 0 0, 4)
    ∷ (quad 240 0 0 0, 4)
    ∷ []

-- `n & mask` for the mask of the first bits of 32: the others are cleared.
abbrev pub masked : ℕ → ℕ → ℕ
masked n bits = n - n % 2 ^ (32 - bits)

abbrev pub is_in_cidr : ℕ → ℕ × ℕ → Bool
is_in_cidr addr (base, bits) = masked addr bits == masked base bits

abbrev pub is_blocked_addr : Option ℕ → Bool
is_blocked_addr none = true
is_blocked_addr (some addr) = any (is_in_cidr addr) blocked_v4_cidrs

unfoldable pub is_blocked_v4 : List ℕ → Bool
is_blocked_v4 ip = is_blocked_addr (ipv4_to_int ip)
