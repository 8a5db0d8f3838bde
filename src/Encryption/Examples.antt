-- ===== src/Encryption/Examples.antt =====
-- The theorem about encryption, at a concrete input.
use mathlib.Core.Path.{subst}
use delivery_tracking.Prelude.{ℕ, zero, suc, none, some, ◌+◌, ◌≡◌, refl, ap, [], ◌∷◌, All, arith}
use delivery_tracking.Encryption.Hex.{Text, IsByte, to_hex}
use delivery_tracking.Encryption.Service.{Sealed, Cipher, encrypt}
use delivery_tracking.Encryption.Middleware.{
  FieldName, phone, totp_secret, text, absent, Row, Args, create, find_first, user, before_query,
  after_query,
}
use delivery_tracking.Encryption.RoundTrip.{targets_of, after_query-before_query}

-- A cipher for the test: a number is that many zeros, and a one.
abbrev zeros : ℕ → Text → Text
zeros zero rest = 1 ∷ rest
zeros (suc n) rest = 0 ∷ zeros n rest

abbrev coded : Text → Text
coded [] = []
coded (c ∷ cs) = zeros c (coded cs)

abbrev decoded : ℕ → Text → Text
decoded n [] = []
decoded n (zero ∷ bs) = decoded (suc n) bs
decoded n (suc b ∷ bs) = n ∷ decoded 0 bs

decoded-zeros : (n c : ℕ) (bs : Text) → decoded n (zeros c bs) ≡ (n + c) ∷ decoded 0 bs
decoded-zeros n zero bs = ground arith
decoded-zeros n (suc c) bs = ground (arith, decoded-zeros (suc n) c bs)

decoded-coded : (t : Text) → decoded 0 (coded t) ≡ t
decoded-coded [] = refl
decoded-coded (c ∷ cs) = ground (arith, decoded-zeros 0 c (coded cs), decoded-coded cs)

zeros-IsByte : (n : ℕ) (bs : Text) → All IsByte bs → All IsByte (zeros n bs)
zeros-IsByte zero bs h = (omega arith, h)
zeros-IsByte (suc n) bs h = (omega arith, zeros-IsByte n bs h)

coded-IsByte : (t : Text) → All IsByte (coded t)
coded-IsByte [] = tt
coded-IsByte (c ∷ cs) = zeros-IsByte c (coded cs) (coded-IsByte cs)

abbrev sealed : Text → Sealed
sealed t = record { tag = []; bytes = coded t }

unsealed : (t : Text) (s : Sealed) → some (sealed t) ≡ some s → some (decoded 0 s.bytes) ≡ some t
unsealed t s e =
    let same : sealed t ≡ s = cc in
    subst (λ (u : Sealed). some (decoded 0 u.bytes) ≡ some t) same (ap some (decoded-coded t))

sealed-IsByte :
    (t : Text) (s : Sealed) → some (sealed t) ≡ some s → All IsByte s.tag × All IsByte s.bytes
sealed-IsByte t s e =
    let same : sealed t ≡ s = cc in
    subst (λ (u : Sealed). All IsByte u.tag × All IsByte u.bytes) same (tt, coded-IsByte t)

abbrev toy : Cipher
toy = record {
  seal = λ key iv t. some (sealed t);
  unseal = λ key iv tag bytes. some (decoded 0 bytes);
  unseal-seal = λ key iv t s e. unsealed t s e;
  gives_bytes = λ key iv t s e. sealed-IsByte t s e;
}

abbrev person : Row
person phone = text (51 ∷ 52 ∷ [])
person totp_secret = text []
person f = absent

abbrev query : Args
query = record { create = none; update = none; payload = some person }

abbrev vector : FieldName → Text
vector f = 171 ∷ 9 ∷ []

stored_phone :
    encrypt toy (some (7 ∷ [])) (171 ∷ []) (1 ∷ [])
    ≡ some (b'a' ∷ b'b' ∷ b':' ∷ b':' ∷ b'0' ∷ b'0' ∷ b'0' ∷ b'1' ∷ [])
unfolding encrypt to_hex
stored_phone = refl

after_query-before_query_example :
    after_query toy
      (some (7 ∷ []))
      find_first
      user
      (targets_of (before_query toy (some (7 ∷ [])) vector vector create user query))
    ≡ targets_of query
after_query-before_query_example =
    after_query-before_query toy (7 ∷ []) (λ iv plain. (sealed plain, refl)) vector vector
      (λ f. omega arith) (λ f. omega arith) create find_first user query refl refl
