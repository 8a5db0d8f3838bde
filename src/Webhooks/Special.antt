-- ===== src/Webhooks/Special.antt =====
-- The refused addresses, by their octets.
use delivery_tracking.Prelude.{
  ℕ, ◌==◌, ◌≡◌, refl, leb, ◌≤◌, Bool, ◌&&◌, some, List, [], ◌∷◌, any, arith,
}
use delivery_tracking.Webhooks.Address.{ipv4_to_int, quad, is_in_cidr, is_blocked_v4}

abbrev between : ℕ → ℕ → ℕ → Bool
between m n x = leb m x && leb x n

-- The special addresses: this host, private, shared, loopback, link-local, private, protocol
-- assignments, tests, private, benchmarks, tests, tests, multicast and reserved.
abbrev pub is_special : (a b c : ℕ) → Bool
is_special a b c =
    any (λ t. t)
      ((a == 0)
        ∷ (a == 10)
        ∷ (a == 100 && between 64 127 b)
        ∷ (a == 127)
        ∷ (a == 169 && b == 254)
        ∷ (a == 172 && between 16 31 b)
        ∷ (a == 192 && (b == 0 && c == 0))
        ∷ (a == 192 && (b == 0 && c == 2))
        ∷ (a == 192 && b == 168)
        ∷ (a == 198 && between 18 19 b)
        ∷ (a == 198 && (b == 51 && c == 100))
        ∷ (a == 203 && (b == 0 && c == 113))
        ∷ (between 224 239 a)
        ∷ (between 240 255 a)
        ∷ [])

module _ (a b c d : ℕ) (a_byte : a ≤ 255) (b_byte : b ≤ 255) (c_byte : c ≤ 255)
    (d_byte : d ≤ 255) where
  this_host : is_in_cidr (quad a b c d) (quad 0 0 0 0, 8) ≡ (a == 0)
  this_host = ground (arith, a_byte, b_byte, c_byte, d_byte)

  private_10 : is_in_cidr (quad a b c d) (quad 10 0 0 0, 8) ≡ (a == 10)
  private_10 = ground (arith, a_byte, b_byte, c_byte, d_byte)

  shared : is_in_cidr (quad a b c d) (quad 100 64 0 0, 10) ≡ (a == 100 && between 64 127 b)
  shared = ground (arith, a_byte, b_byte, c_byte, d_byte)

  loopback : is_in_cidr (quad a b c d) (quad 127 0 0 0, 8) ≡ (a == 127)
  loopback = ground (arith, a_byte, b_byte, c_byte, d_byte)

  link_local : is_in_cidr (quad a b c d) (quad 169 254 0 0, 16) ≡ (a == 169 && b == 254)
  link_local = ground (arith, a_byte, b_byte, c_byte, d_byte)

  private_172 : is_in_cidr (quad a b c d) (quad 172 16 0 0, 12) ≡ (a == 172 && between 16 31 b)
  private_172 = ground (arith, a_byte, b_byte, c_byte, d_byte)

  assignments : is_in_cidr (quad a b c d) (quad 192 0 0 0, 24) ≡ (a == 192 && (b == 0 && c == 0))
  assignments = ground (arith, a_byte, b_byte, c_byte, d_byte)

  tests_192 : is_in_cidr (quad a b c d) (quad 192 0 2 0, 24) ≡ (a == 192 && (b == 0 && c == 2))
  tests_192 = ground (arith, a_byte, b_byte, c_byte, d_byte)

  private_192 : is_in_cidr (quad a b c d) (quad 192 168 0 0, 16) ≡ (a == 192 && b == 168)
  private_192 = ground (arith, a_byte, b_byte, c_byte, d_byte)

  benchmarks : is_in_cidr (quad a b c d) (quad 198 18 0 0, 15) ≡ (a == 198 && between 18 19 b)
  benchmarks = ground (arith, a_byte, b_byte, c_byte, d_byte)

  tests_198 :
      is_in_cidr (quad a b c d) (quad 198 51 100 0, 24) ≡ (a == 198 && (b == 51 && c == 100))
  tests_198 = ground (arith, a_byte, b_byte, c_byte, d_byte)

  tests_203 : is_in_cidr (quad a b c d) (quad 203 0 113 0, 24) ≡ (a == 203 && (b == 0 && c == 113))
  tests_203 = ground (arith, a_byte, b_byte, c_byte, d_byte)

  multicast : is_in_cidr (quad a b c d) (quad 224 0 0 0, 4) ≡ (between 224 239 a)
  multicast = ground (arith, a_byte, b_byte, c_byte, d_byte)

  reserved : is_in_cidr (quad a b c d) (quad 240 0 0 0, 4) ≡ (between 240 255 a)
  reserved = ground (arith, a_byte, b_byte, c_byte, d_byte)

  -- A text that reads as four octets is refused as an IPv4 address exactly if the octets are those of
  -- this host, a private, shared, loopback or link-local address, a protocol assignment, a test or
  -- benchmark network, or a multicast or reserved address.
  pub is_blocked_v4-is_special :
      (ip : List ℕ) → ipv4_to_int ip ≡ some (quad a b c d) → is_blocked_v4 ip ≡ is_special a b c
  unfolding is_blocked_v4
  is_blocked_v4-is_special ip e =
      rw
        (
          e, this_host, private_10, shared, loopback, link_local, private_172, assignments,
          tests_192, private_192, benchmarks, tests_198, tests_203, multicast, reserved,
        )
        refl
