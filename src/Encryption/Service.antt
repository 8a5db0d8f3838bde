-- ===== src/Encryption/Service.antt =====
-- EncryptionService of backend/src/common/encryption/encryption.service.ts. The cipher of the
-- crypto module is a parameter; the key that scrypt derives and the random bytes are arguments. An
-- exception is `none`, as `encrypt` and `decrypt` return null for it.
use delivery_tracking.Prelude.{
  Option, none, some, Bool, not, is_none, ◌≡◌, List, [], ◌∷◌, ◌++◌, All,
}
use delivery_tracking.Encryption.Hex.{Text, colon, to_hex, from_hex, split, IsByte}

-- What createCipheriv returns: the tag and the bytes.
pub record Sealed : Type 0 where
  pub tag : Text
  pub bytes : Text

-- AES-256-GCM. What was encrypted under a key and a vector is decrypted under them, and the cipher
-- gives bytes.
pub record Cipher : Type 0 where
  pub seal : Text → Text → Text → Option Sealed
  pub unseal : Text → Text → Text → Text → Option Text
  pub unseal-seal :
      (key iv text : Text) (s : Sealed)
      → seal key iv text ≡ some s
      → unseal key iv s.tag s.bytes ≡ some text
  pub gives_bytes :
      (key iv text : Text) (s : Sealed)
      → seal key iv text ≡ some s
      → All IsByte s.tag × All IsByte s.bytes

module _ (cipher : Cipher) (key : Option Text) where
  abbrev pub joined : Text → Sealed → Text
  joined iv s = to_hex iv ++ (colon ∷ (to_hex s.tag ++ (colon ∷ to_hex s.bytes)))

  abbrev joined_of : Text → Option Sealed → Option Text
  joined_of iv none = none
  joined_of iv (some s) = some (joined iv s)

  unfoldable pub encrypt : Text → Text → Option Text
  encrypt iv plaintext = elim key [
    | none ↦ none
    | some k ↦ joined_of iv (cipher.seal k iv plaintext)
  ]

  abbrev opened : Text → List Text → Option Text
  opened k [] = none
  opened k (a ∷ []) = none
  opened k (a ∷ b ∷ []) = none
  opened k (a ∷ b ∷ c ∷ []) = cipher.unseal k (from_hex a) (from_hex b) (from_hex c)
  opened k (a ∷ b ∷ c ∷ d ∷ ps) = none

  unfoldable pub decrypt : Text → Option Text
  decrypt ciphertext = elim key [ none ↦ none | some k ↦ opened k (split ciphertext) ]

  abbrev pub is_enabled : Bool
  is_enabled = not (is_none key)
