-- ===== src/Encryption/Middleware.antt =====
-- PrismaEncryptionMiddleware of backend/src/common/encryption/prisma-encryption.middleware.ts. A
-- row is a function from the names of its fields; a query's rows stand in a list, also where the
-- result is one row.
use delivery_tracking.Prelude.{
  ℕ, Option, none, some, Bool, true, false, ◌&&◌, ◌==◌, if◌then◌else◌, List, [], ◌∷◌, any, map,
}
use delivery_tracking.Encryption.Hex.{Text, colon}
use delivery_tracking.Encryption.Service.{Cipher, encrypt, decrypt, is_enabled}

pub data Model : Type 0 where
  user company driver delivery platform_admin webhook other_model : Model

pub data FieldName : Type 0 where
  phone totp_secret address pickup_address delivery_address secret other_field : FieldName

-- The fields that SENSITIVE_FIELDS has for the model.
abbrev pub sensitive_fields : Model → List FieldName
sensitive_fields user = phone ∷ totp_secret ∷ []
sensitive_fields company = phone ∷ address ∷ []
sensitive_fields driver = phone ∷ []
sensitive_fields delivery = pickup_address ∷ delivery_address ∷ []
sensitive_fields platform_admin = totp_secret ∷ []
sensitive_fields webhook = secret ∷ []
sensitive_fields other_model = []

-- What a property holds: nothing, a text, or what is no text, such as a nested row.
pub data Value : Type 0 where
  absent : Value
  text : Text → Value
  other : Value

abbrev pub Row : Type 0
Row = FieldName → Value

pub data Operation : Type 0 where
  create create_many update update_many upsert delete : Operation
  find_unique find_first find_many find_first_or_throw find_unique_or_throw count : Operation

abbrev pub is_write_action : Operation → Bool
is_write_action create = true
is_write_action update = true
is_write_action update_many = true
is_write_action upsert = true
is_write_action _ = false

abbrev pub is_read_action : Operation → Bool
is_read_action find_unique = true
is_read_action find_first = true
is_read_action find_many = true
is_read_action find_first_or_throw = true
is_read_action find_unique_or_throw = true
is_read_action _ = false

-- The properties `create`, `update` and `data` of the arguments of a query.
pub record Args : Type 0 where
  pub create : Option Row
  pub update : Option Row
  pub payload : Option Row

abbrev number : FieldName → ℕ
number phone = 0
number totp_secret = 1
number address = 2
number pickup_address = 3
number delivery_address = 4
number secret = 5
number other_field = 6

abbrev pub put : Row → FieldName → Value → Row
put row f v g = if number g == number f then v else row g

module _ (cipher : Cipher) (key : Option Text) where
  abbrev text_or : Option Text → Value → Value
  text_or none v = v
  text_or (some t) v = text t

  -- A text that is not empty is encrypted, unless that fails; what is no text makes it fail.
  abbrev pub encrypt_value : Text → Value → Value
  encrypt_value iv absent = absent
  encrypt_value iv (text []) = text []
  encrypt_value iv (text (c ∷ cs)) = text_or (encrypt cipher key iv (c ∷ cs)) (text (c ∷ cs))
  encrypt_value iv other = other

  -- A text with a colon is decrypted, unless that fails.
  abbrev pub decrypt_value : Value → Value
  decrypt_value absent = absent
  decrypt_value (text t) =
      if any (λ c. c == colon) t then text_or (decrypt cipher key t) (text t) else text t
  decrypt_value other = other

  -- The loop over the fields of one target; each field has its random vector.
  unfoldable pub encrypt_fields : (FieldName → Text) → List FieldName → Row → Row
  encrypt_fields ivs [] row = row
  encrypt_fields ivs (f ∷ fs) row =
      encrypt_fields ivs fs (put row f (encrypt_value (ivs f) (row f)))

  unfoldable pub decrypt_fields : List FieldName → Row → Row
  decrypt_fields [] row = row
  decrypt_fields (f ∷ fs) row = decrypt_fields fs (put row f (decrypt_value (row f)))

  abbrev pub encrypt_target : (FieldName → Text) → Model → Option Row → Option Row
  encrypt_target ivs m none = none
  encrypt_target ivs m (some row) = some (encrypt_fields ivs (sensitive_fields m) row)

  -- The targets are `create` and `update` if there is a `create`, else `data`.
  abbrev pub encrypt_targets :
      (FieldName → Text) → (FieldName → Text) → Model → Option Row → Args → Args
  encrypt_targets ivs more m none args = record args { payload = encrypt_target ivs m args.payload }
  encrypt_targets ivs more m (some row) args = record args {
    create = encrypt_target ivs m (some row);
    update = encrypt_target more m args.update;
  }

  -- The arguments that a query is run with.
  unfoldable pub before_query :
      (FieldName → Text) → (FieldName → Text) → Operation → Model → Args → Args
  unfolding encrypt_fields
  before_query ivs more action m args =
      if is_enabled cipher key && is_write_action action
      then encrypt_targets ivs more m args.create args
      else args

  -- The rows that the caller gets.
  unfoldable pub after_query : Operation → Model → List Row → List Row
  unfolding decrypt_fields
  after_query action m rows =
      if is_enabled cipher key && is_read_action action
      then map (decrypt_fields (sensitive_fields m)) rows
      else rows
