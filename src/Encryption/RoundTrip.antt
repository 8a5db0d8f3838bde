-- ===== src/Encryption/RoundTrip.antt =====
-- What is written through the middleware is read back through it.
use mathlib.Core.Path.{fun_ext}
use delivery_tracking.Prelude.{
  Option, none, some, true, ◌≡◌, ◌==◌, refl, ap, ◌∙◌, List, [], ◌∷◌, ◌++◌, All, any, map,
}
use delivery_tracking.Encryption.Hex.{
  Text, colon, to_hex, from_hex, split, IsByte, HasNoColon, from_hex-to_hex, to_hex-HasNoColon,
  split-none, split-colon, any-colon,
}
use delivery_tracking.Encryption.Service.{Sealed, Cipher, joined, encrypt, decrypt}
use delivery_tracking.Encryption.Middleware.{
  Model, FieldName, Value, Row, Operation, Args, sensitive_fields, absent, text, other, user,
  company, driver, delivery, platform_admin, webhook, other_model, phone, totp_secret, address,
  pickup_address, delivery_address, secret, is_write_action, is_read_action, encrypt_value,
  decrypt_value, encrypt_fields, decrypt_fields, encrypt_target, encrypt_targets, before_query,
  after_query,
}

abbrev list_of : Option Row → List Row
list_of none = []
list_of (some r) = r ∷ []

abbrev targets : Option Row → Args → List Row
targets none args = list_of args.payload
targets (some r) args = r ∷ list_of args.update

-- The rows that the arguments of a query carry.
abbrev pub targets_of : Args → List Row
targets_of args = targets args.create args

module _ (cipher : Cipher) (k : Text) where
  decrypt_parts :
      (t a b c : Text)
      → split t ≡ a ∷ b ∷ c ∷ []
      → decrypt cipher (some k) t ≡ cipher.unseal k (from_hex a) (from_hex b) (from_hex c)
  unfolding decrypt
  decrypt_parts t a b c h = rw h

  split-joined :
      (a b c : Text)
      → HasNoColon a
      → HasNoColon b
      → HasNoColon c
      → split (a ++ (colon ∷ (b ++ (colon ∷ c)))) ≡ a ∷ b ∷ c ∷ []
  split-joined a b c x y z =
      split-colon a _ x ∙ ap (λ l. a ∷ l) (split-colon b c y ∙ ap (λ l. b ∷ l) (split-none c z))

  decrypt-joined :
      (iv plain : Text) (s : Sealed)
      → All IsByte iv
      → cipher.seal k iv plain ≡ some s
      → decrypt cipher (some k) (joined cipher (some k) iv s) ≡ some plain
  decrypt-joined iv plain s v e =
      let (t, b) = cipher.gives_bytes k iv plain s e in
      let parts =
        split-joined (to_hex iv) (to_hex s.tag) (to_hex s.bytes) (to_hex-HasNoColon iv v)
          (to_hex-HasNoColon s.tag t) (to_hex-HasNoColon s.bytes b) in
      decrypt_parts _ _ _ _ parts
      ∙ cc (from_hex-to_hex iv v, from_hex-to_hex s.tag t, from_hex-to_hex s.bytes b)
      ∙ cipher.unseal-seal k iv plain s e

  joined-HasColon :
      (iv : Text) (s : Sealed) → any (λ c. c == colon) (joined cipher (some k) iv s) ≡ true
  joined-HasColon iv s = any-colon (to_hex iv) _

  -- The cipher takes every text that is not empty.
  abbrev Takes : Text → Type 0
  Takes plain = (iv : Text) → (s : Sealed) × (cipher.seal k iv plain ≡ some s)

  value-Restores :
      (iv : Text) (v : Value)
      → All IsByte iv
      → ((iv plain : Text) → (s : Sealed) × (cipher.seal k iv plain ≡ some s))
      → decrypt_value cipher (some k) (encrypt_value cipher (some k) iv v) ≡ v
  unfolding encrypt
  value-Restores iv absent b t = refl
  value-Restores iv (text []) b t = refl
  value-Restores iv (text (c ∷ cs)) b t =
      let (s, e) = t iv (c ∷ cs) in
      rw e (rw (joined-HasColon iv s) (rw (decrypt-joined iv (c ∷ cs) s b e) refl))
  value-Restores iv other b t = refl

  -- Every text but the empty one is taken by the cipher.
  module _ (takes : (iv plain : Text) → (s : Sealed) × (cipher.seal k iv plain ≡ some s)) where
    module _ (ivs : FieldName → Text) (bytes : (f : FieldName) → All IsByte (ivs f)) where
      value_at :
          (row : Row) (f : FieldName)
          → decrypt_value cipher (some k) (encrypt_value cipher (some k) (ivs f) (row f)) ≡ row f
      value_at row f = value-Restores (ivs f) (row f) (bytes f) takes

      row_at :
          (m : Model) (row : Row) (f : FieldName)
          → decrypt_fields cipher
              (some k)
              (sensitive_fields m)
              (encrypt_fields cipher (some k) ivs (sensitive_fields m) row)
              f
            ≡ row f
      unfolding decrypt_fields encrypt_fields
      row_at user row phone = value_at row phone
      row_at user row totp_secret = value_at row totp_secret
      row_at user row f = refl
      row_at company row phone = value_at row phone
      row_at company row address = value_at row address
      row_at company row f = refl
      row_at driver row phone = value_at row phone
      row_at driver row f = refl
      row_at delivery row pickup_address = value_at row pickup_address
      row_at delivery row delivery_address = value_at row delivery_address
      row_at delivery row f = refl
      row_at platform_admin row totp_secret = value_at row totp_secret
      row_at platform_admin row f = refl
      row_at webhook row secret = value_at row secret
      row_at webhook row f = refl
      row_at other_model row f = refl

      target-Restores :
          (m : Model) (row : Option Row)
          → map
              (decrypt_fields cipher (some k) (sensitive_fields m))
              (list_of (encrypt_target cipher (some k) ivs m row))
            ≡ list_of row
      target-Restores m none = refl
      target-Restores m (some row) = ap (λ r. r ∷ []) (fun_ext (row_at m row))

    targets-Restores :
        (ivs more : FieldName → Text)
        → ((f : FieldName) → All IsByte (ivs f))
        → ((f : FieldName) → All IsByte (more f))
        → (m : Model) (o : Option Row) (args : Args) → args.create ≡ o
        → map
            (decrypt_fields cipher (some k) (sensitive_fields m))
            (targets_of (encrypt_targets cipher (some k) ivs more m o args))
          ≡ targets o args
    targets-Restores ivs more u v m none args e = rw e (target-Restores ivs u m args.payload)
    targets-Restores ivs more u v m (some row) args e =
        cc (fun_ext (row_at ivs u m row), target-Restores more v m args.update)

    -- Rows that are written through the middleware are read back as they were: whatever action
    -- writes them, whatever action reads them, in every field of every model, if there is a key,
    -- the vectors are bytes and the cipher takes every text.
    pub after_query-before_query :
        (ivs more : FieldName → Text)
        → ((f : FieldName) → All IsByte (ivs f))
        → ((f : FieldName) → All IsByte (more f))
        → (a b : Operation) (m : Model) (args : Args) → is_write_action a ≡ true
        → is_read_action b ≡ true
        → after_query cipher
            (some k)
            b
            m
            (targets_of (before_query cipher (some k) ivs more a m args))
          ≡ targets_of args
    unfolding after_query before_query
    after_query-before_query ivs more u v a b m args w r =
        rw (w, r) (targets-Restores ivs more u v m args.create args refl)
