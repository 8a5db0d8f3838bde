-- ===== src/Sessions/Service.antt =====
-- refresh, generateTokens and createSessionForUser of backend/src/modules/auth/auth.service.ts.
use delivery_tracking.Prelude.{
  ℕ, ◌+◌, ◌==◌, ltb, String, Bool, true, false, not, ◌&&◌, Option, none, some, List, [], ◌∷◌, ◌++◌,
  if◌then◌else◌, pure, throw, or_throw, modify, throw_if, transaction, ◌>>=◌, ◌>>◌,
}
use delivery_tracking.Prelude.Table.{find?, update_first, delete_all}
use delivery_tracking.Sessions.Model.{
  User, UserSession, Tokens, Method, invalid_refresh_token, reuse_detected, user_not_found,
  account_deactivated, two_factor_required,
}

abbrev pub has_id : ℕ → UserSession → Bool
has_id id s = s.id == id

abbrev pub is_session_of : ℕ → ℕ → UserSession → Bool
is_session_of id user_id s = s.id == id && s.user_id == user_id

-- A request's clock, the salt and the rest of the payload that its tokens are made with.
pub record Context : Type 0 where
  pub now : ℕ
  pub salt : List ℕ
  pub payload : List ℕ
  pub device : Option String
  pub ip : Option String

abbrev pub find_user : ℕ → User → Bool
find_user id u = u.id == id

abbrev pub matches : Tokens → List ℕ → Option (List ℕ) → Bool
matches c token none = false
matches c token (some h) = c.compare token h

abbrev pub later : ℕ → ℕ → ℕ
later a b = if ltb a b then b else a

module _ (c : Tokens) where
  -- The reuse branch: the row is purged and deleted, and then the exception is thrown.
  abbrev pub revoke_replayed : ℕ → Method User
  revoke_replayed session_id = do
    modify (λ db. record db {
      sessions =
          update_first (has_id session_id)
            (λ s. record s { refresh_token_hash = none; previous_refresh_token_hash = none })
            db.sessions;
    })
    modify (λ db. record db { sessions = delete_all (has_id session_id) db.sessions })
    throw reuse_detected

  -- Neither hash of the session matches.
  abbrev pub is_replayed : List ℕ → List ℕ → UserSession → Bool
  is_replayed token h s =
      not (c.compare token h) && not (matches c token s.previous_refresh_token_hash)

  abbrev pub accept_or_revoke : Bool → ℕ → User → Method User
  accept_or_revoke true session_id user = revoke_replayed session_id
  accept_or_revoke false session_id user = pure user

  -- The body of the transaction of `refresh`.
  unfoldable pub check_session : ℕ → List ℕ → ℕ → Method User
  unfolding find? update_first delete_all
  check_session now token session_id = do
    session ← λ db. or_throw (find? (has_id session_id) db.sessions) invalid_refresh_token db
    user ← λ db. or_throw (find? (find_user session.user_id) db.users) invalid_refresh_token db
    throw_if (not user.is_active) invalid_refresh_token
    h ← or_throw session.refresh_token_hash invalid_refresh_token
    throw_if (ltb session.expires_at now) invalid_refresh_token
    accept_or_revoke (is_replayed token h session) session_id user

-- The lifetime of a refresh token, JWT_REFRESH_EXPIRATION.
module _ (c : Tokens) (lifetime : ℕ) where
  -- The rotation: the current hash becomes the previous one.
  abbrev pub rotate : ℕ → List ℕ → UserSession → UserSession
  rotate now h s = record s {
    previous_refresh_token_hash = s.refresh_token_hash;
    refresh_token_hash = some h;
    last_activity = now;
    expires_at = later s.expires_at (now + lifetime);
  }

  abbrev pub signed : Context → ℕ → List ℕ
  signed x session_id = c.sign session_id x.now x.payload

  -- generateTokens for a session that exists; the refresh token of the answer.
  unfoldable pub generate_tokens : Context → ℕ → ℕ → Method (List ℕ)
  unfolding find? update_first
  generate_tokens x user_id session_id = do
    user ← λ db. or_throw (find? (find_user user_id) db.users) user_not_found db
    let token = signed x session_id
    let h = c.hash x.salt token
    row ← λ db.
        or_throw (find? (is_session_of session_id user_id) db.sessions) invalid_refresh_token db
    modify (λ db. record db {
      sessions = update_first (is_session_of session_id user_id) (rotate x.now h) db.sessions;
    })
    pure token

  abbrev or_invalid : Option (Option ℕ) → Method ℕ
  or_invalid none = throw invalid_refresh_token
  or_invalid (some none) = throw invalid_refresh_token
  or_invalid (some (some session_id)) = pure session_id

  unfoldable pub refresh : Context → List ℕ → Method (List ℕ)
  unfolding check_session generate_tokens
  refresh x token = do
    session_id ← or_invalid (c.verify x.now token)
    user ← transaction (check_session c x.now token session_id)
    generate_tokens x user.id session_id

  -- A session under the key that the database gives, without a token yet.
  abbrev pub new_session : Context → ℕ → ℕ → UserSession
  new_session x id user_id = record {
    id = id;
    user_id = user_id;
    device = x.device;
    ip = x.ip;
    last_activity = x.now;
    expires_at = x.now + lifetime;
    refresh_token_hash = none;
    previous_refresh_token_hash = none;
  }

  unfoldable pub create_session_for_user : Context → ℕ → ℕ → Method (List ℕ)
  unfolding generate_tokens find?
  create_session_for_user x new_id user_id = do
    user ← λ db. or_throw (find? (find_user user_id) db.users) user_not_found db
    throw_if (not user.is_active) account_deactivated
    throw_if user.totp_enabled two_factor_required
    modify (λ db. record db { sessions = db.sessions ++ (new_session x new_id user_id ∷ []) })
    generate_tokens x user_id new_id
