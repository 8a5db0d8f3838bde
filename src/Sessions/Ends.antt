-- ===== src/Sessions/Ends.antt =====
-- How sessions end: logout and resetPassword of backend/src/modules/auth/auth.service.ts, and
-- revokeSession, revokeAllSessions and purgeExpiredSessions of
-- backend/src/modules/sessions/sessions.service.ts. The hashes that some of them purge stand on rows
-- that they delete in the next statement. The legacy hash on the user's row, the revocation of access
-- tokens and the audit log are left out.
use delivery_tracking.Prelude.{
  ℕ, ◌==◌, ltb, Bool, not, ◌&&◌, Option, none, some, List, is_value, pure, or_throw, modify,
  throw_if, ◌>>=◌, ◌>>◌,
}
use delivery_tracking.Prelude.Table.{find?, update_first, update_all, delete_all}
use delivery_tracking.Sessions.Model.{
  User, UserSession, Tokens, Method, session_not_found, not_your_session, bad_reset_link,
}
use delivery_tracking.Sessions.Service.{has_id, is_session_of, find_user}

abbrev pub purged : UserSession → UserSession
purged s = record s { refresh_token_hash = none }

-- `updateMany` that purges the refresh token, then `deleteMany`.
abbrev pub purge_and_delete : (UserSession → Bool) → Method (Unit {0})
purge_and_delete test = do
  modify (λ db. record db { sessions = update_all test purged db.sessions })
  modify (λ db. record db { sessions = delete_all test db.sessions })

-- Without a session only the legacy hash of the user is purged.
unfoldable pub logout : ℕ → Option ℕ → Method (Unit {0})
unfolding update_all delete_all
logout user_id none = pure tt
logout user_id (some session_id) = purge_and_delete (is_session_of session_id user_id)

unfoldable pub revoke_session : ℕ → ℕ → Method (Unit {0})
unfolding find? update_all delete_all
revoke_session user_id session_id = do
  session ← λ db. or_throw (find? (has_id session_id) db.sessions) session_not_found db
  throw_if (not (session.user_id == user_id)) not_your_session
  purge_and_delete (has_id session_id)

-- The user's sessions, but for one that is kept.
abbrev pub is_revoked : ℕ → Option ℕ → UserSession → Bool
is_revoked user_id except s = s.user_id == user_id && not (is_value except s.id)

unfoldable pub revoke_all_sessions : ℕ → Option ℕ → Method (Unit {0})
unfolding update_all delete_all
revoke_all_sessions user_id except = purge_and_delete (is_revoked user_id except)

unfoldable pub purge_expired_sessions : ℕ → Method (Unit {0})
unfolding delete_all
purge_expired_sessions now =
    modify (λ db. record db { sessions = delete_all (λ s. ltb s.expires_at now) db.sessions })

abbrev pub set_password : List ℕ → User → User
set_password password_hash u = record u {
  password_hash = password_hash;
  reset_token_id = none;
  reset_token_hash = none;
  reset_token_expiry = none;
}

-- The token of the link, cut at its colon, and the hash of the new password.
unfoldable pub reset_password : Tokens → ℕ → Option (ℕ × List ℕ) → List ℕ → Method (Unit {0})
unfolding find? update_first update_all delete_all
reset_password c now link password_hash = do
  parts ← or_throw link bad_reset_link
  let (token_id, secret) = parts
  user ← λ db. or_throw (find? (λ u. is_value u.reset_token_id token_id) db.users) bad_reset_link db
  h ← or_throw user.reset_token_hash bad_reset_link
  expiry ← or_throw user.reset_token_expiry bad_reset_link
  throw_if (ltb expiry now) bad_reset_link
  throw_if (not (c.compare secret h)) bad_reset_link
  modify (λ db. record db {
    users = update_first (find_user user.id) (set_password password_hash) db.users;
  })
  purge_and_delete (λ s. s.user_id == user.id)
