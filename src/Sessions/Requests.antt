-- ===== src/Sessions/Requests.antt =====
-- The requests that change sessions, one after the other.
use delivery_tracking.Prelude.{ℕ, Option, List, [], ◌∷◌}
use delivery_tracking.Sessions.Model.{Db, Tokens}
use delivery_tracking.Sessions.Service.{Context, refresh, create_session_for_user}
use delivery_tracking.Sessions.Ends.{
  logout, revoke_session, revoke_all_sessions, purge_expired_sessions, reset_password,
}

-- What the database gives to a request, such as the key of a new row, stands with it.
pub data Request : Type 0 where
  refreshes : Context → List ℕ → Request
  creates : Context → (new_id user_id : ℕ) → Request
  logs_out : ℕ → Option ℕ → Request
  revokes : (user_id session_id : ℕ) → Request
  revokes_all : ℕ → Option ℕ → Request
  purges : ℕ → Request
  resets : ℕ → Option (ℕ × List ℕ) → List ℕ → Request

module _ (c : Tokens) (lifetime : ℕ) where
  -- The database after the request, whatever its answer.
  unfoldable pub serve : Request → Db → Db
  unfolding refresh create_session_for_user logout revoke_session revoke_all_sessions
      purge_expired_sessions reset_password
  serve (refreshes x token) db = (refresh c lifetime x token db).1
  serve (creates x new_id user_id) db = (create_session_for_user c lifetime x new_id user_id db).1
  serve (logs_out user_id session_id) db = (logout user_id session_id db).1
  serve (revokes user_id session_id) db = (revoke_session user_id session_id db).1
  serve (revokes_all user_id except) db = (revoke_all_sessions user_id except db).1
  serve (purges now) db = (purge_expired_sessions now db).1
  serve (resets now link password_hash) db = (reset_password c now link password_hash db).1

  abbrev pub serve_all : List Request → Db → Db
  serve_all [] db = db
  serve_all (r ∷ rs) db = serve_all rs (serve r db)
