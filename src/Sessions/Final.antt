-- ===== src/Sessions/Final.antt =====
-- The ends of a session are final.
use delivery_tracking.Prelude.{
  ℕ, ◌==◌, ==_iff, ◌≡◌, refl, Bool, true, none, some, List, [], ◌∷◌, ok, err, All, arith, ap, inl,
  inr, is_value, Bool-cases,
}
use delivery_tracking.Prelude.Table.{find?, update_all, delete_all}
use delivery_tracking.Sessions.Model.{User, UserSession, Db, Tokens, invalid_refresh_token}
use delivery_tracking.Sessions.Service.{Context, has_id, is_session_of, refresh}
use delivery_tracking.Sessions.Ends.{logout, reset_password, purged}
use delivery_tracking.Sessions.Requests.{Request, logs_out, resets, serve, serve_all}
use delivery_tracking.Sessions.Gone.{IsGone, GivesOtherKey, refresh-refuses_gone}

-- The session under the key is the user's, if there is one.
abbrev pub IsOwned : ℕ → ℕ → Db → Type 0
IsOwned id user_id db = All (λ s. s.id ≡ id → s.user_id ≡ user_id) db.sessions

module _ (id user_id : ℕ) where
  none-purged :
      (test : UserSession → Bool)
      → ((s : UserSession) → test (purged s) ≡ test s)
      → ((s : UserSession) → s.id ≡ id → s.user_id ≡ user_id → test s ≡ true)
      → (ss : List UserSession) → All (λ s. s.id ≡ id → s.user_id ≡ user_id) ss
      → find? (has_id id) (delete_all test (update_all test purged ss)) ≡ none
  unfolding find? update_all delete_all
  none-purged test k t [] o = refl
  none-purged test k t (s ∷ ss) o = elim (Bool-cases (test s)) [
    | inl e ↦ ground (arith, e, k s, none-purged test k t ss o.1)
    | inr e ↦ ground (arith, e, k s, t s, o.0, ==_iff s.id id, none-purged test k t ss o.1)
  ]

  logout-IsGone_owned :
      (db : Db) → IsOwned id user_id db → IsGone id (logout user_id (some id) db).1
  unfolding logout
  logout-IsGone_owned db o =
      none-purged (is_session_of id user_id) (λ s. refl) (λ s e k. ground (arith, e, k)) db.sessions
        o

  -- After a user logged out of a session, every refresh with a token of that session is refused,
  -- whatever requests came between, if none of them creates a session under its key.
  pub refresh-refuses_logged_out :
      (c : Tokens) (lifetime : ℕ) (db : Db) (rs : List Request) (x : Context) (token : List ℕ)
      → IsOwned id user_id db
      → All (GivesOtherKey id) rs
      → c.verify x.now token ≡ some (some id)
      → (refresh c lifetime x token (serve_all c lifetime (logs_out user_id (some id) ∷ rs) db)).0
        ≡ err invalid_refresh_token
  unfolding serve
  refresh-refuses_logged_out c lifetime db rs x token o n v =
      ap (λ p. p.0)
        (refresh-refuses_gone id c lifetime (logout user_id (some id) db).1 rs x token n v
          (logout-IsGone_owned db o))

module _ (c : Tokens) (lifetime : ℕ) (db : Db) (id : ℕ) (u : User) (now token_id : ℕ)
    (secret password_hash : List ℕ)
    (f : find? (λ u. is_value u.reset_token_id token_id) db.users ≡ some u)
    (done : (reset_password c now (some (token_id, secret)) password_hash db).0 ≡ ok tt) where
  reset_password-IsGone_owned :
      IsOwned id u.id db
      → IsGone id (reset_password c now (some (token_id, secret)) password_hash db).1
  unfolding reset_password
  reset_password-IsGone_owned o = ground (
    arith,
    done,
    f,
    none-purged id u.id (λ (s : UserSession). s.user_id == u.id) (λ (s : UserSession). refl)
        (λ (s : UserSession) (e : s.id ≡ id) (k : s.user_id ≡ u.id). (==_iff s.user_id u.id).1 k)
        db.sessions o,
  )

  -- After a password was reset, every refresh with a token of one of the user's sessions is refused,
  -- whatever requests came between, if none of them creates a session under its key.
  pub refresh-refuses_reset :
      (rs : List Request) (x : Context) (token : List ℕ)
      → IsOwned id u.id db
      → All (GivesOtherKey id) rs
      → c.verify x.now token ≡ some (some id)
      → (refresh c lifetime x token
          (serve_all c lifetime (resets now (some (token_id, secret)) password_hash ∷ rs) db)).0
        ≡ err invalid_refresh_token
  unfolding serve
  refresh-refuses_reset rs x token o n v =
      ap (λ p. p.0)
        (refresh-refuses_gone id c lifetime
          (reset_password c now (some (token_id, secret)) password_hash db).1 rs x token n v
          (reset_password-IsGone_owned o))
