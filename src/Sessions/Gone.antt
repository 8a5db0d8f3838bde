-- ===== src/Sessions/Gone.antt =====
-- A session that is not in the table does not come back.
use delivery_tracking.Prelude.{
  ℕ, ◌==◌, ◌≡◌, refl, Bool, Option, none, some, List, [], ◌∷◌, ◌++◌, err, is_value, All, arith, ◌≢◌,
  inl, inr, Option-cases, transaction, Result-cases,
}
use delivery_tracking.Prelude.Table.{find?, update_first, update_all, delete_all}
use delivery_tracking.Sessions.Model.{UserSession, Db, Tokens, invalid_refresh_token}
use delivery_tracking.Sessions.Service.{
  Context, has_id, is_session_of, find_user, rotate, signed, check_session, generate_tokens,
  refresh, create_session_for_user, new_session,
}
use delivery_tracking.Sessions.Ends.{
  logout, revoke_session, revoke_all_sessions, purge_expired_sessions, reset_password, purged,
  purge_and_delete, is_revoked, set_password,
}
use delivery_tracking.Sessions.Requests.{
  Request, refreshes, creates, logs_out, revokes, revokes_all, purges, resets, serve, serve_all,
}

abbrev pub IsGone : ℕ → Db → Type 0
IsGone session_id db = find? (has_id session_id) db.sessions ≡ none

module _ (id : ℕ) where
  none-update_first :
      (q : UserSession → Bool) (f : UserSession → UserSession) (ss : List UserSession)
      → ((s : UserSession) → (f s).id ≡ s.id)
      → find? (has_id id) ss ≡ none
      → find? (has_id id) (update_first q f ss) ≡ none
  unfolding find? update_first
  none-update_first q f [] k e = refl
  none-update_first q f (s ∷ ss) k e = ground (arith, k s, none-update_first q f ss k)

  none-update_all :
      (q : UserSession → Bool) (f : UserSession → UserSession) (ss : List UserSession)
      → ((s : UserSession) → (f s).id ≡ s.id)
      → find? (has_id id) ss ≡ none
      → find? (has_id id) (update_all q f ss) ≡ none
  unfolding find? update_all
  none-update_all q f [] k e = refl
  none-update_all q f (s ∷ ss) k e = ground (arith, k s, none-update_all q f ss k)

  none-delete_all :
      (q : UserSession → Bool) (ss : List UserSession)
      → find? (has_id id) ss ≡ none
      → find? (has_id id) (delete_all q ss) ≡ none
  unfolding find? delete_all
  none-delete_all q [] e = refl
  none-delete_all q (s ∷ ss) e = ground (arith, none-delete_all q ss)

  none-append :
      (ss ts : List UserSession)
      → find? (has_id id) ss ≡ none
      → find? (has_id id) ts ≡ none
      → find? (has_id id) (ss ++ ts) ≡ none
  unfolding find?
  none-append [] ts e k = k
  none-append (s ∷ ss) ts e k = ground (arith, none-append ss ts)

  purge_and_delete-IsGone :
      (test : UserSession → Bool) (db : Db) → IsGone id db → IsGone id (purge_and_delete test db).1
  purge_and_delete-IsGone test db g =
      none-delete_all test (update_all test purged db.sessions)
        (none-update_all test purged db.sessions (λ s. refl) g)

  generate_tokens-IsGone :
      (c : Tokens) (lifetime : ℕ) (x : Context) (user_id session_id : ℕ) (db : Db)
      → IsGone id db
      → IsGone id (generate_tokens c lifetime x user_id session_id db).1
  unfolding generate_tokens
  generate_tokens-IsGone c lifetime x user_id session_id db g = ground (
    arith,
    none-update_first (is_session_of session_id user_id)
        (rotate c lifetime x.now (c.hash x.salt (signed c lifetime x session_id))) db.sessions
        (λ (s : UserSession). refl) g,
  )

  -- The transaction of `refresh` writes nothing that stays: its only write is taken back.
  check_session-reads :
      (c : Tokens) (now : ℕ) (token : List ℕ) (session_id : ℕ) (db : Db)
      → (transaction (check_session c now token session_id) db).1 ≡ db
  unfolding check_session
  check_session-reads c now token session_id db = ground (arith)

  refresh-IsGone :
      (c : Tokens) (lifetime : ℕ) (x : Context) (token : List ℕ) (db : Db)
      → IsGone id db
      → IsGone id (refresh c lifetime x token db).1
  unfolding refresh
  refresh-IsGone c lifetime x token db g = elim (Option-cases (c.verify x.now token)) [
    | inl e ↦ rw e g
    | inr (none, e) ↦ rw e g
    | inr (some session_id, e) ↦
        rw e (elim (Result-cases (transaction (check_session c x.now token session_id) db).0) [
          | inl (user, k) ↦ ground (
            arith,
            k,
            check_session-reads c x.now token session_id db,
            generate_tokens-IsGone c lifetime x user.id session_id db g,
          )
          | inr (_, k) ↦ ground (arith, k, check_session-reads c x.now token session_id db, g)
        ])
  ]

  create_session_for_user-IsGone :
      (c : Tokens) (lifetime : ℕ) (x : Context) (new_id user_id : ℕ) (db : Db)
      → new_id ≢ id
      → IsGone id db
      → IsGone id (create_session_for_user c lifetime x new_id user_id db).1
  unfolding create_session_for_user find?
  create_session_for_user-IsGone c lifetime x new_id user_id db n g = ground (
    arith,
    none-append db.sessions (new_session c lifetime x new_id user_id ∷ []) g,
    generate_tokens-IsGone c lifetime x user_id new_id
        (record db { sessions = db.sessions ++ (new_session c lifetime x new_id user_id ∷ []) }),
  )

  logout-IsGone :
      (user_id : ℕ) (session_id : Option ℕ) (db : Db)
      → IsGone id db
      → IsGone id (logout user_id session_id db).1
  unfolding logout
  logout-IsGone user_id none db g = g
  logout-IsGone user_id (some session_id) db g =
      purge_and_delete-IsGone (is_session_of session_id user_id) db g

  revoke_session-IsGone :
      (user_id session_id : ℕ) (db : Db)
      → IsGone id db
      → IsGone id (revoke_session user_id session_id db).1
  unfolding revoke_session
  revoke_session-IsGone user_id session_id db g =
      ground (arith, purge_and_delete-IsGone (has_id session_id) db g)

  revoke_all_sessions-IsGone :
      (user_id : ℕ) (except : Option ℕ) (db : Db)
      → IsGone id db
      → IsGone id (revoke_all_sessions user_id except db).1
  unfolding revoke_all_sessions
  revoke_all_sessions-IsGone user_id except db g =
      purge_and_delete-IsGone (is_revoked user_id except) db g

  purge_expired_sessions-IsGone :
      (now : ℕ) (db : Db) → IsGone id db → IsGone id (purge_expired_sessions now db).1
  unfolding purge_expired_sessions
  purge_expired_sessions-IsGone now db g = none-delete_all _ db.sessions g

  reset_password-IsGone :
      (c : Tokens) (now : ℕ) (link : Option (ℕ × List ℕ)) (password_hash : List ℕ) (db : Db)
      → IsGone id db
      → IsGone id (reset_password c now link password_hash db).1
  unfolding reset_password
  reset_password-IsGone c now none password_hash db g = g
  reset_password-IsGone c now (some (token_id, secret)) password_hash db g =
      elim (Option-cases (find? (λ u. is_value u.reset_token_id token_id) db.users)) [
        | inl e ↦ ground (arith, e, g)
        | inr (user, e) ↦ ground (
          arith,
          e,
          purge_and_delete-IsGone (λ (s : UserSession). s.user_id == user.id)
              (record db {
                users = update_first (find_user user.id) (set_password password_hash) db.users;
              })
              g,
        )
      ]

  -- The key is not given again.
  abbrev pub GivesOtherKey : Request → Type 0
  GivesOtherKey (creates x new_id user_id) = new_id ≢ id
  GivesOtherKey r = Unit

  serve-IsGone :
      (c : Tokens) (lifetime : ℕ) (r : Request) (db : Db)
      → GivesOtherKey r
      → IsGone id db
      → IsGone id (serve c lifetime r db)
  unfolding serve
  serve-IsGone c lifetime (refreshes x token) db n g = refresh-IsGone c lifetime x token db g
  serve-IsGone c lifetime (creates x new_id user_id) db n g =
      create_session_for_user-IsGone c lifetime x new_id user_id db n g
  serve-IsGone c lifetime (logs_out user_id session_id) db n g =
      logout-IsGone user_id session_id db g
  serve-IsGone c lifetime (revokes user_id session_id) db n g =
      revoke_session-IsGone user_id session_id db g
  serve-IsGone c lifetime (revokes_all user_id except) db n g =
      revoke_all_sessions-IsGone user_id except db g
  serve-IsGone c lifetime (purges now) db n g = purge_expired_sessions-IsGone now db g
  serve-IsGone c lifetime (resets now link password_hash) db n g =
      reset_password-IsGone c now link password_hash db g

  serve_all-IsGone :
      (c : Tokens) (lifetime : ℕ) (rs : List Request) (db : Db)
      → All GivesOtherKey rs
      → IsGone id db
      → IsGone id (serve_all c lifetime rs db)
  serve_all-IsGone c lifetime [] db n g = g
  serve_all-IsGone c lifetime (r ∷ rs) db n g =
      serve_all-IsGone c lifetime rs (serve c lifetime r db) n.1
        (serve-IsGone c lifetime r db n.0 g)

  -- A refresh with a token of a session that is gone is refused, and so it is after any requests
  -- that create no session under its key.
  pub refresh-refuses_gone :
      (c : Tokens) (lifetime : ℕ) (db : Db) (rs : List Request) (x : Context) (token : List ℕ)
      → All GivesOtherKey rs
      → c.verify x.now token ≡ some (some id)
      → IsGone id db
      → refresh c lifetime x token (serve_all c lifetime rs db)
        ≡ (err invalid_refresh_token, serve_all c lifetime rs db)
  unfolding refresh check_session
  refresh-refuses_gone c lifetime db rs x token n v g =
      ground (arith, v, serve_all-IsGone c lifetime rs db n g)
