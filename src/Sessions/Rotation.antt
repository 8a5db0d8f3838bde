-- ===== src/Sessions/Rotation.antt =====
-- What a refresh answers and writes.
use delivery_tracking.Prelude.{
  ℕ, ◌≤◌, ◌≡◌, refl, ◌==◌, ==_iff, ltb, true, false, some, List, [], ◌∷◌, ok, err, arith,
}
use delivery_tracking.Prelude.Table.{find?, update_first, find?-holds}
use delivery_tracking.Sessions.Model.{User, UserSession, Db, Tokens, reuse_detected}
use delivery_tracking.Sessions.Service.{
  Context, has_id, is_session_of, find_user, rotate, signed, generate_tokens, is_replayed,
  check_session, refresh,
}

-- The row that the key finds is the one that the key and its user find.
find?-owned :
    (id user_id : ℕ) (ss : List UserSession) (s : UserSession)
    → find? (has_id id) ss ≡ some s
    → (s.user_id == user_id) ≡ true
    → find? (is_session_of id user_id) ss ≡ some s
unfolding find?
find?-owned id user_id [] s e o = absurd (cc e)
find?-owned id user_id (r ∷ ss) s e o = ground (arith, find?-owned id user_id ss s)

find?-rotated :
    (id user_id : ℕ) (f : UserSession → UserSession) (ss : List UserSession) (s : UserSession)
    → ((r : UserSession) → (f r).id ≡ r.id)
    → find? (has_id id) ss ≡ some s
    → (s.user_id == user_id) ≡ true
    → find? (has_id id) (update_first (is_session_of id user_id) f ss) ≡ some (f s)
unfolding find? update_first
find?-rotated id user_id f [] s k e o = absurd (cc e)
find?-rotated id user_id f (r ∷ ss) s k e o = ground (arith, k r, find?-rotated id user_id f ss s k)

ltb_not : (a b : ℕ) → b ≤ a → ltb a b ≡ false
ltb_not a b h = ground arith

-- The session and its user, found in the tables, with the session's current hash.
pub record Finds (db : Db) (session_id : ℕ) (s : UserSession) (u : User) (h : List ℕ) : Type 0 where
  pub session : find? (has_id session_id) db.sessions ≡ some s
  pub user : find? (find_user s.user_id) db.users ≡ some u
  pub active : u.is_active ≡ true
  pub hash : s.refresh_token_hash ≡ some h

module _ (c : Tokens) (lifetime : ℕ) where
  module _ (db : Db) (session_id : ℕ) (s : UserSession) (u : User) (h : List ℕ)
      (f : Finds db session_id s u h) where
    check_session-accepts :
        (now : ℕ) (token : List ℕ)
        → now ≤ s.expires_at
        → is_replayed c token h s ≡ false
        → check_session c now token session_id db ≡ (ok u, db)
    unfolding check_session
    check_session-accepts now token t m =
        ground (arith, ltb_not s.expires_at now, f.session, f.user, f.active, f.hash)

    pub check_session-replays :
        (now : ℕ) (token : List ℕ)
        → now ≤ s.expires_at
        → is_replayed c token h s ≡ true
        → (check_session c now token session_id db).0 ≡ err reuse_detected
    unfolding check_session
    check_session-replays now token t m =
        ground (arith, ltb_not s.expires_at now, f.session, f.user, f.active, f.hash)

    user_id_same : u.id ≡ s.user_id
    user_id_same = (==_iff u.id s.user_id).0 (find?-holds (find_user s.user_id) db.users u f.user)

    owned : find? (is_session_of session_id s.user_id) db.sessions ≡ some s
    owned = find?-owned session_id s.user_id db.sessions s f.session ((==_iff _ _).1 refl)

    -- The database after a rotation of the session.
    pub rotated : Context → Db
    rotated x = record db {
      sessions =
          update_first (is_session_of session_id s.user_id)
            (rotate c lifetime x.now (c.hash x.salt (signed c lifetime x session_id))) db.sessions;
    }

    generate_tokens-rotates :
        (x : Context)
        → generate_tokens c lifetime x s.user_id session_id db
          ≡ (ok (signed c lifetime x session_id), rotated x)
    unfolding generate_tokens rotated
    generate_tokens-rotates x = ground (arith, f.user, owned)

    pub refresh-rotates :
        (x : Context) (token : List ℕ)
        → c.verify x.now token ≡ some (some session_id)
        → x.now ≤ s.expires_at
        → is_replayed c token h s ≡ false
        → refresh c lifetime x token db ≡ (ok (signed c lifetime x session_id), rotated x)
    unfolding refresh
    refresh-rotates x token v t m =
        ground
          (arith, check_session-accepts x.now token t m, generate_tokens-rotates x, user_id_same)

    -- The session after the rotation.
    pub rotated-Finds :
        (x : Context)
        → Finds
            (rotated x)
            session_id
            (rotate c lifetime x.now (c.hash x.salt (signed c lifetime x session_id)) s)
            u
            (c.hash x.salt (signed c lifetime x session_id))
    unfolding rotated
    rotated-Finds x = record {
      session =
          find?-rotated session_id s.user_id _ db.sessions s (λ r. refl) f.session
            ((==_iff _ _).1 refl);
      user = f.user;
      active = f.active;
      hash = refl;
    }
