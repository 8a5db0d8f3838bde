-- ===== src/Sessions/Tabs.antt =====
-- Two tabs of one browser that share a refresh token.
use delivery_tracking.Prelude.{ℕ, ◌+◌, ap, ◌≤◌, ◌≡◌, refl, true, false, some, List, ok, arith}
use delivery_tracking.Sessions.Model.{User, UserSession, Db, Tokens, MatchesItsHash}
use delivery_tracking.Sessions.Service.{Context, rotate, signed, is_replayed, refresh, later}
use delivery_tracking.Sessions.Rotation.{Finds, rotated, refresh-rotates, rotated-Finds}

later_le : (a b n : ℕ) → n ≤ a → n ≤ later a b
later_le a b n h = ground arith

module _ (c : Tokens) (lifetime : ℕ) where
  -- The session after a rotation.
  abbrev next : Context → ℕ → UserSession → UserSession
  next x session_id s = rotate c lifetime x.now (c.hash x.salt (signed c lifetime x session_id)) s

  abbrev hash_of : Context → ℕ → List ℕ
  hash_of x session_id = c.hash x.salt (signed c lifetime x session_id)

  -- The token that a rotation replaced is accepted after it, and the one that it made.
  accepts_current :
      (token h : List ℕ) (s : UserSession)
      → c.compare token h ≡ true
      → is_replayed c token h s ≡ false
  accepts_current token h s e = ground arith

  accepts_previous :
      (x : Context) (session_id : ℕ) (token h : List ℕ) (s : UserSession)
      → s.refresh_token_hash ≡ some h
      → c.compare token h ≡ true
      → is_replayed c token (hash_of x session_id) (next x session_id s) ≡ false
  accepts_previous x session_id token h s k e = ground (arith, k, e)

  module _ (self : MatchesItsHash c) (db : Db) (session_id : ℕ) (s : UserSession) (u : User)
      (h : List ℕ) (f : Finds db session_id s u h) (token : List ℕ)
      (current : c.compare token h ≡ true) where
    -- Two refreshes, one after the other, with the same current token of a live session both
    -- succeed, and afterwards the session accepts the token of either; whenever the tokens are valid
    -- and the session was not yet over, if a text matches its hash.
    pub refresh-converges :
        (x1 x2 x3 : Context)
        → c.verify x1.now token ≡ some (some session_id)
        → c.verify x2.now token ≡ some (some session_id)
        → c.verify x3.now (signed c lifetime x1 session_id) ≡ some (some session_id)
        → c.verify x3.now (signed c lifetime x2 session_id) ≡ some (some session_id)
        → x1.now ≤ s.expires_at
        → x2.now ≤ s.expires_at
        → x3.now ≤ s.expires_at
        → let db1 = (refresh c lifetime x1 token db).1 in
          let db2 = (refresh c lifetime x2 token db1).1 in
          ((refresh c lifetime x1 token db).0 ≡ ok (signed c lifetime x1 session_id))
          × ((refresh c lifetime x2 token db1).0 ≡ ok (signed c lifetime x2 session_id))
          × ((refresh c lifetime x3 (signed c lifetime x1 session_id) db2).0
              ≡ ok (signed c lifetime x3 session_id))
          × ((refresh c lifetime x3 (signed c lifetime x2 session_id) db2).0
              ≡ ok (signed c lifetime x3 session_id))
    refresh-converges x1 x2 x3 v1 v2 w1 w2 t1 t2 t3 =
        let s1 = next x1 session_id s in
        let s2 = next x2 session_id s1 in
        let h1 = hash_of x1 session_id in
        let h2 = hash_of x2 session_id in
        let f1 = rotated-Finds c lifetime db session_id s u h f x1 in
        let db1 = rotated c lifetime db session_id s u h f x1 in
        let f2 = rotated-Finds c lifetime db1 session_id s1 u h1 f1 x2 in
        let db2 = rotated c lifetime db1 session_id s1 u h1 f1 x2 in
        let e1 =
          refresh-rotates c lifetime db session_id s u h f x1 token v1 t1
            (accepts_current token h s current) in
        let e2 =
          refresh-rotates c lifetime db1 session_id s1 u h1 f1 x2 token v2 (later_le _ _ _ t2)
            (accepts_previous x1 session_id token h s f.hash current) in
        let live3 = later_le s1.expires_at (x2.now + lifetime) x3.now (later_le _ _ _ t3) in
        let e3 =
          refresh-rotates c lifetime db2 session_id s2 u h2 f2 x3 (signed c lifetime x1 session_id)
            w1 live3
            (accepts_previous x2 session_id (signed c lifetime x1 session_id) h1 s1 refl
              (self x1.salt _)) in
        let e4 =
          refresh-rotates c lifetime db2 session_id s2 u h2 f2 x3 (signed c lifetime x2 session_id)
            w2 live3 (accepts_current (signed c lifetime x2 session_id) h2 s2 (self x2.salt _)) in
        rw e1 (rw e2 (refl, refl, ap (λ p. p.0) e3, ap (λ p. p.0) e4))
