-- ===== src/Sessions/Replay.antt =====
-- A refresh with a token that neither hash of its session matches.
use delivery_tracking.Prelude.{ℕ, ◌≤◌, ◌≡◌, true, some, List, err, arith}
use delivery_tracking.Sessions.Model.{User, UserSession, Db, Tokens, reuse_detected}
use delivery_tracking.Sessions.Service.{Context, is_replayed, refresh}
use delivery_tracking.Sessions.Rotation.{Finds, check_session-replays}

-- A valid refresh token that matches neither hash of its live session is refused as a reuse, and the
-- refusal leaves the database as it was: the session is still there, with both of its hashes.
pub refresh-keeps_replayed :
    (c : Tokens) (lifetime : ℕ) (db : Db) (session_id : ℕ) (s : UserSession) (u : User) (h : List ℕ)
    → Finds db session_id s u h
    → (x : Context) (token : List ℕ) → c.verify x.now token ≡ some (some session_id)
    → x.now ≤ s.expires_at
    → is_replayed c token h s ≡ true
    → refresh c lifetime x token db ≡ (err reuse_detected, db)
unfolding refresh
refresh-keeps_replayed c lifetime db session_id s u h f x token v t m =
    ground (arith, check_session-replays c lifetime db session_id s u h f x.now token t m)
