-- ===== src/Sessions/Examples.antt =====
-- Witnesses: one user with two sessions, and tokens that are their own hash.
use delivery_tracking.Prelude.{
  ℕ, ◌≡◌, refl, true, false, Option, none, some, List, [], ◌∷◌, ok, err, arith, is_value,
}
use delivery_tracking.Prelude.Table.{find?, update_first, update_all, delete_all}
use delivery_tracking.Prelude.Texts.{same, same_refl}
use delivery_tracking.Sessions.Model.{
  User, UserSession, Db, Tokens, MatchesItsHash, reuse_detected, invalid_refresh_token,
}
use delivery_tracking.Sessions.Service.{Context, refresh, check_session, generate_tokens}
use delivery_tracking.Sessions.Rotation.{Finds}
use delivery_tracking.Sessions.Ends.{logout, reset_password}
use delivery_tracking.Sessions.Requests.{
  Request, refreshes, creates, logs_out, resets, serve, serve_all,
}
use delivery_tracking.Sessions.Replay.{refresh-keeps_replayed}
use delivery_tracking.Sessions.Tabs.{refresh-converges}
use delivery_tracking.Sessions.Final.{refresh-refuses_logged_out, refresh-refuses_reset}

abbrev session_of : ℕ → List ℕ → Option (Option ℕ)
session_of now [] = none
session_of now (id ∷ rest) = some (some id)

abbrev tokens : Tokens
tokens = record {
  verify = session_of;
  sign = λ id now payload. id ∷ (now ∷ payload);
  hash = λ salt text. text;
  compare = same;
}

tokens-MatchesItsHash : MatchesItsHash tokens
tokens-MatchesItsHash salt text = same_refl text

abbrev rivo : User
rivo = record {
  id = 7;
  is_active = true;
  totp_enabled = false;
  password_hash = 1 ∷ [];
  reset_token_id = some 30;
  reset_token_hash = some (8 ∷ []);
  reset_token_expiry = some 2000;
}

abbrev phone : UserSession
phone = record {
  id = 1;
  user_id = 7;
  device = none;
  ip = none;
  last_activity = 500;
  expires_at = 5000;
  refresh_token_hash = some (1 ∷ (500 ∷ []));
  previous_refresh_token_hash = some (1 ∷ (400 ∷ []));
}

abbrev desk : UserSession
desk = record phone { id = 2; refresh_token_hash = some (2 ∷ (300 ∷ [])) }

abbrev database : Db
database = record { users = rivo ∷ []; sessions = desk ∷ (phone ∷ []) }

abbrev at : ℕ → Context
at now = record { now = now; salt = []; payload = []; device = none; ip = none }

phone-Finds : Finds database 1 phone rivo (1 ∷ (500 ∷ []))
unfolding find?
phone-Finds = record { session = refl; user = refl; active = refl; hash = refl }

refresh-keeps_replayed_example :
    refresh tokens 3000 (at 1000) (1 ∷ (300 ∷ [])) database ≡ (err reuse_detected, database)
unfolding same
refresh-keeps_replayed_example =
    refresh-keeps_replayed tokens 3000 database 1 phone rivo (1 ∷ (500 ∷ [])) phone-Finds (at 1000)
      (1 ∷ (300 ∷ [])) refl (omega arith) refl

refresh-converges_example :
    let db1 = (refresh tokens 3000 (at 1000) (1 ∷ (500 ∷ [])) database).1 in
    let db2 = (refresh tokens 3000 (at 1001) (1 ∷ (500 ∷ [])) db1).1 in
    ((refresh tokens 3000 (at 1000) (1 ∷ (500 ∷ [])) database).0 ≡ ok (1 ∷ (1000 ∷ [])))
    × ((refresh tokens 3000 (at 1001) (1 ∷ (500 ∷ [])) db1).0 ≡ ok (1 ∷ (1001 ∷ [])))
    × ((refresh tokens 3000 (at 1500) (1 ∷ (1000 ∷ [])) db2).0 ≡ ok (1 ∷ (1500 ∷ [])))
    × ((refresh tokens 3000 (at 1500) (1 ∷ (1001 ∷ [])) db2).0 ≡ ok (1 ∷ (1500 ∷ [])))
unfolding same
refresh-converges_example =
    refresh-converges tokens 3000 tokens-MatchesItsHash database 1 phone rivo (1 ∷ (500 ∷ []))
      phone-Finds (1 ∷ (500 ∷ [])) refl (at 1000) (at 1001) (at 1500) refl refl refl refl
      (omega arith) (omega arith) (omega arith)

abbrev in_between : List Request
in_between = refreshes (at 1100) (2 ∷ (300 ∷ [])) ∷ (creates (at 1200) 3 7 ∷ [])

refresh-refuses_logged_out_example :
    (refresh tokens 3000
      (at 1500)
      (1 ∷ (500 ∷ []))
      (serve_all tokens 3000 (logs_out 7 (some 1) ∷ in_between) database)).0
    ≡ err invalid_refresh_token
refresh-refuses_logged_out_example =
    refresh-refuses_logged_out 1 7 tokens 3000 database in_between (at 1500) (1 ∷ (500 ∷ []))
      ((λ e. refl), ((λ e. refl), tt)) (tt, (omega arith, tt)) refl

reset_succeeds : (reset_password tokens 1000 (some (30, 8 ∷ [])) (2 ∷ []) database).0 ≡ ok tt
unfolding reset_password find? update_first update_all delete_all same
reset_succeeds = refl

rivo_found : find? (λ u. is_value u.reset_token_id 30) database.users ≡ some rivo
unfolding find?
rivo_found = refl

refresh-refuses_reset_example :
    (refresh tokens 3000
      (at 1500)
      (2 ∷ (300 ∷ []))
      (serve_all tokens 3000 (resets 1000 (some (30, 8 ∷ [])) (2 ∷ []) ∷ in_between) database)).0
    ≡ err invalid_refresh_token
refresh-refuses_reset_example =
    refresh-refuses_reset tokens 3000 database 2 rivo 1000 30 (8 ∷ []) (2 ∷ []) rivo_found
      reset_succeeds in_between (at 1500) (2 ∷ (300 ∷ [])) ((λ e. refl), ((λ e. refl), tt))
      (tt, (omega arith, tt)) refl

-- After a log-out on one device the other one goes on.
other_device_goes_on :
    (refresh tokens 3000
      (at 1500)
      (2 ∷ (300 ∷ []))
      (serve tokens 3000 (logs_out 7 (some 1)) database)).0
    ≡ ok (2 ∷ (1500 ∷ []))
unfolding serve logout refresh check_session generate_tokens find? update_first update_all
    delete_all same
other_device_goes_on = refl
