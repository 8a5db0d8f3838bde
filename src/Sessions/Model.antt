-- ===== src/Sessions/Model.antt =====
-- The rows of backend/prisma/schema.prisma that the sessions are about, the exceptions, and the
-- tokens. A text is a list of its codes, an instant a number of milliseconds. The payload of a token
-- is its session; the names and the role that it bears are read by no service here.
use delivery_tracking.Prelude.{ℕ, ◌≡◌, Bool, true, Option, List, Action, String}

pub record User : Type 0 where
  pub id : ℕ
  pub is_active : Bool
  pub totp_enabled : Bool
  pub password_hash : List ℕ
  pub reset_token_id : Option ℕ
  pub reset_token_hash : Option (List ℕ)
  pub reset_token_expiry : Option ℕ

pub record UserSession : Type 0 where
  pub id : ℕ
  pub user_id : ℕ
  pub device : Option String
  pub ip : Option String
  pub last_activity : ℕ
  pub expires_at : ℕ
  pub refresh_token_hash : Option (List ℕ)
  pub previous_refresh_token_hash : Option (List ℕ)

pub record Db : Type 0 where
  pub users : List User
  pub sessions : List UserSession

pub data Error : Type 0 where
  invalid_refresh_token reuse_detected user_not_found account_deactivated : Error
  two_factor_required session_not_found not_your_session bad_reset_link : Error

abbrev pub Method : Type 0 → Type 0
Method = Action Db Error

-- jsonwebtoken and bcrypt. `verify` gives the session in the payload of a refresh token that is
-- valid at the instant, `some none` if the payload names none; `sign` makes a refresh token from the
-- session, the instant and what else its payload bears; `hash` takes the salt first.
pub record Tokens : Type 0 where
  pub verify : ℕ → List ℕ → Option (Option ℕ)
  pub sign : ℕ → ℕ → List ℕ → List ℕ
  pub hash : List ℕ → List ℕ → List ℕ
  pub compare : List ℕ → List ℕ → Bool

-- What bcrypt is documented to do: a text matches its hash, under every salt.
abbrev pub MatchesItsHash : Tokens → Type 0
MatchesItsHash c = (salt text : List ℕ) → c.compare text (c.hash salt text) ≡ true
