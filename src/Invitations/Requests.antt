-- ===== src/Invitations/Requests.antt =====
-- The requests on invitations, one after the other.
use delivery_tracking.Prelude.{ℕ, List, [], ◌∷◌}
use delivery_tracking.Invitations.Model.{Db, CreateInvitationDto, UserData}
use delivery_tracking.Invitations.Service.{create, find_by_token, resend, revoke}
use delivery_tracking.Invitations.Accept.{Keys, accept}

-- What the database gives to a request, and a new token, stand with it.
pub data Request : Type 0 where
  creates : (new_id token now company_id invited_by_id : ℕ) → CreateInvitationDto → Request
  looks_up : (now token : ℕ) → Request
  accepts : Keys → (now token : ℕ) → UserData → Request
  resends : (token now company_id id : ℕ) → Request
  revokes : (company_id id : ℕ) → Request

unfoldable pub serve : Request → Db → Db
unfolding create find_by_token accept resend revoke
serve (creates new_id token now company_id invited_by_id dto) db =
    (create new_id token now company_id invited_by_id dto db).1
serve (looks_up now token) db = (find_by_token now token db).1
serve (accepts k now token u) db = (accept k now token u db).1
serve (resends token now company_id id) db = (resend token now company_id id db).1
serve (revokes company_id id) db = (revoke company_id id db).1

abbrev pub serve_all : List Request → Db → Db
serve_all [] db = db
serve_all (r ∷ rs) db = serve_all rs (serve r db)
