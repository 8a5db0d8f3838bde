-- ===== src/Invitations/Examples.antt =====
-- Witnesses and runs: one invitation of a driver that waits, and one that was revoked.
use delivery_tracking.Prelude.{◌≡◌, ◌⊎◌, refl, none, List, [], ◌∷◌, ok, err, transaction}
use delivery_tracking.Prelude.Table.{find?, update_first}
use delivery_tracking.Prelude.Texts.{same}
use delivery_tracking.Invitations.Model.{
  driver, dispatcher, pending, revoked, Invitation, Db, CreateInvitationDto, UserData, already,
  already_pending,
}
use delivery_tracking.Invitations.Service.{
  create, find_by_token, revoke, insert_invitation, normalize,
}
use delivery_tracking.Invitations.Accept.{
  Keys, new_user, insert_user, insert_driver, join_drivers, commit_accept, accept,
}
use delivery_tracking.Invitations.Requests.{Request, creates, accepts, resends, serve_all}
use delivery_tracking.Invitations.Outcome.{IsRefused, IsOpen, Accepts, accept-ends}
use delivery_tracking.Invitations.Single.{IsSingle, serve_all-IsSingle}
use delivery_tracking.Invitations.Closed.{Keeps, accept-refuses_closed}

abbrev invited : Invitation
invited = record {
  id = 1;
  email = 97 ∷ (64 ∷ (98 ∷ []));
  role = driver;
  token = 500;
  status = pending;
  company_id = 7;
  invited_by_id = 3;
  expires_at = 9000;
  accepted_at = none;
}

abbrev withdrawn : Invitation
withdrawn = record invited { id = 2; token = 600; status = revoked }

abbrev two : Db
two = record { invitations = invited ∷ (withdrawn ∷ []); users = []; drivers = []; mails = [] }

abbrev keys : Keys
keys = record { user_id = 40; driver_id = 50; license_number = 68 ∷ (52 ∷ []) }

abbrev person : UserData
person = record { password_hash = 1 ∷ []; first_name = 2 ∷ []; last_name = 3 ∷ []; phone = none }

-- The address is written with capitals and spaces.
abbrev again : CreateInvitationDto
again = record { email = 32 ∷ (65 ∷ (64 ∷ (66 ∷ (32 ∷ [])))); role = dispatcher }

abbrev busy : List Request
busy = creates 3 700 1000 7 3 again ∷ (resends 800 1000 7 1 ∷ (accepts keys 2000 800 person ∷ []))

two-IsSingle : IsSingle two
unfolding same
two-IsSingle = ((refl, tt), (tt, tt))

serve_all-IsSingle_example : IsSingle (serve_all busy two)
serve_all-IsSingle_example = serve_all-IsSingle busy two two-IsSingle

two-Keeps : Keeps 600 withdrawn two.invitations
unfolding find?
two-Keeps = record { distinct = ((refl, tt), (tt, tt)); found = refl }

accept-refuses_closed_example :
    accept keys 3000 600 person (serve_all busy two) ≡ (err (already revoked), serve_all busy two)
accept-refuses_closed_example =
    accept-refuses_closed 600 withdrawn refl two busy keys 3000 person two-Keeps

accept-ends_example :
    IsRefused 2000 500 two (accept keys 2000 500 person two)
    ⊎ ((i : Invitation) × (IsOpen 2000 500 two i
          × Accepts keys 2000 person i two (accept keys 2000 500 person two)))
accept-ends_example = accept-ends keys 2000 500 person two

waiting_is_refused : (create 3 700 1000 7 3 again two).0 ≡ err already_pending
unfolding create normalize insert_invitation same
waiting_is_refused = refl

becomes_driver : (accept keys 2000 500 person two).0 ≡ ok (new_user keys person invited)
unfolding accept find_by_token commit_accept insert_user join_drivers insert_driver find?
    update_first same
becomes_driver = refl

-- The transaction does not look at the status again: an invitation that is revoked after it was
-- looked up is accepted.
revoked_is_accepted :
    (transaction (commit_accept keys 2000 person invited) (revoke 7 1 two).1).0
    ≡ ok (new_user keys person invited)
unfolding revoke commit_accept insert_user join_drivers insert_driver find? update_first same
revoked_is_accepted = refl
