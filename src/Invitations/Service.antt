-- ===== src/Invitations/Service.antt =====
-- The service of backend/src/modules/invitations/invitations.service.ts, but for its list. A
-- failure to send an e-mail is only logged there.
use delivery_tracking.Prelude.{
  ℕ, ◌+◌, ◌*◌, ◌==◌, ltb, leb, Bool, true, false, not, ◌&&◌, ◌||◌, none, List, [], ◌∷◌, ◌++◌, map,
  any, if◌then◌else◌, ok, err, pure, throw, or_throw, modify, throw_if, ◌>>=◌, ◌>>◌,
}
use delivery_tracking.Prelude.Table.{find?, update_first}
use delivery_tracking.Prelude.Texts.{same}
use delivery_tracking.Invitations.Model.{
  UserRole, InvitationStatus, pending, accepted, expired, revoked, Invitation, User, Mail,
  CreateInvitationDto, Method, email_in_use, already_pending, invitation_not_found,
  invitation_expired, unique_violation, can_only_resend_pending, can_only_revoke_pending, already,
}

abbrev pub invitation_expiry : ℕ
invitation_expiry = 7 * 24 * 60 * 60 * 1000

-- `toLowerCase` on a code, for the letters of ASCII.
abbrev lower : ℕ → ℕ
lower c = if leb 65 c && leb c 90 then c + 32 else c

abbrev is_space : ℕ → Bool
is_space c = c == 32 || (leb 9 c && leb c 13)

abbrev or_trimmed : ℕ → List ℕ → List ℕ
or_trimmed c [] = if is_space c then [] else c ∷ []
or_trimmed c (d ∷ ds) = c ∷ (d ∷ ds)

unfoldable trim_end : List ℕ → List ℕ
trim_end [] = []
trim_end (c ∷ cs) = or_trimmed c (trim_end cs)

unfoldable trim_start : List ℕ → List ℕ
trim_start [] = []
trim_start (c ∷ cs) = let rest = trim_start cs in if is_space c then rest else c ∷ cs

-- `toLowerCase().trim()`.
unfoldable pub normalize : List ℕ → List ℕ
unfolding trim_end trim_start
normalize email = trim_end (trim_start (map lower email))

abbrev pub is_pending : InvitationStatus → Bool
is_pending pending = true
is_pending accepted = false
is_pending expired = false
is_pending revoked = false

abbrev pub is_for : ℕ → List ℕ → Invitation → Bool
is_for company_id email i =
    is_pending i.status && (i.company_id == company_id && same i.email email)

abbrev pub has_token : ℕ → Invitation → Bool
has_token token i = i.token == token

abbrev pub has_id : ℕ → Invitation → Bool
has_id id i = i.id == id

abbrev pub has_email : List ℕ → User → Bool
has_email email u = same u.email email

-- Two rows that the partial unique index of the database does not let stand together.
abbrev pub clashes : Invitation → Invitation → Bool
clashes i j = is_pending i.status && is_for i.company_id i.email j

-- Two rows under the same key.
abbrev pub same_id : Invitation → Invitation → Bool
same_id i j = j.id == i.id

-- `create`, on which the key and the two unique indexes answer with the same exception.
unfoldable pub insert_invitation : Invitation → Method (Unit {0})
insert_invitation i db =
    if any (same_id i) db.invitations
      || (any (clashes i) db.invitations || any (has_token i.token) db.invitations)
    then (err already_pending, db)
    else (ok tt, record db { invitations = db.invitations ++ (i ∷ []) })

abbrev pub send : Mail → Method (Unit {0})
send m = modify (λ db. record db { mails = m ∷ db.mails })

abbrev pub new_invitation :
    (new_id token now company_id invited_by_id : ℕ) → List ℕ → UserRole → Invitation
new_invitation new_id token now company_id invited_by_id email role = record {
  id = new_id;
  email = email;
  role = role;
  token = token;
  status = pending;
  company_id = company_id;
  invited_by_id = invited_by_id;
  expires_at = now + invitation_expiry;
  accepted_at = none;
}

unfoldable pub create :
    (new_id token now company_id invited_by_id : ℕ) → CreateInvitationDto → Method Invitation
unfolding insert_invitation normalize
create new_id token now company_id invited_by_id dto = do
  let email = normalize dto.email
  let i = new_invitation new_id token now company_id invited_by_id email dto.role
  used ← λ db. throw_if (any (has_email email) db.users) email_in_use db
  waiting ← λ db. throw_if (any (is_for company_id email) db.invitations) already_pending db
  insert_invitation i
  send (record { to = email; token = token; role = dto.role })
  pure i

abbrev pub set_status : InvitationStatus → Invitation → Invitation
set_status st i = record i { status = st }

abbrev pub check_expiry : Bool → Invitation → Method Invitation
check_expiry true i = do
  modify (λ db. record db {
    invitations = update_first (has_id i.id) (set_status expired) db.invitations;
  })
  throw invitation_expired
check_expiry false i = pure i

unfoldable pub find_by_token : ℕ → ℕ → Method Invitation
unfolding find? update_first
find_by_token now token = do
  i ← λ db. or_throw (find? (has_token token) db.invitations) invitation_not_found db
  throw_if (not (is_pending i.status)) (already i.status)
  check_expiry (ltb i.expires_at now) i

unfoldable pub resend : (token now company_id id : ℕ) → Method (Unit {0})
unfolding find? update_first
resend token now company_id id = do
  i ← λ db.
      or_throw (find? (λ i. i.id == id && i.company_id == company_id) db.invitations)
        invitation_not_found db
  throw_if (not (is_pending i.status)) can_only_resend_pending
  unique ← λ db.
      throw_if (any (λ j. not (j.id == id) && has_token token j) db.invitations) unique_violation db
  modify (λ db. record db {
    invitations =
        update_first (has_id id)
          (λ i. record i { token = token; expires_at = now + invitation_expiry }) db.invitations;
  })
  send (record { to = i.email; token = token; role = i.role })

unfoldable pub revoke : (company_id id : ℕ) → Method (Unit {0})
unfolding find? update_first
revoke company_id id = do
  i ← λ db.
      or_throw (find? (λ i. i.id == id && i.company_id == company_id) db.invitations)
        invitation_not_found db
  throw_if (not (is_pending i.status)) can_only_revoke_pending
  modify (λ db. record db {
    invitations = update_first (has_id id) (set_status revoked) db.invitations;
  })
