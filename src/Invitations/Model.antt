-- ===== src/Invitations/Model.antt =====
-- The rows of backend/prisma/schema.prisma that the invitations are about, the requests' data and the
-- exceptions. A text is a list of its codes, an instant a number of milliseconds. The token of an
-- invitation stands as its hash.
use delivery_tracking.Prelude.{ℕ, Option, List, Action}

pub data UserRole : Type 0 where
  admin dispatcher driver client : UserRole

pub data InvitationStatus : Type 0 where
  pending accepted expired revoked : InvitationStatus

pub record Invitation : Type 0 where
  pub id : ℕ
  pub email : List ℕ
  pub role : UserRole
  pub token : ℕ
  pub status : InvitationStatus
  pub company_id : ℕ
  pub invited_by_id : ℕ
  pub expires_at : ℕ
  pub accepted_at : Option ℕ

pub record User : Type 0 where
  pub id : ℕ
  pub email : List ℕ
  pub password_hash : List ℕ
  pub first_name : List ℕ
  pub last_name : List ℕ
  pub phone : Option (List ℕ)
  pub role : UserRole
  pub company_id : ℕ

pub record Driver : Type 0 where
  pub id : ℕ
  pub first_name : List ℕ
  pub last_name : List ℕ
  pub email : Option (List ℕ)
  pub phone : Option (List ℕ)
  pub license_number : List ℕ
  pub company_id : ℕ
  pub user_id : Option ℕ
  pub deleted_at : Option ℕ

-- An e-mail with the link of an invitation.
pub record Mail : Type 0 where
  pub to : List ℕ
  pub token : ℕ
  pub role : UserRole

pub record Db : Type 0 where
  pub invitations : List Invitation
  pub users : List User
  pub drivers : List Driver
  pub mails : List Mail

pub record CreateInvitationDto : Type 0 where
  pub email : List ℕ
  pub role : UserRole

-- What an invitee gives, with the hash of the password.
pub record UserData : Type 0 where
  pub password_hash : List ℕ
  pub first_name : List ℕ
  pub last_name : List ℕ
  pub phone : Option (List ℕ)

pub data Error : Type 0 where
  email_in_use already_pending invitation_not_found invitation_expired unique_violation : Error
  can_only_resend_pending can_only_revoke_pending : Error
  already : InvitationStatus → Error

abbrev pub Method : Type 0 → Type 0
Method = Action Db Error
