-- ===== src/Invitations/Accept.antt =====
-- accept of backend/src/modules/invitations/invitations.service.ts.
use delivery_tracking.Prelude.{
  ℕ, ◌==◌, Bool, false, ◌&&◌, Option, none, some, List, [], ◌∷◌, ◌++◌, any, is_none, if◌then◌else◌,
  ok, err, pure, modify, transaction, ◌>>=◌, ◌>>◌,
}
use delivery_tracking.Prelude.Table.{find?, update_first}
use delivery_tracking.Prelude.Texts.{same}
use delivery_tracking.Invitations.Model.{
  UserRole, admin, dispatcher, driver, client, accepted, Invitation, User, Driver, UserData, Method,
  unique_violation,
}
use delivery_tracking.Invitations.Service.{has_id, has_email, find_by_token}

-- An address of a user is unique on the whole platform.
unfoldable pub insert_user : User → Method (Unit {0})
insert_user u db =
    if any (has_email u.email) db.users
    then (err unique_violation, db)
    else (ok tt, record db { users = db.users ++ (u ∷ []) })

abbrev pub has_license : Driver → Driver → Bool
has_license d r = r.company_id == d.company_id && same r.license_number d.license_number

unfoldable pub insert_driver : Driver → Method (Unit {0})
insert_driver d db =
    if any (has_license d) db.drivers
    then (err unique_violation, db)
    else (ok tt, record db { drivers = db.drivers ++ (d ∷ []) })

abbrev is_text : Option (List ℕ) → List ℕ → Bool
is_text none t = false
is_text (some s) t = same s t

abbrev pub is_same_person : ℕ → List ℕ → Driver → Bool
is_same_person company_id email d =
    d.company_id == company_id && (is_text d.email email && is_none d.deleted_at)

-- What the database and the code make for the new rows: the keys, and the number of a licence from
-- the key of the user.
pub record Keys : Type 0 where
  pub user_id : ℕ
  pub driver_id : ℕ
  pub license_number : List ℕ

abbrev pub new_user : Keys → UserData → Invitation → User
new_user k u i = record {
  id = k.user_id;
  email = i.email;
  password_hash = u.password_hash;
  first_name = u.first_name;
  last_name = u.last_name;
  phone = u.phone;
  role = i.role;
  company_id = i.company_id;
}

abbrev pub new_driver : Keys → UserData → Invitation → Driver
new_driver k u i = record {
  id = k.driver_id;
  first_name = u.first_name;
  last_name = u.last_name;
  email = some i.email;
  phone = u.phone;
  license_number = k.license_number;
  company_id = i.company_id;
  user_id = some k.user_id;
  deleted_at = none;
}

abbrev link_or_create : Option Driver → Keys → UserData → Invitation → Method (Unit {0})
link_or_create none k u i = insert_driver (new_driver k u i)
link_or_create (some d) k u i = modify (λ db. record db {
  drivers =
      update_first (λ r. r.id == d.id) (λ r. record r { user_id = some k.user_id }) db.drivers;
})

-- The driver's row of an invitee who is to be a driver.
unfoldable pub join_drivers : UserRole → Keys → UserData → Invitation → Method (Unit {0})
join_drivers admin k u i = pure tt
join_drivers dispatcher k u i = pure tt
join_drivers client k u i = pure tt
join_drivers driver k u i =
    λ db. link_or_create (find? (is_same_person i.company_id i.email) db.drivers) k u i db

-- The body of the transaction of `accept`.
unfoldable pub commit_accept : Keys → ℕ → UserData → Invitation → Method User
commit_accept k now u i = do
  insert_user (new_user k u i)
  join_drivers i.role k u i
  modify (λ db. record db {
    invitations =
        update_first (has_id i.id) (λ r. record r { status = accepted; accepted_at = some now })
          db.invitations;
  })
  pure (new_user k u i)

unfoldable pub accept : Keys → ℕ → ℕ → UserData → Method User
accept k now token u = do i ← find_by_token now token; transaction (commit_accept k now u i)
