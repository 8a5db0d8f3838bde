-- ===== src/Invitations/Outcome.antt =====
-- How an acceptance ends.
use mathlib.Core.Path.{subst}
use delivery_tracking.Prelude.{
  List, sym, ℕ, ◌≡◌, ◌⊎◌, refl, inl, inr, true, false, some, [], ◌∷◌, ◌++◌, any, ok, err, Result,
  arith, Bool-cases, Option-cases, transaction, ltb,
}
use delivery_tracking.Prelude.Table.{find?, update_first}
use delivery_tracking.Invitations.Model.{
  expired, UserRole, admin, dispatcher, driver, client, Invitation, accepted, User, Driver, Db,
  Error, UserData, unique_violation, invitation_not_found, invitation_expired, already,
}
use delivery_tracking.Invitations.Service.{
  set_status, has_id, has_email, has_token, is_pending, find_by_token,
}
use delivery_tracking.Invitations.Accept.{
  Keys, new_user, new_driver, has_license, is_same_person, insert_user, insert_driver, join_drivers,
  commit_accept, accept,
}

abbrev pub as_accepted : ℕ → Invitation → Invitation
as_accepted now r = record r { status = accepted; accepted_at = some now }

-- The method leaves all but the drivers, and throws nothing but for a unique index.
abbrev OnlyDrivers : Db → Result Error (Unit {0}) × Db → Type 0
OnlyDrivers db r =
    ((r.0 ≡ ok tt) ⊎ (r.0 ≡ err unique_violation))
    × (r.1.invitations ≡ db.invitations)
    × (r.1.users ≡ db.users)

insert_driver-OnlyDrivers : (d : Driver) (db : Db) → OnlyDrivers db (insert_driver d db)
unfolding insert_driver
insert_driver-OnlyDrivers d db = elim (Bool-cases (any (has_license d) db.drivers)) [
  | inl t ↦ rw t (inr refl, refl, refl)
  | inr f ↦ rw f (inl refl, refl, refl)
]

join_drivers-OnlyDrivers :
    (role : UserRole) (k : Keys) (u : UserData) (i : Invitation) (db : Db)
    → OnlyDrivers db (join_drivers role k u i db)
unfolding join_drivers
join_drivers-OnlyDrivers admin k u i db = (inl refl, refl, refl)
join_drivers-OnlyDrivers dispatcher k u i db = (inl refl, refl, refl)
join_drivers-OnlyDrivers client k u i db = (inl refl, refl, refl)
join_drivers-OnlyDrivers driver k u i db =
    elim (Option-cases (find? (is_same_person i.company_id i.email) db.drivers)) [
      | inl e ↦ rw e (insert_driver-OnlyDrivers (new_driver k u i) db)
      | inr (d, e) ↦ rw e (inl refl, refl, refl)
    ]

-- The account is created with the invitation's address, role and company, and the invitation is
-- accepted; or nothing changes.
pub record Accepts (k : Keys) (now : ℕ) (u : UserData) (i : Invitation) (db : Db)
    (r : Result Error User × Db) : Type 0 where
  pub answer : r.0 ≡ ok (new_user k u i)
  pub free : any (has_email i.email) db.users ≡ false
  pub users : r.1.users ≡ db.users ++ (new_user k u i ∷ [])
  pub invitations : r.1.invitations ≡ update_first (has_id i.id) (as_accepted now) db.invitations

insert_user-free :
    (u : User) (db : Db)
    → any (has_email u.email) db.users ≡ false
    → insert_user u db ≡ (ok tt, record db { users = db.users ++ (u ∷ []) })
unfolding insert_user
insert_user-free u db f = rw f refl

insert_user-taken :
    (u : User) (db : Db)
    → any (has_email u.email) db.users ≡ true
    → insert_user u db ≡ (err unique_violation, db)
unfolding insert_user
insert_user-taken u db t = rw t refl

pub commit_accept-cases :
    (k : Keys) (now : ℕ) (u : UserData) (i : Invitation) (db : Db)
    → (transaction (commit_accept k now u i) db ≡ (err unique_violation, db))
      ⊎ Accepts k now u i db (transaction (commit_accept k now u i) db)
unfolding commit_accept
commit_accept-cases k now u i db =
    let db1 : Db = record db { users = db.users ++ (new_user k u i ∷ []) } in
    let (ends, same_invitations, same_users) = join_drivers-OnlyDrivers i.role k u i db1 in
    elim (Bool-cases (any (has_email i.email) db.users)) [
      | inl t ↦ inl (ground (arith, insert_user-taken (new_user k u i) db t))
      | inr f ↦
          let w = insert_user-free (new_user k u i) db f in
          elim ends [
            | inr e ↦ inl (ground (arith, w, e))
            | inl e ↦ inr (record {
              answer = ground (arith, w, e);
              free = f;
              users = ground (arith, w, e, same_users);
              invitations = ground (arith, w, e, same_invitations);
            })
          ]
    ]

-- The table is as it was, or one invitation that waited and has expired is marked as expired.
abbrev pub AtMostExpires : ℕ → ℕ → List Invitation → List Invitation → Type 0
AtMostExpires now token before after =
    (after ≡ before)
    ⊎ ((i : Invitation) × (find? (has_token token) before ≡ some i)
        × (is_pending i.status ≡ true)
        × (ltb i.expires_at now ≡ true)
        × (after ≡ update_first (has_id i.id) (set_status expired) before))

-- An exception is thrown, and nothing changes but for an invitation that expires.
abbrev pub IsRefused : {A : Type 0} → ℕ → ℕ → Db → Result Error A × Db → Type 0
IsRefused {A} now token db r =
    ((e : Error) × (r.0 ≡ err e))
    × (r.1.users ≡ db.users)
    × (r.1.drivers ≡ db.drivers)
    × (r.1.mails ≡ db.mails)
    × AtMostExpires now token db.invitations r.1.invitations

-- The token finds an invitation that waits and has not expired.
abbrev pub IsOpen : ℕ → ℕ → Db → Invitation → Type 0
IsOpen now token db i =
    (find? (has_token token) db.invitations ≡ some i)
    × (is_pending i.status ≡ true)
    × (ltb i.expires_at now ≡ false)

pub find_by_token-cases :
    (now token : ℕ) (db : Db)
    → IsRefused now token db (find_by_token now token db)
      ⊎ ((i : Invitation) × (IsOpen now token db i × (find_by_token now token db ≡ (ok i, db))))
unfolding find_by_token
find_by_token-cases now token db = elim (Option-cases (find? (has_token token) db.invitations)) [
  | inl e ↦ inl (
    (invitation_not_found, ground (arith, e)),
    ground (arith, e),
    ground (arith, e),
    ground (arith, e),
    inl (ground (arith, e)),
  )
  | inr (i, e) ↦ elim (Bool-cases (is_pending i.status)) [
    | inr n ↦ inl (
      (already i.status, ground (arith, e, n)),
      ground (arith, e, n),
      ground (arith, e, n),
      ground (arith, e, n),
      inl (ground (arith, e, n)),
    )
    | inl p ↦ elim (Bool-cases (ltb i.expires_at now)) [
      | inl t ↦ inl (
        (invitation_expired, ground (arith, e, p, t)),
        ground (arith, e, p, t),
        ground (arith, e, p, t),
        ground (arith, e, p, t),
        inr (i, e, p, t, ground (arith, e, p, t)),
      )
      | inr f ↦ inr (i, ((e, p, f), ground (arith, e, p, f)))
    ]
  ]
]

-- An acceptance either throws and changes nothing, but that an invitation that waited and has expired
-- is marked as expired, or its token finds an invitation that waits and has not expired, no user has the address, and then one account joins the
-- users, with the address, role and company of the invitation, which is accepted.
pub accept-ends :
    (k : Keys) (now token : ℕ) (u : UserData) (db : Db)
    → IsRefused now token db (accept k now token u db)
      ⊎ ((i : Invitation) × (IsOpen now token db i
            × Accepts k now u i db (accept k now token u db)))
unfolding accept
accept-ends k now token u db = elim (find_by_token-cases now token db) [
  | inl ((e, t), a, b, c, m) ↦
      let same : (accept k now token u db).1 ≡ (find_by_token now token db).1 = ground (arith, t) in
      inl (
        (e, ground (arith, t)),
        ground (arith, t, a),
        ground (arith, t, b),
        ground (arith, t, c),
        subst (λ t. AtMostExpires now token db.invitations t.invitations) (sym same) m,
      )
  | inr (i, (o, e)) ↦ elim (commit_accept-cases k now u i db) [
    | inl t ↦ inl (
      (unique_violation, ground (arith, e, t)),
      ground (arith, e, t),
      ground (arith, e, t),
      ground (arith, e, t),
      inl (ground (arith, e, t)),
    )
    | inr t ↦ inr (
      i,
      (
        o,
        record {
          answer = ground (arith, e, t.answer);
          free = t.free;
          users = ground (arith, e, t.users, t.answer);
          invitations = ground (arith, e, t.invitations, t.answer);
        },
      ),
    )
  ]
]
