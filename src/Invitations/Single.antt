-- ===== src/Invitations/Single.antt =====
-- One invitation waits for an address in a company.
use delivery_tracking.Prelude.{
  ℕ, ◌+◌, ◌≡◌, ◌⊎◌, refl, inl, inr, false, List, [], ◌∷◌, ◌++◌, any, ok, err, arith, Bool-cases,
  Option-cases,
}
use delivery_tracking.Prelude.Table.{find?}
use delivery_tracking.Prelude.Texts.{same-sym}
use delivery_tracking.Prelude.Unique.{IsUnique, IsSafe, update_first-IsUnique, append-IsUnique}
use delivery_tracking.Invitations.Model.{
  Invitation, expired, revoked, Db, CreateInvitationDto, UserData, already_pending,
}
use delivery_tracking.Invitations.Service.{
  is_pending, has_token, has_id, same_id, normalize, clashes, insert_invitation, new_invitation,
  create, set_status, find_by_token, resend, revoke, invitation_expiry,
}
use delivery_tracking.Invitations.Accept.{Keys, accept}
use delivery_tracking.Invitations.Outcome.{as_accepted, commit_accept-cases, find_by_token-cases}
use delivery_tracking.Invitations.Requests.{
  Request, creates, looks_up, accepts, resends, revokes, serve, serve_all,
}

clashes-sym : (i j : Invitation) → clashes i j ≡ clashes j i
clashes-sym i j = ground (arith, same-sym i.email j.email)

-- No company has two invitations that wait for the same address.
abbrev pub IsSingle : Db → Type 0
IsSingle db = IsUnique clashes db.invitations

closed-IsSafe :
    (f : Invitation → Invitation)
    → ((i : Invitation) → is_pending (f i).status ≡ false)
    → IsSafe clashes f
closed-IsSafe f k = ((λ x y h. ground (arith, k x)), (λ x y h. ground (arith, k y)))

pub insert_invitation-cases :
    (i : Invitation) (db : Db)
    → (insert_invitation i db ≡ (err already_pending, db))
      ⊎ ((any (same_id i) db.invitations ≡ false)
          × (any (clashes i) db.invitations ≡ false)
          × (insert_invitation i db
              ≡ (ok tt, record db { invitations = db.invitations ++ (i ∷ []) })))
unfolding insert_invitation
insert_invitation-cases i db = elim (Bool-cases (any (same_id i) db.invitations)) [
  | inl t ↦ rw t (inl refl)
  | inr k ↦ elim (Bool-cases (any (clashes i) db.invitations)) [
    | inl t ↦ rw (k, t) (inl refl)
    | inr f ↦ elim (Bool-cases (any (has_token i.token) db.invitations)) [
      | inl t ↦ rw (k, f, t) (inl refl)
      | inr g ↦ rw (k, f, g) (inr (refl, refl, refl))
    ]
  ]
]

insert_invitation-IsSingle :
    (i : Invitation) (db : Db) → IsSingle db → IsSingle (insert_invitation i db).1
insert_invitation-IsSingle i db h = elim (insert_invitation-cases i db) [
  | inl e ↦ rw e h
  | inr (k, f, e) ↦ rw e (append-IsUnique clashes clashes-sym i db.invitations f h)
]

create-IsSingle :
    (new_id token now company_id invited_by_id : ℕ) (dto : CreateInvitationDto) (db : Db)
    → IsSingle db
    → IsSingle (create new_id token now company_id invited_by_id dto db).1
unfolding create
create-IsSingle new_id token now company_id invited_by_id dto db h = ground (
  arith,
  insert_invitation-IsSingle
      (new_invitation new_id token now company_id invited_by_id (normalize dto.email) dto.role) db
      h,
)

find_by_token-IsSingle :
    (now token : ℕ) (db : Db) → IsSingle db → IsSingle (find_by_token now token db).1
unfolding find_by_token
find_by_token-IsSingle now token db h =
    elim (Option-cases (find? (has_token token) db.invitations)) [
      | inl e ↦ ground (arith, e, h)
      | inr (i, e) ↦ ground (
        arith,
        e,
        update_first-IsUnique clashes (set_status expired) (has_id i.id) db.invitations
            (closed-IsSafe (set_status expired) (λ (j : Invitation). refl)) h,
      )
    ]

revoke-IsSingle : (company_id id : ℕ) (db : Db) → IsSingle db → IsSingle (revoke company_id id db).1
unfolding revoke
revoke-IsSingle company_id id db h = ground (
  arith,
  update_first-IsUnique clashes (set_status revoked) (has_id id) db.invitations
      (closed-IsSafe (set_status revoked) (λ (j : Invitation). refl)) h,
)

abbrev pub renewed : ℕ → ℕ → Invitation → Invitation
renewed token now i = record i { token = token; expires_at = now + invitation_expiry }

resend-IsSingle :
    (token now company_id id : ℕ) (db : Db)
    → IsSingle db
    → IsSingle (resend token now company_id id db).1
unfolding resend
resend-IsSingle token now company_id id db h = ground (
  arith,
  update_first-IsUnique clashes (renewed token now) (has_id id) db.invitations
      (
        (λ (x y : Invitation) (e : clashes x y ≡ false). e),
        (λ (x y : Invitation) (e : clashes x y ≡ false). e),
      )
      h,
)

accept-IsSingle :
    (k : Keys) (now token : ℕ) (u : UserData) (db : Db)
    → IsSingle db
    → IsSingle (accept k now token u db).1
unfolding accept
accept-IsSingle k now token u db h = elim (find_by_token-cases now token db) [
  | inl ((e, t), _, _, _, _) ↦ ground (arith, t, find_by_token-IsSingle now token db h)
  | inr (i, (o, e)) ↦ elim (commit_accept-cases k now u i db) [
    | inl t ↦ ground (arith, e, t, h)
    | inr t ↦ ground (
      arith,
      e,
      t.answer,
      t.invitations,
      update_first-IsUnique clashes (as_accepted now) (has_id i.id) db.invitations
          (closed-IsSafe (as_accepted now) (λ (j : Invitation). refl)) h,
    )
  ]
]

serve-IsSingle : (r : Request) (db : Db) → IsSingle db → IsSingle (serve r db)
unfolding serve
serve-IsSingle (creates new_id token now company_id invited_by_id dto) db h =
    create-IsSingle new_id token now company_id invited_by_id dto db h
serve-IsSingle (looks_up now token) db h = find_by_token-IsSingle now token db h
serve-IsSingle (accepts k now token u) db h = accept-IsSingle k now token u db h
serve-IsSingle (resends token now company_id id) db h = resend-IsSingle token now company_id id db h
serve-IsSingle (revokes company_id id) db h = revoke-IsSingle company_id id db h

-- Sequences of requests on invitations leave no company with two invitations that wait for the same
-- address.
pub serve_all-IsSingle : (rs : List Request) (db : Db) → IsSingle db → IsSingle (serve_all rs db)
serve_all-IsSingle [] db h = h
serve_all-IsSingle (r ∷ rs) db h = serve_all-IsSingle rs (serve r db) (serve-IsSingle r db h)
