-- ===== src/Invitations/Closed.antt =====
-- An invitation that no longer waits stays as it is.
use mathlib.Core.Path.{subst}
use delivery_tracking.Prelude.{
  ℕ, ◌==◌, ==_iff, ◌≡◌, refl, inl, inr, Bool, true, false, not, ◌&&◌, some, List, [], ◌∷◌, any, err,
  arith, Bool-cases, Option-cases,
}
use delivery_tracking.Prelude.Table.{
  find?, find?-holds, find?-append, find?-skips, find?-misses, update_first,
}
use delivery_tracking.Prelude.Unique.{IsUnique, update_first-IsUnique, append-IsUnique, find?-same}
use delivery_tracking.Invitations.Model.{
  Invitation, expired, revoked, already, Db, CreateInvitationDto, UserData,
}
use delivery_tracking.Invitations.Service.{
  is_pending, has_token, has_id, same_id, normalize, insert_invitation, new_invitation, create,
  set_status, find_by_token, resend, revoke,
}
use delivery_tracking.Invitations.Accept.{Keys, accept}
use delivery_tracking.Invitations.Outcome.{as_accepted, commit_accept-cases, find_by_token-cases}
use delivery_tracking.Invitations.Single.{insert_invitation-cases, renewed}
use delivery_tracking.Invitations.Requests.{
  Request, creates, looks_up, accepts, resends, revokes, serve, serve_all,
}

-- The rows have distinct keys, and the token finds the invitation.
pub record Keeps (token : ℕ) (i : Invitation) (invitations : List Invitation) : Type 0 where
  pub distinct : IsUnique same_id invitations
  pub found : find? (has_token token) invitations ≡ some i

same_id-sym : (i j : Invitation) → same_id i j ≡ same_id j i
same_id-sym i j = ground arith

module _ (token : ℕ) (i : Invitation) (closed : is_pending i.status ≡ false) where
  -- The row that waits and is found by another test is another row.
  another :
      (q : Invitation → Bool) (xs : List Invitation) (j : Invitation)
      → Keeps token i xs
      → find? q xs ≡ some j
      → is_pending j.status ≡ true
      → (i.id == j.id) ≡ false
  another q xs j h e w = elim (Bool-cases (same_id i j)) [
    | inl s ↦ absurd (
        cc (
          find?-same same_id same_id-sym (has_token token) q xs i j h.distinct h.found e s,
          closed,
          w,
        ))
    | inr d ↦ ground (arith, d)
  ]

  -- So an update of that row leaves this one, if no other row takes its token.
  updated-Keeps :
      (q : Invitation → Bool) (f : Invitation → Invitation) (xs : List Invitation) (j : Invitation)
      → Keeps token i xs
      → find? q xs ≡ some j
      → is_pending j.status ≡ true
      → ((y : Invitation) → (f y).id ≡ y.id)
      → ((y : Invitation)
          → has_id j.id y ≡ true
          → has_token token y ≡ false
          → has_token token (f y) ≡ false)
      → Keeps token i (update_first (has_id j.id) f xs)
  updated-Keeps q f xs j h e w k t = record {
    distinct =
        update_first-IsUnique same_id f (has_id j.id) xs
          ((λ x y o. rw (k x) o), (λ x y o. rw (k y) o)) h.distinct;
    found = find?-skips (has_token token) (has_id j.id) f xs i t h.found (another q xs j h e w);
  }

  insert_invitation-Keeps :
      (j : Invitation) (db : Db)
      → Keeps token i db.invitations
      → Keeps token i (insert_invitation j db).1.invitations
  insert_invitation-Keeps j db h = elim (insert_invitation-cases j db) [
    | inl e ↦ rw e h
    | inr (new, f, e) ↦ rw e (record {
      distinct = append-IsUnique same_id same_id-sym j db.invitations new h.distinct;
      found = find?-append (has_token token) db.invitations (j ∷ []) i h.found;
    })
  ]

  create-Keeps :
      (new_id new_token now company_id invited_by_id : ℕ) (dto : CreateInvitationDto) (db : Db)
      → Keeps token i db.invitations
      → Keeps token i (create new_id new_token now company_id invited_by_id dto db).1.invitations
  unfolding create
  create-Keeps new_id new_token now company_id invited_by_id dto db h = ground (
    arith,
    insert_invitation-Keeps
        (new_invitation new_id new_token now company_id invited_by_id (normalize dto.email)
          dto.role)
        db h,
  )

  find_by_token-Keeps :
      (now t : ℕ) (db : Db)
      → Keeps token i db.invitations
      → Keeps token i (find_by_token now t db).1.invitations
  unfolding find_by_token
  find_by_token-Keeps now t db h = elim (Option-cases (find? (has_token t) db.invitations)) [
    | inl e ↦ ground (arith, e, h)
    | inr (j, e) ↦ elim (Bool-cases (is_pending j.status)) [
      | inr n ↦ ground (arith, e, n, h)
      | inl p ↦ ground (
        arith,
        e,
        p,
        h,
        updated-Keeps (has_token t) (set_status expired) db.invitations j h e p
            (λ (y : Invitation). refl)
            (λ (y : Invitation) (_ : has_id j.id y ≡ true) (o : has_token token y ≡ false). o),
      )
    ]
  ]

  accept-Keeps :
      (k : Keys) (now t : ℕ) (u : UserData) (db : Db)
      → Keeps token i db.invitations
      → Keeps token i (accept k now t u db).1.invitations
  unfolding accept
  accept-Keeps k now t u db h = elim (find_by_token-cases now t db) [
    | inl ((e, r), _, _, _, _) ↦ ground (arith, r, find_by_token-Keeps now t db h)
    | inr (j, ((found, waits, _), e)) ↦ elim (commit_accept-cases k now u j db) [
      | inl r ↦ ground (arith, e, r, h)
      | inr r ↦ ground (
        arith,
        e,
        r.answer,
        r.invitations,
        updated-Keeps (has_token t) (as_accepted now) db.invitations j h found waits
            (λ (y : Invitation). refl)
            (λ (y : Invitation) (_ : has_id j.id y ≡ true) (o : has_token token y ≡ false). o),
      )
    ]
  ]

  own_id :
      (company_id id : ℕ) (xs : List Invitation) (j : Invitation)
      → find? (λ j. j.id == id && j.company_id == company_id) xs ≡ some j
      → j.id ≡ id
  own_id company_id id xs j e = ground (
    arith,
    ==_iff j.id id,
    find?-holds (λ (j : Invitation). j.id == id && j.company_id == company_id) xs j e,
  )

  revoke-Keeps :
      (company_id id : ℕ) (db : Db)
      → Keeps token i db.invitations
      → Keeps token i (revoke company_id id db).1.invitations
  unfolding revoke
  revoke-Keeps company_id id db h =
      elim (Option-cases (find? (λ j. j.id == id && j.company_id == company_id) db.invitations)) [
        | inl e ↦ ground (arith, e, h)
        | inr (j, e) ↦ elim (Bool-cases (is_pending j.status)) [
          | inr n ↦ ground (arith, e, n, h)
          | inl w ↦
              let k =
                updated-Keeps (λ j. j.id == id && j.company_id == company_id) (set_status revoked)
                  db.invitations j h e w (λ y. refl) (λ y _ o. o) in
              let k' : Keeps token i
                  (update_first (has_id id) (set_status revoked) db.invitations) =
                subst
                  (λ n. Keeps token i (update_first (has_id n) (set_status revoked) db.invitations))
                  (own_id company_id id db.invitations j e) k in
              ground (arith, e, w, k')
        ]
      ]

  resend-Keeps :
      (new_token now company_id id : ℕ) (db : Db)
      → Keeps token i db.invitations
      → Keeps token i (resend new_token now company_id id db).1.invitations
  unfolding resend
  resend-Keeps new_token now company_id id db h =
      elim (Option-cases (find? (λ j. j.id == id && j.company_id == company_id) db.invitations)) [
        | inl e ↦ ground (arith, e, h)
        | inr (j, e) ↦ elim (Bool-cases (is_pending j.status)) [
          | inr n ↦ ground (arith, e, n, h)
          | inl w ↦
              elim (Bool-cases
                (any (λ k. not (k.id == id) && has_token new_token k) db.invitations)) [
                  | inl t ↦ ground (arith, e, w, t, h)
                  | inr f ↦
                      let same = own_id company_id id db.invitations j e in
                      let other =
                        another (λ j. j.id == id && j.company_id == company_id) db.invitations j h e
                          w in
                      let free : (new_token == token) ≡ false = ground (
                        arith,
                        same,
                        other,
                        find?-misses (λ (k : Invitation). not (k.id == id) && has_token new_token k)
                            (has_token token) db.invitations i f h.found,
                        find?-holds (has_token token) db.invitations i h.found,
                        ==_iff i.token token,
                        ==_iff new_token token,
                        ==_iff i.token new_token,
                      ) in
                      let k =
                        updated-Keeps (λ j. j.id == id && j.company_id == company_id)
                          (renewed new_token now) db.invitations j h e w (λ y. refl)
                          (λ y _ _. free) in
                      let k' : Keeps token i
                          (update_first (has_id id) (renewed new_token now) db.invitations) =
                        subst
                          (λ n.
                            Keeps token i
                              (update_first (has_id n) (renewed new_token now) db.invitations))
                          same k in
                      ground (arith, e, w, f, k')
                ]
        ]
      ]

  serve-Keeps :
      (r : Request) (db : Db)
      → Keeps token i db.invitations
      → Keeps token i (serve r db).invitations
  unfolding serve
  serve-Keeps (creates new_id t now company_id invited_by_id dto) db h =
      create-Keeps new_id t now company_id invited_by_id dto db h
  serve-Keeps (looks_up now t) db h = find_by_token-Keeps now t db h
  serve-Keeps (accepts k now t u) db h = accept-Keeps k now t u db h
  serve-Keeps (resends t now company_id id) db h = resend-Keeps t now company_id id db h
  serve-Keeps (revokes company_id id) db h = revoke-Keeps company_id id db h

  serve_all-Keeps :
      (rs : List Request) (db : Db)
      → Keeps token i db.invitations
      → Keeps token i (serve_all rs db).invitations
  serve_all-Keeps [] db h = h
  serve_all-Keeps (r ∷ rs) db h = serve_all-Keeps rs (serve r db) (serve-Keeps r db h)

  -- An acceptance with the token of an invitation that was accepted, revoked or expired is refused
  -- with that status and changes nothing, after any requests, where invitations have distinct keys.
  pub accept-refuses_closed :
      (db : Db) (rs : List Request) (k : Keys) (now : ℕ) (u : UserData)
      → Keeps token i db.invitations
      → accept k now token u (serve_all rs db) ≡ (err (already i.status), serve_all rs db)
  unfolding accept find_by_token
  accept-refuses_closed db rs k now u h =
      let found = (serve_all-Keeps rs db h).found in ground (arith, found, closed)
