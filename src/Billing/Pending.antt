-- ===== src/Billing/Pending.antt =====
-- The proofs that wait for review, and how one step may change them.
use delivery_tracking.Prelude.{
  ℕ, ◌≡◌, refl, ◌&&◌, ◌==◌, ◌⊎◌, inl, inr, Bool, false, List, [], ◌∷◌, ◌++◌, any, arith, Bool-cases,
  Option-cases,
}
use delivery_tracking.Prelude.Table.{find?, update_first}
use delivery_tracking.Prelude.Unique.{IsUnique, IsSafe, update_first-IsUnique, append-IsUnique}
use delivery_tracking.Billing.Model.{PaymentProof, Db}
use delivery_tracking.Billing.Service.{is_pending, is_pending_of, insert_proof, update_proof}

-- Two proofs that wait, of the same company.
abbrev pub clashes : PaymentProof → PaymentProof → Bool
clashes p q = is_pending p.status && is_pending_of p.company_id q

-- No company has two proofs that wait.
abbrev pub IsSinglePending : List PaymentProof → Type 0
IsSinglePending ps = IsUnique clashes ps

-- The change keeps a proof's company, and makes no proof wait that did not.
abbrev pub Settles : (PaymentProof → PaymentProof) → Type 0
Settles f =
    (p : PaymentProof)
    → ((f p).company_id ≡ p.company_id)
      × (is_pending p.status ≡ false → is_pending (f p).status ≡ false)

Settles-IsSafe : (f : PaymentProof → PaymentProof) → Settles f → IsSafe clashes f
Settles-IsSafe f k =
    ((λ p q h. ground (arith, (k p).0, (k p).1)), (λ p q h. ground (arith, (k q).0, (k q).1)))

clashes-sym : (p q : PaymentProof) → clashes p q ≡ clashes q p
clashes-sym p q = ground arith

none_clashes :
    (p : PaymentProof) (ps : List PaymentProof)
    → any (is_pending_of p.company_id) ps ≡ false
    → any (clashes p) ps ≡ false
none_clashes p [] free = refl
none_clashes p (q ∷ ps) free = ground (arith, none_clashes p ps)

-- How a request may change the proofs: not at all, one proof that settles, or a proof that joins.
abbrev pub Change : List PaymentProof → List PaymentProof → Type 0
Change ps qs =
    (qs ≡ ps)
    ⊎ (((test : PaymentProof → Bool) × ((f : PaymentProof → PaymentProof) × (Settles f
              × (qs ≡ update_first test f ps))))
        ⊎ ((p : PaymentProof) × ((any (is_pending_of p.company_id) ps ≡ false)
              × (qs ≡ ps ++ p ∷ []))))

pub Change-IsSinglePending :
    (ps qs : List PaymentProof) → Change ps qs → IsSinglePending ps → IsSinglePending qs
Change-IsSinglePending ps qs (inl e) h = rw e h
Change-IsSinglePending ps qs (inr (inl (test, (f, (k, e))))) h =
    rw e (update_first-IsUnique clashes f test ps (Settles-IsSafe f k) h)
Change-IsSinglePending ps qs (inr (inr (p, (free, e)))) h =
    rw e (append-IsUnique clashes clashes-sym p ps (none_clashes p ps free) h)

pub update_proof-Change :
    (id : ℕ) (f : PaymentProof → PaymentProof) (db : Db)
    → Settles f
    → Change db.proofs (update_proof id f db).1.proofs
unfolding update_proof
update_proof-Change id f db k = elim (Option-cases (find? (λ p. p.id == id) db.proofs)) [
  | inl gone ↦ inl (ground arith)
  | inr (p, found) ↦ inr (inl ((λ p. p.id == id), (f, (k, ground arith))))
]

pub insert_proof-Change :
    (p : PaymentProof) (db : Db) → Change db.proofs (insert_proof p db).1.proofs
unfolding insert_proof
insert_proof-Change p db = elim (Bool-cases (any (λ r. r.id == p.id) db.proofs)) [
  | inl taken ↦ inl (ground arith)
  | inr new ↦ elim (Bool-cases (any (is_pending_of p.company_id) db.proofs)) [
    | inl waiting ↦ inl (ground arith)
    | inr free ↦ inr (inr (p, (free, ground arith)))
  ]
]
