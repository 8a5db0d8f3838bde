-- ===== src/Billing/Requests.antt =====
-- The requests on payment proofs as one command language:
-- backend/src/modules/manual-billing/manual-billing.service.ts and
-- backend/src/modules/platform-admin/payment-proofs.service.ts.
use mathlib.Core.Path.{subst}
use delivery_tracking.Prelude.{
  ℕ, String, ◌≡◌, refl, sym, ap, ◌∙◌, inl, Bool, true, false, Option, none, some, List, [], ◌∷◌,
  Result, ◌>>=◌, pure, throw_if, or_throw, ok, err,
}
use delivery_tracking.Billing.Model.{
  Method, PaymentProof, SubmitPaymentProofDto, ProofFile, Error, Db,
}
use delivery_tracking.Billing.Service.{
  check_file, insert_proof, submit_proof, update_proof, find_pending, approved_proof, approve,
  rejected_proof, reject, check_redeem, redeem, commit_redeem, activate_subscription,
}
use delivery_tracking.Billing.Pending.{
  IsSinglePending, Change, Settles, Change-IsSinglePending, update_proof-Change,
  insert_proof-Change,
}

-- A request, with the instant at which it runs and the keys that the database gives.
pub data Request : Type 0 where
  submit : (new_id company_id user_id : ℕ) → SubmitPaymentProofDto → Option ProofFile → Request
  approval : (now id admin_id hash : ℕ) → Request
  rejection : (now id admin_id : ℕ) → String → Request
  redemption : (new_id now company_id hash : ℕ) → Request

unfoldable pub serve : Request → Db → Db
unfolding submit_proof approve reject redeem
serve (submit new_id company_id user_id dto file) db =
    (submit_proof new_id company_id user_id dto file db).1
serve (approval now id admin_id hash) db = (approve now id admin_id hash db).1
serve (rejection now id admin_id reason) db = (reject now id admin_id reason db).1
serve (redemption new_id now company_id hash) db = (redeem new_id now company_id hash db).1

unfoldable pub serve_all : List Request → Db → Db
unfolding serve
serve_all [] db = db
serve_all (r ∷ rs) db = serve_all rs (serve r db)

pub record Still {A : Type 0} (m : Method A) : Type 0 where
  pub at : (db : Db) → (m db).1 ≡ db

pub record Moves {A : Type 0} (m : Method A) : Type 0 where
  pub at : (db : Db) → Change db.proofs (m db).1.proofs

after_still :
    {A B : Type 0} (db : Db) (f : A → Method B) (r : Result Error A × Db)
    → r.1 ≡ db
    → ((a : A) → Moves (f a))
    → Change db.proofs
        (elim r.0 as (λ _. Result Error B × Db) [ ok a ↦ f a r.1 | err e ↦ (err e, r.1) ]).1.proofs
after_still db f (ok a, t) e k = subst (λ s. Change s.proofs (f a t).1.proofs) e ((k a).at t)
after_still db f (err e', t) e k = inl (ap (λ s. s.proofs) e)

Moves-bind :
    {A B : Type 0} (m : Method A) (f : A → Method B)
    → Still m
    → ((a : A) → Moves (f a))
    → Moves (m >>= f)
Moves-bind m f s k = record { at = λ db. after_still db f (m db) (s.at db) k }

before_still :
    {A B : Type 0} (ps : List PaymentProof) (f : A → Method B) (r : Result Error A × Db)
    → Change ps r.1.proofs
    → ((a : A) (db : Db) → (f a db).1.proofs ≡ db.proofs)
    → Change ps
        (elim r.0 as (λ _. Result Error B × Db) [ ok a ↦ f a r.1 | err e ↦ (err e, r.1) ]).1.proofs
before_still ps f (ok a, t) c k = subst (λ qs. Change ps qs) (sym (k a t)) c
before_still ps f (err e, t) c k = c

Still-after :
    {A B : Type 0} (db : Db) (f : A → Method B) (r : Result Error A × Db)
    → r.1 ≡ db
    → ((a : A) → Still (f a))
    → (elim r.0 as (λ _. Result Error B × Db) [ ok a ↦ f a r.1 | err e ↦ (err e, r.1) ]).1 ≡ db
Still-after db f (ok a, t) e k = (k a).at t ∙ e
Still-after db f (err x, t) e k = e

Still-bind :
    {A B : Type 0} (m : Method A) (f : A → Method B)
    → Still m
    → ((a : A) → Still (f a))
    → Still (m >>= f)
Still-bind m f s k = record { at = λ db. Still-after db f (m db) (s.at db) k }

Still-throw_if : (b : Bool) (e : Error) → Still (throw_if b e)
Still-throw_if true e = record { at = λ db. refl }
Still-throw_if false e = record { at = λ db. refl }

Still-or_throw : {A : Type 0} (o : Option A) (e : Error) → Still (or_throw o e)
Still-or_throw none e = record { at = λ db. refl }
Still-or_throw (some a) e = record { at = λ db. refl }

Still-pure : {A : Type 0} (a : A) → Still (pure a)
Still-pure a = record { at = λ db. refl }

Still-read : {A : Type 0} (f : Db → A) → Still (λ db. (ok (f db), db))
Still-read f = record { at = λ db. refl }

ruleset still_rules = (Still-bind, Still-throw_if, Still-or_throw, Still-pure, Still-read)

Still-check_file : (file : Option ProofFile) → Still (check_file file)
Still-check_file none = record { at = λ db. refl }
Still-check_file (some f) = search still_rules

Still-find_pending : (id : ℕ) → Still (find_pending id)
unfolding find_pending
Still-find_pending id = search still_rules

Still-check_redeem : (now company_id hash : ℕ) → Still (check_redeem now company_id hash)
unfolding check_redeem
Still-check_redeem now company_id hash = search (still_rules) depth 12

Moves-update_proof :
    (id : ℕ) (f : PaymentProof → PaymentProof) → Settles f → Moves (update_proof id f)
Moves-update_proof id f k = record { at = λ db. update_proof-Change id f db k }

Moves-insert_proof : (p : PaymentProof) → Moves (insert_proof p)
Moves-insert_proof p = record { at = λ db. insert_proof-Change p db }

Moves-submit_proof :
    (new_id company_id user_id : ℕ) (dto : SubmitPaymentProofDto) (file : Option ProofFile)
    → Moves (submit_proof new_id company_id user_id dto file)
unfolding submit_proof
Moves-submit_proof new_id company_id user_id dto file =
    search (still_rules, Still-check_file, Moves-bind, Moves-insert_proof) depth 12

Moves-approved :
    (now id admin_id hash : ℕ) → Moves (update_proof id (approved_proof now admin_id hash))
Moves-approved now id admin_id hash =
    Moves-update_proof id (approved_proof now admin_id hash) (λ p. (refl, λ _. refl))

Moves-approve : (now id admin_id hash : ℕ) → Moves (approve now id admin_id hash)
unfolding approve
Moves-approve now id admin_id hash =
    search (still_rules, Still-find_pending, Moves-bind, Moves-approved)

Moves-rejected :
    (now id admin_id : ℕ) (reason : String)
    → Moves (update_proof id (rejected_proof now admin_id reason))
Moves-rejected now id admin_id reason =
    Moves-update_proof id (rejected_proof now admin_id reason) (λ p. (refl, λ _. refl))

Moves-reject : (now id admin_id : ℕ) (reason : String) → Moves (reject now id admin_id reason)
unfolding reject
Moves-reject now id admin_id reason =
    search (still_rules, Still-find_pending, Moves-bind, Moves-rejected)

Moves-then :
    {A B : Type 0} (m : Method A) (f : A → Method B)
    → Moves m
    → ((a : A) (db : Db) → (f a db).1.proofs ≡ db.proofs)
    → Moves (m >>= f)
Moves-then m f k s = record { at = λ db. before_still db.proofs f (m db) (k.at db) s }

Moves-commit_redeem :
    (new_id now company_id : ℕ) (proof : PaymentProof)
    → Moves (commit_redeem new_id now company_id proof)
unfolding commit_redeem
Moves-commit_redeem new_id now company_id proof =
    Moves-then (update_proof proof.id (λ p. record p { redeemed_at = some now }))
      (λ _. activate_subscription new_id now company_id proof.claimed_plan_id)
      (Moves-update_proof proof.id (λ p. record p { redeemed_at = some now }) (λ p. (refl, λ k. k)))
      (λ _ _. refl)

Moves-redeem : (new_id now company_id hash : ℕ) → Moves (redeem new_id now company_id hash)
unfolding redeem
Moves-redeem new_id now company_id hash =
    search (Moves-bind, Still-check_redeem, Moves-commit_redeem)

Change-serve : (r : Request) (db : Db) → Change db.proofs (serve r db).proofs
unfolding serve
Change-serve (submit new_id company_id user_id dto file) db =
    (Moves-submit_proof new_id company_id user_id dto file).at db
Change-serve (approval now id admin_id hash) db = (Moves-approve now id admin_id hash).at db
Change-serve (rejection now id admin_id reason) db = (Moves-reject now id admin_id reason).at db
Change-serve (redemption new_id now company_id hash) db =
    (Moves-redeem new_id now company_id hash).at db

-- Submissions, approvals, rejections and redemptions in any number and order leave no company with
-- two proofs that wait for review, if none had two before.
pub serve_all-IsSinglePending :
    (rs : List Request) (db : Db)
    → IsSinglePending db.proofs
    → IsSinglePending (serve_all rs db).proofs
unfolding serve_all
serve_all-IsSinglePending [] db h = h
serve_all-IsSinglePending (r ∷ rs) db h =
    serve_all-IsSinglePending rs (serve r db)
      (Change-IsSinglePending db.proofs (serve r db).proofs (Change-serve r db) h)
