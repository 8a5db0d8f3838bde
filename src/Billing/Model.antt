-- ===== src/Billing/Model.antt =====
-- The rows of backend/prisma/schema.prisma that manual payment reads and writes. Identifiers, amounts
-- and instants in milliseconds are numbers; the hash of an activation code is a number too.
use delivery_tracking.Prelude.{ℕ, String, Bool, Option, List, Action}

pub data SubscriptionStatus : Type 0 where
  active canceled past_due incomplete unpaid trialing : SubscriptionStatus

pub record Subscription : Type 0 where
  pub id : ℕ
  pub company_id : ℕ
  pub plan_id : ℕ
  pub status : SubscriptionStatus
  pub is_manual : Bool
  pub current_period_start : ℕ
  pub current_period_end : ℕ
  pub trial_ends_at : Option ℕ

pub data PaymentProofStatus : Type 0 where
  pending approved rejected : PaymentProofStatus

pub record PaymentProof : Type 0 where
  pub id : ℕ
  pub company_id : ℕ
  pub submitted_by_id : ℕ
  pub claimed_plan_id : ℕ
  pub claimed_amount : ℕ
  pub payment_method_id : ℕ
  pub reference : String
  pub status : PaymentProofStatus
  pub reviewed_by_id : Option ℕ
  pub reviewed_at : Option ℕ
  pub rejection_reason : Option String
  pub activation_code_hash : Option ℕ
  pub activation_expires_at : Option ℕ
  pub redeemed_at : Option ℕ

pub record BillingPlan : Type 0 where
  pub id : ℕ
  pub is_free : Bool
  pub price : ℕ
  pub is_active : Bool

pub record PaymentMethod : Type 0 where
  pub id : ℕ
  pub is_active : Bool

-- An upload, by what the service looks at.
pub record ProofFile : Type 0 where
  pub is_allowed_image : Bool
  pub size : ℕ

pub record SubmitPaymentProofDto : Type 0 where
  pub claimed_plan_id : ℕ
  pub payment_method_id : ℕ
  pub reference : String

pub data Error : Type 0 where
  file_required bad_file_type file_too_large plan_not_found method_not_found already_pending : Error
  proof_not_found already_reviewed unique_violation : Error
  invalid_code already_redeemed code_expired record_not_found : Error
  payment_required : Error

pub record Db : Type 0 where
  pub plans : List BillingPlan
  pub methods : List PaymentMethod
  pub proofs : List PaymentProof
  pub subscriptions : List Subscription

abbrev pub Method : Type 0 → Type 0
Method A = Action Db Error A
