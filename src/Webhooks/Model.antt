-- ===== src/Webhooks/Model.antt =====
-- The rows of backend/prisma/schema.prisma that webhooks are about, the answers of an endpoint, and
-- the HTTP requests that were sent. A text is a list of its codes, an instant a number of
-- milliseconds; an event stands as a number.
use delivery_tracking.Prelude.{ℕ, Bool, Option, List, Action}

pub record Company : Type 0 where
  pub id : ℕ
  pub deleted_at : Option ℕ

pub record Webhook : Type 0 where
  pub id : ℕ
  pub company_id : ℕ
  pub url : List ℕ
  pub secret : List ℕ
  pub events : List ℕ
  pub is_active : Bool

pub data WebhookDeliveryStatus : Type 0 where
  pending success failed : WebhookDeliveryStatus

pub record WebhookDelivery : Type 0 where
  pub id : ℕ
  pub webhook_id : ℕ
  pub event : ℕ
  pub payload : List ℕ
  pub status : WebhookDeliveryStatus
  pub response_status_code : ℕ
  pub response_body : List ℕ
  pub attempts : ℕ
  pub max_attempts : ℕ
  pub next_retry_at : Option ℕ
  pub completed_at : Option ℕ

-- A POST that was sent, with the key of the delivery that records it.
pub record Post : Type 0 where
  pub delivery_id : ℕ
  pub url : List ℕ
  pub event : ℕ
  pub body : List ℕ
  pub signature : List ℕ

pub record Db : Type 0 where
  pub companies : List Company
  pub webhooks : List Webhook
  pub deliveries : List WebhookDelivery
  pub posts : List Post

-- What `fetch` comes to: an answer with its status and text, the time-out of ten seconds, or another
-- exception with its message.
pub data Response : Type 0 where
  answers : ℕ → List ℕ → Response
  aborts : List ℕ → Response
  fails : List ℕ → Response

-- One attempt: its instant, whether assertSafeWebhookUrl lets the address pass, which depends on the
-- answers of DNS, and what comes of the request.
pub record Call : Type 0 where
  pub now : ℕ
  pub is_safe : Bool
  pub response : Response

pub data Error : Type 0 where
  webhook_not_found unsafe_url : Error

abbrev pub Method : Type 0 → Type 0
Method = Action Db Error
