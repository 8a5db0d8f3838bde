-- ===== src/Webhooks/Retry.antt =====
-- The retries of backend/src/queue/webhook-retry.processor.ts.
use delivery_tracking.Prelude.{
  ℕ, ◌+◌, ◌==◌, ltb, leb, Bool, true, false, not, ◌&&◌, ◌||◌, Option, none, some, List, [], ◌∷◌,
  if◌then◌else◌, is_none,
}
use delivery_tracking.Prelude.Table.{find?, update_first}
use delivery_tracking.Webhooks.Model.{
  Company, Webhook, WebhookDeliveryStatus, pending, success, failed, WebhookDelivery, Db, Call,
}
use delivery_tracking.Webhooks.Service.{Env, outcome, next_retry, status_of, post}

abbrev pub is_success : WebhookDeliveryStatus → Bool
is_success success = true
is_success pending = false
is_success failed = false

abbrev pub is_failed : WebhookDeliveryStatus → Bool
is_failed failed = true
is_failed success = false
is_failed pending = false

abbrev pub has_id : ℕ → WebhookDelivery → Bool
has_id id d = d.id == id

abbrev pub is_gone : Option Company → Bool
is_gone none = false
is_gone (some c) = not (is_none c.deleted_at)

-- The company of the webhook is deleted.
abbrev pub is_of_deleted : Db → Webhook → Bool
is_of_deleted db w = is_gone (find? (λ c. c.id == w.company_id) db.companies)

-- No further attempt is to be made.
abbrev pub given_up : WebhookDelivery → WebhookDelivery
given_up d = record d { status = failed; next_retry_at = none }

abbrev completed : ℕ → Bool → Option ℕ
completed now true = some now
completed now false = none

module _ (v : Env) where
  abbrev pub attempted : Call → WebhookDelivery → WebhookDelivery → WebhookDelivery
  attempted c d r =
      let o = outcome v.no_redirects v.unknown_error c.response in
      record r {
        status = status_of o.successful;
        response_status_code = o.status_code;
        response_body = o.body;
        attempts = d.attempts + 1;
        next_retry_at = next_retry c.now o.successful (d.attempts + 1) d.max_attempts;
        completed_at = completed c.now o.successful;
      }

  -- The webhook of a row is there, by the foreign key.
  abbrev pub retry : Call → WebhookDelivery → Option Webhook → Db → Db
  retry c d none db = db
  retry c d (some w) db =
      if is_of_deleted db w || not c.is_safe
      then record db { deliveries = update_first (has_id d.id) given_up db.deliveries }
      else record db {
        posts = post v d.id w d.event d.payload ∷ db.posts;
        deliveries = update_first (has_id d.id) (attempted c d) db.deliveries;
      }

  abbrev process_found : Call → Option WebhookDelivery → Db → Db
  process_found c none db = db
  process_found c (some d) db =
      if is_success d.status || leb d.max_attempts d.attempts
      then db
      else retry c d (find? (λ w. w.id == d.webhook_id) db.webhooks) db

  unfoldable pub process : Call → ℕ → Db → Db
  process c id db = process_found c (find? (has_id id) db.deliveries) db

abbrev pub is_due : ℕ → Option ℕ → Bool
is_due now none = false
is_due now (some t) = leb t now

abbrev pub is_of_live : Db → Option Webhook → Bool
is_of_live db none = false
is_of_live db (some w) = not (is_of_deleted db w)

abbrev pub is_retried : ℕ → Db → WebhookDelivery → Bool
is_retried now db d =
    is_failed d.status
    && (is_due now d.next_retry_at
        && (is_of_live db (find? (λ w. w.id == d.webhook_id) db.webhooks)
            && ltb d.attempts d.max_attempts))

-- The jobs that the cron adds, each with the delivery and the number of its attempts, of which the
-- key of the job is made.
unfoldable pub jobs_of : ℕ → Db → List WebhookDelivery → List (ℕ × ℕ)
jobs_of now db [] = []
jobs_of now db (d ∷ ds) =
    let rest = jobs_of now db ds in if is_retried now db d then (d.id, d.attempts) ∷ rest else rest

unfoldable pub enqueue_failed_deliveries : ℕ → Db → List (ℕ × ℕ)
unfolding jobs_of
enqueue_failed_deliveries now db = jobs_of now db db.deliveries
