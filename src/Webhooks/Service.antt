-- ===== src/Webhooks/Service.antt =====
-- The service of backend/src/modules/webhooks/webhooks.service.ts, but for its reads.
use delivery_tracking.Prelude.{
  ℕ, ◌+◌, ◌*◌, ◌^◌, ◌==◌, ltb, leb, Bool, true, false, not, ◌&&◌, Option, none, some, List, [], ◌∷◌,
  ◌++◌, any, take, if◌then◌else◌, or_throw, modify, throw_if, ◌>>=◌, ◌>>◌,
}
use delivery_tracking.Prelude.Table.{find?, update_first, delete_all}
use delivery_tracking.Webhooks.Model.{
  Webhook, WebhookDeliveryStatus, success, failed, WebhookDelivery, Post, Db, Response, answers,
  aborts, fails, Call, Method, webhook_not_found, unsafe_url,
}

abbrev pub max_attempts : ℕ
max_attempts = 5

-- What is stored of an answer.
pub record Outcome : Type 0 where
  pub status_code : ℕ
  pub body : List ℕ
  pub successful : Bool

module _ (no_redirects unknown_error : List ℕ) where
  abbrev or_unknown : List ℕ → List ℕ
  or_unknown [] = unknown_error
  or_unknown (c ∷ cs) = c ∷ cs

  abbrev pub outcome : Response → Outcome
  outcome (answers s text) =
      if leb 300 s && ltb s 400
      then record { status_code = 422; body = no_redirects; successful = false }
      else record { status_code = s; body = take 5000 text; successful = leb 200 s && ltb s 300 }
  outcome (aborts m) = record {
    status_code = 408;
    body = take 5000 (or_unknown m);
    successful = false;
  }
  outcome (fails m) = record {
    status_code = 0;
    body = take 5000 (or_unknown m);
    successful = false;
  }

-- The texts of the service, the HMAC of a body under a secret, and the secret it makes.
pub record Env : Type 0 where
  pub no_redirects : List ℕ
  pub unknown_error : List ℕ
  pub sign : List ℕ → List ℕ → List ℕ

-- When a failed attempt is tried again: after 2ⁿ minutes, if attempts are left.
abbrev pub next_retry : ℕ → Bool → ℕ → ℕ → Option ℕ
next_retry now successful attempts maximum =
    if not successful && ltb attempts maximum then some (now + 2 ^ attempts * 60000) else none

abbrev pub status_of : Bool → WebhookDeliveryStatus
status_of true = success
status_of false = failed

abbrev pub post : Env → ℕ → Webhook → ℕ → List ℕ → Post
post v delivery_id w event payload = record {
  delivery_id = delivery_id;
  url = w.url;
  event = event;
  body = payload;
  signature = v.sign payload w.secret;
}

abbrev pub is_own : ℕ → ℕ → Webhook → Bool
is_own company_id id w = w.id == id && w.company_id == company_id

abbrev filter : (Webhook → Bool) → List Webhook → List Webhook
filter test [] = []
filter test (w ∷ ws) = let rest = filter test ws in if test w then w ∷ rest else rest

module _ (v : Env) where
  abbrev pub first_attempt : Call → (new_id webhook_id event : ℕ) → List ℕ → WebhookDelivery
  first_attempt c new_id webhook_id event payload =
      let o = outcome v.no_redirects v.unknown_error c.response in
      record {
        id = new_id;
        webhook_id = webhook_id;
        event = event;
        payload = payload;
        status = status_of o.successful;
        response_status_code = o.status_code;
        response_body = o.body;
        attempts = 1;
        max_attempts = max_attempts;
        next_retry_at = next_retry c.now o.successful 1 max_attempts;
        completed_at = none;
      }

  abbrev deliver_to : Call → ℕ → ℕ → List ℕ → Option Webhook → Db → Db
  deliver_to c new_id event payload none db = db
  deliver_to c new_id event payload (some w) db =
      if c.is_safe
      then record db {
        posts = post v new_id w event payload ∷ db.posts;
        deliveries = db.deliveries ++ (first_attempt c new_id w.id event payload ∷ []);
      }
      else db

  unfoldable pub deliver : Call → (new_id webhook_id event : ℕ) → List ℕ → Db → Db
  deliver c new_id webhook_id event payload db =
      deliver_to c new_id event payload (find? (λ w. w.id == webhook_id) db.webhooks) db

  abbrev pub subscribes : ℕ → ℕ → Webhook → Bool
  subscribes event company_id w =
      w.company_id == company_id && (w.is_active && any (λ e. e == event) w.events)

  -- To each webhook in turn, each with its call and the key of its new row; a webhook without a call
  -- is one whose delivery did not end.
  unfoldable pub deliver_all : ℕ → List ℕ → List Webhook → List (ℕ × Call) → Db → Db
  deliver_all event payload [] calls db = db
  deliver_all event payload (w ∷ ws) [] db = db
  deliver_all event payload (w ∷ ws) ((new_id, c) ∷ calls) db =
      deliver_all event payload ws calls (deliver c new_id w.id event payload db)

  unfoldable pub dispatch : (event company_id : ℕ) → List ℕ → List (ℕ × Call) → Db → Db
  dispatch event company_id payload calls db =
      deliver_all event payload (filter (subscribes event company_id) db.webhooks) calls db

  unfoldable pub send_test : (company_id id event : ℕ) → List ℕ → ℕ → Call → Method (Unit {0})
  send_test company_id id event payload new_id c = do
    w ← λ db. or_throw (find? (is_own company_id id) db.webhooks) webhook_not_found db
    modify (deliver c new_id w.id event payload)

-- A secret that is missing or empty is made.
abbrev secret_or : Option (List ℕ) → List ℕ → List ℕ
secret_or none generated = generated
secret_or (some []) generated = generated
secret_or (some (c ∷ cs)) generated = c ∷ cs

unfoldable pub create :
    (is_safe : Bool) (new_id : ℕ) (generated : List ℕ) (company_id : ℕ) (url events : List ℕ)
    → Option (List ℕ)
    → Method (Unit {0})
create is_safe new_id generated company_id url events secret = do
  throw_if (not is_safe) unsafe_url
  modify (λ db. record db {
    webhooks =
        db.webhooks
        ++ (record {
          id = new_id;
          company_id = company_id;
          url = url;
          secret = secret_or secret generated;
          events = events;
          is_active = true;
        }
            ∷ []);
  })

abbrev or_kept : Option (List ℕ) → List ℕ → List ℕ
or_kept none kept = kept
or_kept (some new) kept = new

abbrev is_some : Option (List ℕ) → Bool
is_some none = false
is_some (some x) = true

-- An address is only checked if there is a new one.
unfoldable pub update :
    (is_safe : Bool) (company_id id : ℕ) (url events secret : Option (List ℕ)) → Method (Unit {0})
update is_safe company_id id url events secret = do
  w ← λ db. or_throw (find? (is_own company_id id) db.webhooks) webhook_not_found db
  throw_if (is_some url && not is_safe) unsafe_url
  modify (λ db. record db {
    webhooks =
        update_first (λ r. r.id == id)
          (λ r. record r {
            url = or_kept url r.url;
            events = or_kept events r.events;
            secret = or_kept secret r.secret;
          })
          db.webhooks;
  })

unfoldable pub remove : (company_id id : ℕ) → Method (Unit {0})
remove company_id id = do
  w ← λ db. or_throw (find? (is_own company_id id) db.webhooks) webhook_not_found db
  modify (λ db. record db {
    webhooks = delete_all (λ r. r.id == id) db.webhooks;
    deliveries = delete_all (λ d. d.webhook_id == id) db.deliveries;
  })

unfoldable pub toggle : (company_id id : ℕ) → Method (Unit {0})
toggle company_id id = do
  w ← λ db. or_throw (find? (is_own company_id id) db.webhooks) webhook_not_found db
  modify (λ db. record db {
    webhooks =
        update_first (λ r. r.id == id) (λ r. record r { is_active = not w.is_active }) db.webhooks;
  })
