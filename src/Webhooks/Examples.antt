-- ===== src/Webhooks/Examples.antt =====
-- Witnesses and runs: a company that lives and one that is deleted, each with a webhook.
use native.Mathlib.Omega.{arith}
use delivery_tracking.Prelude.{ℕ, ◌≡◌, refl, true, none, some, List, [], ◌∷◌}
use delivery_tracking.Prelude.Table.{find?}
use delivery_tracking.Webhooks.Model.{
  Webhook, WebhookDelivery, failed, Db, Response, answers, aborts, fails, Call,
}
use delivery_tracking.Webhooks.Service.{Env, deliver, deliver_all, dispatch, post}
use delivery_tracking.Webhooks.Retry.{is_success, has_id, enqueue_failed_deliveries, jobs_of}
use delivery_tracking.Webhooks.Attempts.{posted, retries, deliver-retries}
use delivery_tracking.Webhooks.Address.{
  ipv4_to_int, split_dots, octets_after, number_after, quad, is_blocked_v4,
}
use delivery_tracking.Webhooks.Special.{is_special, is_blocked_v4-is_special}
use delivery_tracking.Webhooks.Deleted.{IsOfDeleted, work, work-posts_none}

abbrev env : Env
env = record { no_redirects = 1 ∷ []; unknown_error = 2 ∷ []; sign = λ body secret. secret }

abbrev hook : ℕ → ℕ → Webhook
hook id company_id = record {
  id = id;
  company_id = company_id;
  url = 104 ∷ [];
  secret = 9 ∷ [];
  events = 3 ∷ [];
  is_active = true;
}

-- The delivery of the deleted company failed once.
abbrev old : WebhookDelivery
old = record {
  id = 70;
  webhook_id = 2;
  event = 3;
  payload = [];
  status = failed;
  response_status_code = 500;
  response_body = [];
  attempts = 1;
  max_attempts = 5;
  next_retry_at = some 10;
  completed_at = none;
}

abbrev start : Db
start = record {
  companies = record { id = 7; deleted_at = none } ∷ (record { id = 8; deleted_at = some 5 } ∷ []);
  webhooks = hook 1 7 ∷ (hook 2 8 ∷ []);
  deliveries = old ∷ [];
  posts = [];
}

abbrev call : Response → Call
call r = record { now = 1000; is_safe = true; response = r }

-- An error, a redirect and a time-out, and then an answer.
abbrev later_calls : List Call
later_calls =
    call (answers 302 []) ∷ (call (aborts []) ∷ (call (answers 204 []) ∷ (call (fails []) ∷ [])))

abbrev ended : Db
ended = retries env 90 later_calls (deliver env (call (answers 500 [])) 90 1 3 [] start)

deliver-retries_example :
    (d : WebhookDelivery) × (find? (has_id 90) ended.deliveries ≡ some d)
    × (is_success d.status ≡ true)
    × (d.attempts ≡ 4)
    × (posted 90 ended.posts ≡ 4)
unfolding find?
deliver-retries_example =
    deliver-retries env 90 (hook 1 7) (call (answers 500 [])) later_calls 3 [] start refl refl refl
      refl (refl, (refl, (refl, (refl, (refl, tt)))))

old-IsOfDeleted : IsOfDeleted 70 (hook 2 8) start old
unfolding find?
old-IsOfDeleted = record { found = refl; hook = refl; deleted = refl }

abbrev jobs : List (Call × ℕ)
jobs = (call (answers 200 []), 70) ∷ ((call (answers 200 []), 70) ∷ [])

work-posts_none_example : posted 70 (work env jobs start).posts ≡ 0
work-posts_none_example = work-posts_none env 70 (hook 2 8) jobs start old old-IsOfDeleted

-- The cron takes no delivery of the deleted company, and one that failed when its time has come.
failed_is_enqueued :
    enqueue_failed_deliveries 121000 (deliver env (call (answers 500 [])) 90 1 3 [] start)
    ≡ (90, 1) ∷ []
unfolding enqueue_failed_deliveries jobs_of deliver find?
failed_is_enqueued = refl

-- An event goes to the webhooks of its company only.
goes_to_company :
    (dispatch env 3 7 [] ((91, call (answers 200 [])) ∷ []) start).posts
    ≡ post env 91 (hook 1 7) 3 [] ∷ []
unfolding dispatch deliver_all deliver find?
goes_to_company = refl

-- The address of the metadata of a cloud, 169.254.169.254.
abbrev metadata : List ℕ
metadata =
    b'1'
    ∷ (b'6'
        ∷ (b'9'
            ∷ (b'.'
                ∷ (b'2'
                    ∷ (b'5'
                        ∷ (b'4'
                            ∷ (b'.'
                                ∷ (b'1'
                                    ∷ (b'6'
                                        ∷ (b'9' ∷ (b'.' ∷ (b'2' ∷ (b'5' ∷ (b'4' ∷ []))))))))))))))

metadata_reads : ipv4_to_int metadata ≡ some (quad 169 254 169 254)
unfolding ipv4_to_int split_dots octets_after number_after
metadata_reads = refl

is_blocked_v4-is_special_example : is_blocked_v4 metadata ≡ is_special 169 254 169
is_blocked_v4-is_special_example =
    is_blocked_v4-is_special 169 254 169 254 (omega arith) (omega arith) (omega arith) (omega arith)
      metadata metadata_reads

-- An octet above 255 is refused.
no_octet :
    is_blocked_v4
      (b'8' ∷ (b'.' ∷ (b'8' ∷ (b'.' ∷ (b'8' ∷ (b'.' ∷ (b'2' ∷ (b'5' ∷ (b'6' ∷ [])))))))))
    ≡ true
unfolding is_blocked_v4 ipv4_to_int split_dots octets_after number_after
no_octet = refl
