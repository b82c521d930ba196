-- ===== src/Infrastructure/Webhook/Sending.antt =====
-- `send` against the reference of a delivery.
use secunda_test.Base.{
  ℕ, ◌-◌, ◌≤◌, ◌≡◌, refl, ap, ◌∙◌, max, some, ◌++◌, Text, lit, length, Exc, domain_error,
  invalid_status_transition_error, payment_not_found_error, idempotency_conflict_error,
  duplicate_idempotency_key_error, integrity_error, http_exception, http_error, other_error,
  cancelled_error, retry_error, webhook_delivery_error, Result, ok, err, arith,
}
use secunda_test.Exec.{catch}
use secunda_test.Py.Numbers.{show_nat}
use secunda_test.Py.Json.{Fields}
use secunda_test.Infrastructure.Platform.{System, World}
use secunda_test.Infrastructure.Webhook.{Retrying, is_retryable, post, on_send_error, send}
use secunda_test.Infrastructure.Settings.{WebhookSettings}
use secunda_test.Infrastructure.Webhook.Attempts.{
  waits, post_fault, IsRetrying, IsPostError, Ending, answered, broken, exhausted, delivery_pos,
  delivery_bound, numbered, Ended, delivery-IsHonest, IsHonest,
}
use secunda_test.Infrastructure.Webhook.Trails.{Tried-Trail, expected}

module _ (sys : System) (retrying : Retrying) (settings : WebhookSettings) (url : Text)
    (payload : Fields) where
  -- What the caller of `send` gets.
  abbrev pub reported : Ending → Result (Unit {0})
  reported answered = ok tt
  reported (broken e) = err e
  reported exhausted = err (
      webhook_delivery_error (
        lit "Уведомление на "
        ++ (url
            ++ (lit " не доставлено за " ++ (show_nat settings.max_attempts ++ lit " попыток")))))

  pub reported-answered : (d : Ending) → reported d ≡ ok tt → d ≡ answered
  reported-answered answered h = refl
  reported-answered (broken e) h = cc
  reported-answered exhausted h = cc

  handled :
      (d : Ending) (q : Result (Unit {0}) × World)
      → IsHonest (post_fault sys) d
      → Ended d q.0
      → catch (λ w. q) (on_send_error sys retrying settings url) q.1 ≡ (reported d, q.1)
  unfolding on_send_error
  handled answered (r, w) honest e = rw e
  handled exhausted (r, w) honest (message, e) = rw e
  handled (broken (http_error name m)) (r, w) honest e = rw e
  handled (broken (other_error name m)) (r, w) honest e = rw e
  handled (broken cancelled_error) (r, w) honest e = rw e
  handled (broken (domain_error m)) q honest e = elim honest [ ]
  handled (broken (invalid_status_transition_error m)) q honest e = elim honest [ ]
  handled (broken (payment_not_found_error m)) q honest e = elim honest [ ]
  handled (broken (idempotency_conflict_error m)) q honest e = elim honest [ ]
  handled (broken (duplicate_idempotency_key_error m)) q honest e = elim honest [ ]
  handled (broken (webhook_delivery_error m)) q honest e = elim honest [ ]
  handled (broken (integrity_error m)) q honest e = elim honest [ ]
  handled (broken (retry_error m)) q honest e = elim honest [ ]
  handled (broken (http_exception c m)) q honest e = elim honest [ ]

  -- If the loop of attempts behaves as tenacity documents, and a POST fails only with an error of
  -- httpx, of another library or a cancellation: `send` makes the POSTs of the reference, one at
  -- least and `max_attempts` at most, numbered from one, with the same payload and the timeout, and
  -- waits between them, the base delay first and twice as long each time; and it reports the
  -- reference's ending. It returns if the last POST was answered with a status that raises nothing,
  -- raises what is no error of httpx, and raises WebhookDeliveryError if the last attempt allowed
  -- has failed too.
  pub send-delivery :
      IsRetrying retrying
      → ((i : ℕ) (e : Exc) → post_fault sys i ≡ some e → IsPostError e)
      → (w : World)
      → ((send sys retrying settings url payload w).0
          ≡ reported (expected sys retrying settings url payload 1 w).1)
        × ((send sys retrying settings url payload w).1.posts
            ≡ w.posts
              ++ numbered settings.timeout url payload 1
                  (expected sys retrying settings url payload 1 w).0)
        × (1 ≤ (expected sys retrying settings url payload 1 w).0)
        × ((expected sys retrying settings url payload 1 w).0 ≤ max 1 settings.max_attempts)
        × ((send sys retrying settings url payload w).1.sleeps
            ≡ w.sleeps
              ++ waits settings.retry_base_delay 1
                  (expected sys retrying settings url payload 1 w).0)
  unfolding send
  send-delivery law errors w =
      let body = post sys retrying settings url payload in
      let t =
        Tried-Trail sys retrying settings url payload
          (law is_retryable settings.max_attempts settings.retry_base_delay body w) in
      let honest =
        delivery-IsHonest (post_fault sys) errors (settings.max_attempts - 1) (length w.posts) in
      let e =
        handled (expected sys retrying settings url payload 1 w).1
          (retrying is_retryable settings.max_attempts settings.retry_base_delay body w) honest
          t.ended in
      let bound = delivery_bound (post_fault sys) (settings.max_attempts - 1) (length w.posts) in
      (
        ap (λ q. q.0) e,
        ap (λ q. q.1.posts) e ∙ t.posts,
        delivery_pos (post_fault sys) (settings.max_attempts - 1) (length w.posts),
        omega arith,
        ap (λ q. q.1.sleeps) e ∙ t.sleeps,
      )
