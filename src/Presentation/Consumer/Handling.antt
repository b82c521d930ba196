-- ===== src/Presentation/Consumer/Handling.antt =====
-- app/presentation/consumer/main.py: what becomes of a message that the handler is given.
use secunda_test.Infrastructure.Config.{RabbitSettings}
use secunda_test.Base.{
  ℕ, none, leb, arith, refl, ◌∙◌, ◌+◌, ◌≤◌, [], ◌∷◌, ◌++◌, ◌<◌, ◌^◌, ◌≡◌, Exc, is_exception,
  if◌then◌else◌, Bool-cases, inl, inr, Result, ok, err, lit, text_eq_refl,
}
use secunda_test.Exec.{continue, catch}
use secunda_test.Py.Uuid.{Uuid}
use secunda_test.Py.Uuid.RoundTrip.{parse_uuid-show_uuid}
use secunda_test.Py.Json.{Fields, get_field}
use secunda_test.Domain.Payment.{Payment}
use secunda_test.Application.Events.{payment_created}
use secunda_test.Application.Interfaces.{PaymentGateway, WebhookSender}
use secunda_test.Infrastructure.Platform.{System, World, Publication}
use secunda_test.Presentation.Retry.{Headers, attempt_of, on_failure}
use secunda_test.Presentation.Retry.Lifecycle.{
  dead_copy, retry_copy, on_failure-last, on_failure-retry, publish-ok,
}
use secunda_test.Presentation.Consumer.{
  payment_id_of, payment_id_of_field, process_in_session, on_exception, handle_payment_created,
}

-- The consumer reads from the event of a payment the identifier of that payment.
pub payment_id_of-payment_created :
    (p : Payment) (id : Uuid)
    → p.id < 2 ^ 128
    → payment_id_of (payment_created p id).payload ≡ ok p.id
unfolding payment_id_of payment_id_of_field payment_created get_field
payment_id_of-payment_created p id h =
    rw (text_eq_refl (lit "payment_id")) (parse_uuid-show_uuid p.id h)

module _ (sys : System) (settings : RabbitSettings) (gateway : PaymentGateway World)
    (webhooks : WebhookSender World) (payload : Fields) (attempt : ℕ) where
  -- The copy that is published of a message whose processing has failed.
  abbrev pub copy : Exc → Publication
  copy e =
      if leb settings.max_delivery_attempts attempt
      then dead_copy sys settings (λ k. e) payload attempt
      else retry_copy sys settings (λ k. e) payload attempt

  abbrev pub consequence : Result (Unit {0}) × World → Result (Unit {0}) × World
  consequence (ok u, v) = (ok tt, v)
  consequence (err e, v) =
      if is_exception e
      then (ok tt, record v { published = v.published ++ copy e ∷ []; publishes = v.publishes + 1 })
      else (err e, v)

  module _ (up : (k : ℕ) → sys.publish_fault k ≡ none) (small : attempt ≤ 1024) where
    on_failure-copy :
        (e : Exc) (v : World)
        → on_failure sys settings payload attempt e v ≡ (
          ok tt,
          record v { published = v.published ++ copy e ∷ []; publishes = v.publishes + 1 },
        )
    on_failure-copy e v = elim (Bool-cases (leb settings.max_delivery_attempts attempt)) [
      | inl h ↦ rw h (
          on_failure-last sys settings (λ k. e) payload up attempt v (ground (arith, h))
          ∙ publish-ok sys settings (λ k. e) payload up
              (dead_copy sys settings (λ k. e) payload attempt) v)
      | inr h ↦ rw h (
          on_failure-retry sys settings (λ k. e) payload up attempt v (ground (arith, h)) small
          ∙ publish-ok sys settings (λ k. e) payload up
              (retry_copy sys settings (λ k. e) payload attempt) v)
    ]

    on_exception-consequence :
        (e : Exc) (v : World)
        → on_exception sys settings gateway webhooks payload attempt e v ≡ consequence (err e, v)
    unfolding on_exception
    on_exception-consequence e v = elim (Bool-cases (is_exception e)) [
      | inl h ↦ rw h (on_failure-copy e v)
      | inr h ↦ rw h
    ]

    caught :
        (q : Result (Unit {0}) × World)
        → catch (λ w. q) (on_exception sys settings gateway webhooks payload attempt) q.1
          ≡ consequence q
    caught (ok u, v) = refl
    caught (err e, v) = on_exception-consequence e v

    -- While the broker accepts what is published, a message with a readable identifier and an attempt
    -- number of 1024 at most is acknowledged and leaves no copy if the processing succeeds; if it
    -- raises an `Exception`, one copy is published, for the retry queue with the number counted up
    -- or, if the attempts are used up, for the dead letter queue; and a cancellation is passed on.
    pub handle_payment_created-consequence :
        (message : Headers) (id : Uuid) (w : World)
        → payment_id_of payload ≡ ok id
        → attempt_of message ≡ ok attempt
        → handle_payment_created sys settings gateway webhooks payload message w
          ≡ consequence (process_in_session sys settings gateway webhooks id w)
    unfolding handle_payment_created
    handle_payment_created-consequence message id w readable counted =
        rw (readable, counted, continue)
          (caught (process_in_session sys settings gateway webhooks id w))
