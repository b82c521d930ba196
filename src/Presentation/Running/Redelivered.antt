-- ===== src/Presentation/Running/Redelivered.antt =====
-- app/presentation/consumer/main.py: a message that is delivered again, under whatever has happened
-- since its payment was announced.
use mathlib.Core.Path.{subst}
use secunda_test.Base.{
  ℕ, ◌≡◌, refl, sym, ap, ◌∙◌, Bool-cases, inl, inr, leb, is_exception, Text, Exc, Result, ok, err,
  arith,
}
use secunda_test.Exec.{Exec, continue-keeps, continue-keeps_ok, catch, catch-keeps, raise, ◌>>◌}
use secunda_test.Py.Uuid.{Uuid}
use secunda_test.Py.Json.{Fields}
use secunda_test.Domain.Payment.{Payment}
use secunda_test.Application.Interfaces.{PaymentGateway, WebhookSender}
use secunda_test.Infrastructure.Config.{RabbitSettings}
use secunda_test.Infrastructure.Invariant.{IsTables}
use secunda_test.Infrastructure.Platform.{System, World, Publication, publish}
use secunda_test.Infrastructure.Platform.Laws.{IsLawful}
use secunda_test.Infrastructure.Session.{arrived, seen, rollback}
use secunda_test.Infrastructure.Session.Working.{arrived-Working, seen-valid}
use secunda_test.Infrastructure.Settings.{Settings}
use secunda_test.Infrastructure.Webhook.{Retrying, webhook_sender}
use secunda_test.Infrastructure.Webhook.Attempts.{IsRetrying}
use secunda_test.Service.Charging.{IsUncharged, send-IsUncharged, settled-IsUncharged}
use secunda_test.Service.Creating.{IsIdle}
use secunda_test.Service.Processing.{process_use_case}
use secunda_test.Service.Settled.{idle-Settled}
use secunda_test.Service.Standing.{Standing, Standing-Evolves}
use secunda_test.Presentation.Api.{CreatePaymentRequest}
use secunda_test.Presentation.Retry.{
  Headers, attempt_of, on_failure, to_retry, to_dlq, delay_of, retry_message, dead_message,
}
use secunda_test.Presentation.Consumer.{
  payment_id_of, process_in_session, on_exception, handle_payment_created,
}
use secunda_test.Presentation.Running.{Service, Reach}
use secunda_test.Presentation.Consumer.Keeping.{process_in_session-Settled}
use secunda_test.Presentation.Running.Keeping.{Reach-keeps}
use secunda_test.Presentation.Running.Told.{session-told}
use secunda_test.Presentation.Running.Wiring.{
  wired_service, wired_session, wired_gateway-IsQuiet, wired_webhooks-IsQuiet,
}

publish-IsUncharged : (sys : System) (m : Publication) → IsUncharged (publish sys m)
unfolding publish
publish-IsUncharged sys m w = ground arith

on_failure-IsUncharged :
    (sys : System) (settings : RabbitSettings) (payload : Fields) (attempt : ℕ) (e : Exc)
    → IsUncharged (on_failure sys settings payload attempt e)
unfolding on_failure to_retry to_dlq
on_failure-IsUncharged sys settings payload attempt e w =
    elim (Bool-cases (leb settings.max_delivery_attempts attempt)) [
      | inl h ↦ rw h (publish-IsUncharged sys (dead_message payload attempt e) w)
      | inr h ↦ rw h (
          continue-keeps (λ (v : World). v.charges ≡ w.charges) (delay_of settings attempt)
            (λ delay. publish sys (retry_message payload attempt e delay)) w refl
            (λ delay. publish-IsUncharged sys (retry_message payload attempt e delay) w))
    ]

session_charges :
    (q : Result (Unit {0}) × World)
    → (((catch (λ w. q) (λ e. do rollback; raise e)) >> rollback) q.1).1.charges ≡ q.1.charges
unfolding rollback
session_charges (ok u, w) = refl
session_charges (err e, w) = refl

ok-injective : {A : Type 0} {a b : A} → ok a ≡ ok b → a ≡ b
ok-injective {a = a} e = ap (λ r. elim r [ ok x ↦ x | err x ↦ a ]) e

module _ (sys : System) (settings : RabbitSettings) (gateway : PaymentGateway World)
    (webhooks : WebhookSender World) (id : Uuid) (w : World)
    (settled : (process_use_case sys gateway webhooks id w).1.charges ≡ w.charges) where
  session-Uncharged : (process_in_session sys settings gateway webhooks id w).1.charges ≡ w.charges
  unfolding process_in_session process_use_case
  session-Uncharged = session_charges (process_use_case sys gateway webhooks id w) ∙ settled

  on_exception-Uncharged :
      (payload : Fields) (attempt : ℕ) (e : Exc) (v : World)
      → v.charges ≡ w.charges
      → (on_exception sys settings gateway webhooks payload attempt e v).1.charges ≡ w.charges
  unfolding on_exception
  on_exception-Uncharged payload attempt e v h = elim (Bool-cases (is_exception e)) [
    | inl c ↦ rw c (on_failure-IsUncharged sys settings payload attempt e v ∙ h)
    | inr c ↦ rw c h
  ]

  handle-Uncharged :
      (payload : Fields) (message : Headers)
      → payment_id_of payload ≡ ok id
      → (handle_payment_created sys settings gateway webhooks payload message w).1.charges
        ≡ w.charges
  unfolding handle_payment_created
  handle-Uncharged payload message readable =
      let P : World → Type 0 = λ v. v.charges ≡ w.charges in
      let attempted : (k : Uuid) → ℕ → Exec World (Unit {0}) = λ k attempt.
        catch (process_in_session sys settings gateway webhooks k)
          (on_exception sys settings gateway webhooks payload attempt) in
      continue-keeps_ok P (payment_id_of payload) _ w refl (λ k e.
        let same : k ≡ id = ok-injective (sym e ∙ readable) in
        continue-keeps P (attempt_of message) (attempted k) w refl (λ attempt.
          subst (λ x. P (attempted x attempt w).1) (sym same)
            (catch-keeps P (process_in_session sys settings gateway webhooks id)
              (on_exception sys settings gateway webhooks payload attempt) w session-Uncharged
              (λ x. on_exception-Uncharged payload attempt x _ session-Uncharged))))

module _ (sys : System) (retrying : Retrying) (request_hash : CreatePaymentRequest → Text)
    (settings : Settings) (lawful : IsLawful sys) (law : IsRetrying retrying) where
  abbrev service : Service
  service = wired_service sys retrying request_hash settings

  webhooks-IsUncharged :
      (url : Text) (payload : Fields) → IsUncharged (service.webhooks.send url payload)
  unfolding wired_service webhook_sender
  webhooks-IsUncharged = send-IsUncharged sys retrying settings.webhook law

  abbrev redelivered : Fields → Headers → World → World
  redelivered payload message v =
      (handle_payment_created sys service.retry service.gateway service.webhooks payload message
        v).1

  -- A message of a payment whose row is settled.
  settled-Uncharged :
      (id : Uuid) (p : Payment) (payload : Fields) (message : Headers) (v : World)
      → IsIdle v
      → IsTables v.tables
      → Standing id p v.tables
      → payment_id_of payload ≡ ok id
      → (redelivered payload message v).charges ≡ v.charges
  settled-Uncharged id p payload message v idle valid standing readable =
      let working = (idle-Settled v idle valid).working in
      let (valid_s, during) =
        seen-valid (arrived sys v) (arrived-Working lawful v.tables v working) in
      handle-Uncharged sys service.retry service.gateway service.webhooks id v
        (settled-IsUncharged lawful service.gateway service.webhooks webhooks-IsUncharged id p v
          valid_s (Standing-Evolves id p v.tables (seen (arrived sys v)) during standing))
        payload message readable

  -- Under a lawful system and a loop of attempts that behaves as tenacity documents, from a state
  -- with no transaction open and valid tables: if the consumer's session for a payment succeeds,
  -- then after any further requests, messages and turns of the relay, a message that names the
  -- payment, whatever its headers and however its handling ends, asks the gateway for nothing.
  pub redelivery-charges :
      (id : Uuid) (w v : World) (payload : Fields) (message : Headers)
      → IsIdle w
      → IsTables w.tables
      → (wired_session sys retrying request_hash settings lawful law id w).0 ≡ ok tt
      → Reach service (wired_session sys retrying request_hash settings lawful law id w).1 v
      → payment_id_of payload ≡ ok id
      → (redelivered payload message v).charges ≡ v.charges
  unfolding wired_service
  redelivery-charges id w v payload message idle valid h reach readable =
      let quiet_gateway = wired_gateway-IsQuiet sys retrying request_hash settings lawful law in
      let quiet_webhooks = wired_webhooks-IsQuiet sys retrying request_hash settings lawful law in
      let (final, before, after, sent, posts, standing) =
        session-told service lawful quiet_gateway quiet_webhooks id w v idle valid h reach in
      let ended =
        process_in_session-Settled lawful service.retry service.gateway service.webhooks
          quiet_gateway quiet_webhooks w.tables id w (idle-Settled w idle valid) in
      let (valid_v, later, idle_v) =
        Reach-keeps service lawful quiet_gateway quiet_webhooks
          (wired_session sys retrying request_hash settings lawful law id w).1 v ended.idle
          ended.working.valid reach in
      settled-Uncharged id final payload message v idle_v valid_v standing readable
