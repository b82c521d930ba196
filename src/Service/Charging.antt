-- ===== src/Service/Charging.antt =====
-- app/application/payment/use_cases/process_payment.py: a payment that is settled is not charged again.
use mathlib.Core.Path.{subst}
use secunda_test.Base.{
  ℕ, ◌≡◌, refl, sym, ap, ◌∙◌, true, false, Option-cases, none, some, inl, inr, Text, Exc, Result,
  err, arith, Bool,
}
use secunda_test.Exec.{Exec, catch-keeps}
use secunda_test.Py.Uuid.{Uuid}
use secunda_test.Py.Json.{Fields}
use secunda_test.Domain.Enums.{PaymentStatus, pending, succeeded, failed, is_pending, is_final}
use secunda_test.Domain.Payment.{Payment, is_processed}
use secunda_test.Application.Events.{webhook_payload}
use secunda_test.Application.Interfaces.{PaymentGateway, WebhookSender}
use secunda_test.Application.ProcessPayment.{process_payment}
use secunda_test.Application.ProcessPayment.Cases.{process_payment-processed}
use secunda_test.Infrastructure.Models.{PaymentModel, Tables}
use secunda_test.Infrastructure.Mappers.{payment_to_model}
use secunda_test.Infrastructure.Mappers.RoundTrip.{payment_to_model-payment_from_model}
use secunda_test.Infrastructure.Invariant.{IsTables}
use secunda_test.Infrastructure.Platform.{System, World, interpreter}
use secunda_test.Infrastructure.Platform.Laws.{IsLawful}
use secunda_test.Infrastructure.Repositories.{get, payment_repository, has_id}
use secunda_test.Infrastructure.Repositories.Reading.{get-found, select_one-fault}
use secunda_test.Infrastructure.Session.{arrived, seen, unit_of_work}
use secunda_test.Infrastructure.Settings.{WebhookSettings}
use secunda_test.Infrastructure.Webhook.{
  Retrying, is_retryable, client_post, checked, post, on_send_error, send,
}
use secunda_test.Infrastructure.Webhook.Attempts.{
  Tried, returned, raised, stopped, again, IsRetrying,
}
use secunda_test.Service.Processing.{process_use_case}
use secunda_test.Service.Quiet.{on_send_error-world}
use secunda_test.Service.Standing.{Standing}

-- It asks the gateway for nothing.
abbrev pub IsUncharged : {A : Type 0} → Exec World A → Type 0
IsUncharged m = (w : World) → (m w).1.charges ≡ w.charges

after-Uncharged :
    (body : ℕ → Exec World (Unit {0})) (uncharged : (k : ℕ) → IsUncharged (body k)) (k : ℕ)
    (w w' : World) (r : Result (Unit {0}))
    → body k w ≡ (r, w')
    → w'.charges ≡ w.charges
after-Uncharged body uncharged k w w' r h =
    ap (λ (q : Result (Unit {0}) × World). q.1.charges) (sym h) ∙ uncharged k w

Tried-IsUncharged :
    (retry : Exc → Bool) (stop base : ℕ) (body : ℕ → Exec World (Unit {0}))
    → ((k : ℕ) → IsUncharged (body k))
    → {k : ℕ} {w : World} {q : Result (Unit {0}) × World} → Tried retry stop base body k w q
    → q.1.charges ≡ w.charges
Tried-IsUncharged retry stop base body uncharged (returned k w w' h) =
    after-Uncharged body uncharged k w w' _ h
Tried-IsUncharged retry stop base body uncharged (raised k w w' e h c) =
    after-Uncharged body uncharged k w w' _ h
Tried-IsUncharged retry stop base body uncharged (stopped k w w' e message h c l) =
    after-Uncharged body uncharged k w w' _ h
Tried-IsUncharged retry stop base body uncharged (again k w w' e q h c l rest) =
    Tried-IsUncharged retry stop base body uncharged rest
    ∙ after-Uncharged body uncharged k w w' _ h

module _ (sys : System) (retrying : Retrying) (settings : WebhookSettings)
    (law : IsRetrying retrying) where
  post-IsUncharged :
      (url : Text) (payload : Fields) (k : ℕ)
      → IsUncharged (post sys retrying settings url payload k)
  unfolding post client_post checked
  post-IsUncharged url payload k w = ground arith

  pub send-IsUncharged :
      (url : Text) (payload : Fields) → IsUncharged (send sys retrying settings url payload)
  unfolding send
  send-IsUncharged url payload w =
      let body = post sys retrying settings url payload in
      let steps =
        Tried-IsUncharged is_retryable settings.max_attempts settings.retry_base_delay body
          (post-IsUncharged url payload) (law _ _ _ body w) in
      catch-keeps (λ (v : World). v.charges ≡ w.charges)
        (retrying is_retryable settings.max_attempts settings.retry_base_delay body)
        (on_send_error sys retrying settings url) w steps
        (λ e.
          subst (λ (v : World). v.charges ≡ w.charges)
            (sym (on_send_error-world sys retrying settings url e _)) steps)

charges-arrived : (sys : System) (w : World) → (arrived sys w).charges ≡ w.charges
unfolding arrived
charges-arrived sys w = refl

settled-is_final : (s : PaymentStatus) → is_pending s ≡ false → is_final s ≡ true
unfolding is_final
settled-is_final pending h = cc h
settled-is_final succeeded h = refl
settled-is_final failed h = refl

-- The payment that a settled row is read as is processed.
Standing-is_processed :
    (id : Uuid) (p : Payment) (t : Tables) → Standing id p t → is_processed p ≡ true
unfolding is_processed payment_to_model
Standing-is_processed id p t h =
    let same : p.status ≡ h.row.status =
      ap (λ (x : PaymentModel). x.status) (payment_to_model-payment_from_model h.row p h.reads) in
    rw same (settled-is_final h.row.status h.final)

module _ {sys : System} (lawful : IsLawful sys) (gateway : PaymentGateway World)
    (webhooks : WebhookSender World)
    (uncharged : (url : Text) (payload : Fields) → IsUncharged (webhooks.send url payload)) where
  get-fault :
      (id : Uuid) (w : World) (e : Exc)
      → sys.statement_fault w.statements ≡ some e
      → get sys id w ≡ (err e, arrived sys w)
  unfolding get
  get-fault id w e fault = rw (select_one-fault sys (has_id id) w e fault) refl

  process-fault :
      (id : Uuid) (w : World) (e : Exc)
      → sys.statement_fault w.statements ≡ some e
      → process_use_case sys gateway webhooks id w ≡ (err e, arrived sys w)
  unfolding process_use_case process_payment payment_repository
  process-fault id w e fault = rw (get-fault id w e fault) refl

  process-settled :
      (id : Uuid) (p : Payment) (w : World)
      → sys.statement_fault w.statements ≡ none
      → IsTables (seen (arrived sys w))
      → Standing id p (seen (arrived sys w))
      → process_use_case sys gateway webhooks id w
        ≡ webhooks.send p.webhook_url.value (webhook_payload p) (arrived sys w)
  unfolding process_use_case payment_repository
  process-settled id p w fault valid h =
      process_payment-processed (payment_repository sys) (unit_of_work sys) gateway webhooks
        (interpreter sys) id p w (arrived sys w)
        (get-found lawful w valid id h.row p fault h.there h.reads)
        (Standing-is_processed id p (seen (arrived sys w)) h)

  -- However the processing of a settled payment ends, it asks the gateway for nothing.
  pub settled-IsUncharged :
      (id : Uuid) (p : Payment) (w : World)
      → IsTables (seen (arrived sys w))
      → Standing id p (seen (arrived sys w))
      → (process_use_case sys gateway webhooks id w).1.charges ≡ w.charges
  settled-IsUncharged id p w valid h = elim (Option-cases (sys.statement_fault w.statements)) [
    | inl e ↦
        ap (λ (q : Result (Unit {0}) × World). q.1.charges) (process-settled id p w e valid h)
        ∙ uncharged p.webhook_url.value (webhook_payload p) (arrived sys w)
        ∙ charges-arrived sys w
    | inr (x, e) ↦
        ap (λ (q : Result (Unit {0}) × World). q.1.charges) (process-fault id w x e)
        ∙ charges-arrived sys w
  ]
