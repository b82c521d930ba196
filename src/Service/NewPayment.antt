-- ===== src/Service/NewPayment.antt =====
-- app/application/payment/use_cases/create_payment.py: the payment that a command asks for.
use secunda_test.Base.{◌≡◌, sym, ◌∙◌, none, Result, ok, arith, Result-cases, inl, inr}
use secunda_test.Py.Datetime.{Instant, in_utc}
use secunda_test.Py.Json.{none_value, decimal, string, dict}
use secunda_test.Domain.Enums.{pending}
use secunda_test.Domain.Values.{
  Amount, IdempotencyKey, WebhookUrl, make_amount, make_idempotency_key, make_webhook_url,
}
use secunda_test.Domain.Values.Checks.{
  make_amount_iff, make_idempotency_key_iff, make_webhook_url_iff,
}
use secunda_test.Domain.Payment.{Payment, create}
use secunda_test.Domain.Payment.Invariant.{IsPayment, create-IsPayment, create_lem}
use secunda_test.Application.Dto.{CreatePaymentCommand}
use secunda_test.Application.CreatePayment.{new_payment}
use secunda_test.Infrastructure.Platform.{System, World, interpreter}
use secunda_test.Infrastructure.Repositories.{payment_repository, outbox_repository}
use secunda_test.Infrastructure.Session.{unit_of_work}
use secunda_test.Py.Uuid.{Uuid}

-- The payment is new, satisfies the invariant and holds what the command says.
pub record IsRequested (command : CreatePaymentCommand) (p : Payment) : Type 0 where
  pub valid : IsPayment p
  pub status : p.status ≡ pending
  pub unprocessed : p.processed_at ≡ none
  pub created : (now : Instant) × (p.created_at ≡ in_utc now)
  pub key : p.idempotency_key.value ≡ command.idempotency_key
  pub amount : p.amount.value ≡ command.amount
  pub url : p.webhook_url.value ≡ command.webhook_url
  pub currency : p.currency ≡ command.currency
  pub description : p.description ≡ command.description
  pub metadata : p.metadata ≡ command.metadata

-- The session and the tables are as they were.
pub record SameSession (w w' : World) : Type 0 where
  pub tables : w'.tables ≡ w.tables
  pub dirty : w'.dirty ≡ w.dirty
  pub new_payments : w'.new_payments ≡ w.new_payments
  pub new_outbox : w'.new_outbox ≡ w.new_outbox
  pub statements : w'.statements ≡ w.statements

created-IsRequested :
    (command : CreatePaymentCommand) (a : Amount) (k : IdempotencyKey) (u : WebhookUrl)
    (fresh : Uuid) (now : Instant) (p : Payment)
    → make_amount (decimal command.amount) ≡ ok a
    → make_idempotency_key (string command.idempotency_key) ≡ ok k
    → make_webhook_url (string command.webhook_url) ≡ ok u
    → create a command.currency k u
        (string command.description)
        (dict command.metadata)
        none
        none_value
        fresh
        now
      ≡ ok p
    → IsRequested command p
created-IsRequested command a k u fresh now p ha hk hu h =
    let ea : decimal command.amount ≡ decimal a.value = ((make_amount_iff _ a).0 ha).0 in
    let ek : string command.idempotency_key ≡ string k.value =
      ((make_idempotency_key_iff _ k).0 hk).0 in
    let eu : string command.webhook_url ≡ string u.value = ((make_webhook_url_iff _ u).0 hu).0 in
    let valid : IsPayment p =
      (create-IsPayment a command.currency k u (string command.description) (dict command.metadata)
        none none_value fresh now (rw ea at ha) (rw ek at hk) (rw eu at hu) h).0 in
    let same = create_lem a command.currency k u command.description command.metadata fresh now in
    let e : ok (record {
      id = fresh;
      amount = a;
      currency = command.currency;
      description = command.description;
      idempotency_key = k;
      webhook_url = u;
      status = pending;
      created_at = in_utc now;
      processed_at = none;
      metadata = command.metadata;
    })
        ≡ ok p =
      sym same ∙ h in
    record {
      valid = valid;
      status = ground arith;
      unprocessed = ground arith;
      created = (now, ground arith);
      key = ground arith;
      amount = ground arith;
      url = ground arith;
      currency = ground arith;
      description = ground arith;
      metadata = ground arith;
    }

module _ (sys : System) (command : CreatePaymentCommand) (w : World) where
  abbrev built : Result Payment × World
  built =
      new_payment (payment_repository sys) outbox_repository (unit_of_work sys) (interpreter sys)
        command w

  pub new_payment-SameSession : SameSession w built.1
  unfolding new_payment interpreter
  new_payment-SameSession = ground arith

  -- The value objects that the command's fields make, and the payment that is built of them.
  pub new_payment-IsRequested : {p : Payment} → built.0 ≡ ok p → IsRequested command p
  unfolding new_payment interpreter
  new_payment-IsRequested {p} h = elim (Result-cases (make_amount (decimal command.amount))) [
    | inr (e, ha) ↦ ground (arith, ha)
    | inl (a, ha) ↦ elim (Result-cases (make_idempotency_key (string command.idempotency_key))) [
      | inr (e, hk) ↦ ground (arith, ha, hk)
      | inl (k, hk) ↦ elim (Result-cases (make_webhook_url (string command.webhook_url))) [
        | inr (e, hu) ↦ ground (arith, ha, hk, hu)
        | inl (u, hu) ↦
            let c : create a command.currency k u (string command.description)
                  (dict command.metadata) none none_value (sys.uuids w.uuids_drawn)
                  (sys.clock w.clock_reads)
                ≡ ok p =
              rw (ha, hk, hu) at h in
            created-IsRequested command a k u (sys.uuids w.uuids_drawn) (sys.clock w.clock_reads) p
              ha hk hu c
      ]
    ]
  ]
