-- ===== src/Domain/Payment/Invariant.antt =====
-- app/domain/payment/entities.py: what holds of every payment that the service builds.
use secunda_test.Base.{
  ◌≡◌, refl, true, false, Option, none, some, arith, Text, lit, Result, ok, err, inl, inr,
  Bool-cases, >>=-eq-ok,
}
use secunda_test.Py.Uuid.{Uuid}
use secunda_test.Py.Datetime.{Instant, Datetime, in_utc}
use secunda_test.Py.Json.{
  Fields, end, PyValue, none_value, decimal, string, datetime, dict, is_truthy,
}
use secunda_test.Domain.Enums.{Currency, PaymentStatus, pending, is_pending, is_final}
use secunda_test.Domain.Values.{
  Amount, IdempotencyKey, WebhookUrl, make_amount, make_idempotency_key, make_webhook_url,
}
use secunda_test.Domain.Payment.{
  Payment, Unchecked, ensure_aware, check_description, check_metadata, check_processed_at, settle,
  default_value, or_value, or_else, make_payment, create, is_processed, transition_to,
}

-- The value has a time zone with an offset.
abbrev pub IsAware : Datetime → Type 0
IsAware v = elim v.tzinfo [ some (some offset) ↦ Unit {0} | _ ↦ ⊥ ]

abbrev pub ProcessedFits : PaymentStatus → Option Datetime → Type 0
ProcessedFits s none = is_pending s ≡ true
ProcessedFits s (some t) = (is_pending s ≡ false) × IsAware t

-- The values pass their constructors' checks, the times have zones, and the payment has a time of
-- processing exactly if it is not pending.
pub record IsPayment (p : Payment) : Type 0 where
  pub amount : make_amount (decimal p.amount.value) ≡ ok p.amount
  pub key : make_idempotency_key (string p.idempotency_key.value) ≡ ok p.idempotency_key
  pub url : make_webhook_url (string p.webhook_url.value) ≡ ok p.webhook_url
  pub created : IsAware p.created_at
  pub processed : ProcessedFits p.status p.processed_at

ensure_aware-IsAware :
    (v : PyValue) (name : Text) {t : Datetime} → ensure_aware v name ≡ ok t → IsAware t
unfolding ensure_aware
ensure_aware-IsAware (datetime v) name {t} h =
    let same : v ≡ t = ground arith in rw (← same) (ground arith)
ensure_aware-IsAware v name h = cc

-- A time that was given or read from the clock has a zone.
abbrev pub AwareOption : Option Datetime → Type 0
AwareOption none = Unit {0}
AwareOption (some t) = IsAware t

pub check_processed_at-AwareOption :
    (v : PyValue) {o : Option Datetime} → check_processed_at v ≡ ok o → AwareOption o
unfolding check_processed_at
check_processed_at-AwareOption none_value {o = none} h = tt
check_processed_at-AwareOption none_value {o = some t} h = cc
check_processed_at-AwareOption v {o = none} h = tt
check_processed_at-AwareOption v {o = some t} h =
    let (t', e, f) = >>=-eq-ok (ensure_aware v (lit "processed_at")) (λ x. ok (some x)) h in
    let same : t' ≡ t = cc f in rw (← same) (ensure_aware-IsAware v (lit "processed_at") e)

module _ (id : Uuid) (amount : Amount) (currency : Currency) (key : IdempotencyKey)
    (url : WebhookUrl) (status : PaymentStatus) (args : Unchecked) where
  abbrev pub built : Text → Fields → Datetime → Option Datetime → Payment
  built d m c o = record {
    id = id;
    amount = amount;
    currency = currency;
    description = d;
    idempotency_key = key;
    webhook_url = url;
    status = status;
    created_at = c;
    processed_at = o;
    metadata = m;
  }

  -- What a payment that was built holds, and the checks that its arguments have passed.
  pub make_payment-eq-ok :
      {p : Payment}
      → make_payment id amount currency key url status args ≡ ok p
      → (d : Text) × (m : Fields) × (c : Datetime) × (o : Option Datetime) × (check_description
            args.description
          ≡ ok d)
        × (check_metadata args.metadata ≡ ok m)
        × (ensure_aware args.created_at (lit "created_at") ≡ ok c)
        × (check_processed_at args.processed_at ≡ ok o)
        × (built d m c o ≡ p)
  unfolding make_payment
  make_payment-eq-ok h =
      let (d, hd, h1) = >>=-eq-ok (check_description args.description) _ h in
      let (m, hm, h2) = >>=-eq-ok (check_metadata args.metadata) _ h1 in
      let (c, hc, h3) = >>=-eq-ok (ensure_aware args.created_at (lit "created_at")) _ h2 in
      let (o, ho, h4) = >>=-eq-ok (check_processed_at args.processed_at) _ h3 in
      (d, m, c, o, hd, hm, hc, ho, cc h4)

-- A payment that is created from a text and a dict, with no identifier or time given.
pub create_lem :
    (amount : Amount) (currency : Currency) (key : IdempotencyKey) (url : WebhookUrl) (d : Text)
    (m : Fields) (fresh : Uuid) (now : Instant)
    → create amount currency key url (string d) (dict m) none none_value fresh now
      ≡ ok (
          built fresh amount currency key url pending
            (record {
              description = string d;
              metadata = dict m;
              created_at = datetime (in_utc now);
              processed_at = none_value;
            })
            d
            m
            (in_utc now)
            none)
unfolding create make_payment check_description check_metadata ensure_aware check_processed_at
    is_truthy
create_lem amount currency key url d m fresh now = refl

-- `Payment.create` builds only payments that satisfy the invariant, in the status pending.
pub create-IsPayment :
    (amount : Amount) (currency : Currency) (key : IdempotencyKey) (url : WebhookUrl)
    (description metadata : PyValue) (payment_id : Option Uuid) (created_at : PyValue)
    (fresh : Uuid) (now : Instant) {p : Payment}
    → make_amount (decimal amount.value) ≡ ok amount
    → make_idempotency_key (string key.value) ≡ ok key
    → make_webhook_url (string url.value) ≡ ok url
    → create amount currency key url description metadata payment_id created_at fresh now ≡ ok p
    → IsPayment p × (is_processed p ≡ false)
unfolding create is_processed is_final check_processed_at
create-IsPayment amount currency key url description metadata payment_id created_at fresh now {p} a
      k u h =
    let args : Unchecked = record {
      description = description;
      metadata = default_value metadata (dict end);
      created_at = or_value created_at (datetime (in_utc now));
      processed_at = none_value;
    } in
    let (d, m, c, o, hd, hm, hc, ho, e) =
      make_payment-eq-ok (or_else payment_id fresh) amount currency key url pending args h in
    let absent : none ≡ o = cc ho in
    rw (← e, ← absent)
      (
        record {
          amount = a;
          key = k;
          url = u;
          created = ensure_aware-IsAware args.created_at (lit "created_at") hc;
          processed = refl;
        },
        refl,
      )

settle-IsPayment :
    (status : PaymentStatus) (r : Result (Option Datetime)) (now : Instant) (p : Payment)
    → is_pending status ≡ false
    → ((o : Option Datetime) → r ≡ ok o → AwareOption o)
    → IsPayment p
    → IsPayment (settle status r now p).1
unfolding settle
settle-IsPayment status (err e) now p h aware v = v
settle-IsPayment status (ok none) now p h aware v = record {
  amount = v.amount;
  key = v.key;
  url = v.url;
  created = v.created;
  processed = (h, tt);
}
settle-IsPayment status (ok (some t)) now p h aware v = record {
  amount = v.amount;
  key = v.key;
  url = v.url;
  created = v.created;
  processed = (h, aware (some t) refl);
}

-- A transition keeps the invariant, whether it is made or refused.
pub transition_to-IsPayment :
    (status : PaymentStatus) (at : PyValue) (now : Instant) (p : Payment)
    → is_pending status ≡ false
    → IsPayment p
    → IsPayment (transition_to status at now p).1
unfolding transition_to
transition_to-IsPayment status at now p h v = elim (Bool-cases (is_pending p.status)) [
  | inl e ↦ rw e (
      settle-IsPayment status (check_processed_at at) now p h
        (λ o c. check_processed_at-AwareOption at c) v)
  | inr e ↦ rw e v
]
