-- ===== src/Infrastructure/Mappers/RoundTrip.antt =====
-- app/infrastructure/db/mappers.py: a payment that is stored and read back is the same payment.
use secunda_test.Base.{◌≡◌, refl, Option, none, some, Text, lit, ok, arith, >>=-eq-ok}
use secunda_test.Py.Datetime.{Datetime}
use secunda_test.Py.Json.{datetime, decimal, string, dict}
use secunda_test.Domain.Enums.{PaymentStatus}
use secunda_test.Domain.Payment.{
  Payment, ensure_aware, check_description, check_metadata, check_processed_at, make_payment,
}
use secunda_test.Domain.Payment.Invariant.{
  IsAware, AwareOption, IsPayment, ProcessedFits, make_payment-eq-ok,
}
use secunda_test.Infrastructure.Mappers.{payment_to_model, payment_from_model, nullable}
use secunda_test.Infrastructure.Models.{PaymentModel}
use secunda_test.Domain.Values.{make_amount, make_idempotency_key, make_webhook_url}
use secunda_test.Domain.Values.Checks.{
  make_amount_iff, make_idempotency_key_iff, make_webhook_url_iff,
}

ensure_aware-ok : (v : Datetime) (name : Text) → IsAware v → ensure_aware (datetime v) name ≡ ok v
unfolding ensure_aware
ensure_aware-ok v name h = ground arith

check_nullable : (o : Option Datetime) → AwareOption o → check_processed_at (nullable o) ≡ ok o
unfolding check_processed_at nullable
check_nullable none h = refl
check_nullable (some t) h = rw (ensure_aware-ok t (lit "processed_at") h)

ProcessedFits-AwareOption :
    (s : PaymentStatus) (o : Option Datetime) → ProcessedFits s o → AwareOption o
ProcessedFits-AwareOption s none h = tt
ProcessedFits-AwareOption s (some t) h = h.1

-- Reading the row that a payment was stored as gives the payment back.
pub payment_from_model-payment_to_model :
    (p : Payment) (request_hash : Text)
    → IsPayment p
    → payment_from_model (payment_to_model p request_hash) ≡ ok p
unfolding payment_from_model payment_to_model make_payment check_description check_metadata
payment_from_model-payment_to_model p request_hash h = rw (
  h.amount,
  h.key,
  h.url,
  ensure_aware-ok p.created_at (lit "created_at") h.created,
  check_nullable p.processed_at (ProcessedFits-AwareOption p.status p.processed_at h.processed),
)

aware_same :
    (v : Datetime) (name : Text) {t : Datetime} → ensure_aware (datetime v) name ≡ ok t → v ≡ t
unfolding ensure_aware
aware_same v name h = ground arith

nullable_same :
    (o : Option Datetime) {o' : Option Datetime} → check_processed_at (nullable o) ≡ ok o' → o ≡ o'
unfolding check_processed_at nullable ensure_aware
nullable_same none h = cc h
nullable_same (some t) h = ground arith

-- A row that is read as a payment is the row that this payment would be stored as.
pub payment_to_model-payment_from_model :
    (m : PaymentModel) (p : Payment)
    → payment_from_model m ≡ ok p
    → payment_to_model p m.request_hash ≡ m
unfolding payment_from_model payment_to_model check_description check_metadata
payment_to_model-payment_from_model m p h =
    let (a, ha, h1) = >>=-eq-ok (make_amount (decimal m.amount)) _ h in
    let (k, hk, h2) = >>=-eq-ok (make_idempotency_key (string m.idempotency_key)) _ h1 in
    let (u, hu, h3) = >>=-eq-ok (make_webhook_url (string m.webhook_url)) _ h2 in
    let (d, fs, c, o, hd, hm, hc, ho, e) =
      make_payment-eq-ok m.id a m.currency k u m.status
        (record {
          description = string m.description;
          metadata = dict m.meta;
          created_at = datetime m.created_at;
          processed_at = nullable m.processed_at;
        })
        h3 in
    let ea : decimal m.amount ≡ decimal a.value = ((make_amount_iff _ a).0 ha).0 in
    let ek : string m.idempotency_key ≡ string k.value = ((make_idempotency_key_iff _ k).0 hk).0 in
    let eu : string m.webhook_url ≡ string u.value = ((make_webhook_url_iff _ u).0 hu).0 in
    let ec : m.created_at ≡ c = aware_same m.created_at (lit "created_at") hc in
    let eo : m.processed_at ≡ o = nullable_same m.processed_at ho in rw (← e) (ground arith)
