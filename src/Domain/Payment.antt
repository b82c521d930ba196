-- ===== src/Domain/Payment.antt =====
-- app/domain/payment/entities.py: the entity, its construction and its transitions.
pub mod Invariant
pub mod Transitions
use secunda_test.Base.{
  Bool, not, Option, none, some, [], ◌∷◌, ◌++◌, if◌then◌else◌, Text, lit, Result, ok, err, raise_if,
  domain_error, invalid_status_transition_error,
}
use secunda_test.Base.Errors.{◌>>=◌, ◌>>◌}
use secunda_test.Py.Uuid.{Uuid, show_uuid}
use secunda_test.Py.Datetime.{Instant, Datetime, in_utc}
use secunda_test.Py.Json.{
  PyValue, none_value, datetime, string, dict, Fields, end, type_name, is_truthy,
}
use secunda_test.Domain.Enums.{
  Currency, PaymentStatus, pending, succeeded, failed, status_value, is_pending, is_final,
}
use secunda_test.Domain.Values.{Amount, IdempotencyKey, WebhookUrl}

pub record Payment : Type 0 where
  pub id : Uuid
  pub amount : Amount
  pub currency : Currency
  pub description : Text
  pub idempotency_key : IdempotencyKey
  pub webhook_url : WebhookUrl
  pub status : PaymentStatus
  pub created_at : Datetime
  pub processed_at : Option Datetime
  pub metadata : Fields

-- `_ensure_aware(value, field_name)`, which hands on the datetime that it has checked.
unfoldable pub ensure_aware : PyValue → Text → Result Datetime
ensure_aware (datetime v) name = elim v.tzinfo [
  | some (some offset) ↦ ok v
  | _ ↦ err (domain_error (name ++ lit " должен содержать таймзону"))
]
ensure_aware v name =
    err (domain_error (name ++ (lit " должен быть datetime, передано " ++ type_name v)))

unfoldable pub check_description : PyValue → Result Text
check_description (string s) = ok s
check_description v =
    err (domain_error (lit "Описание платежа должно быть строкой, передано " ++ type_name v))

unfoldable pub check_metadata : PyValue → Result Fields
check_metadata (dict fs) = ok fs
check_metadata v =
    err (domain_error (lit "Метаданные должны быть словарём, передано " ++ type_name v))

unfoldable pub check_processed_at : PyValue → Result (Option Datetime)
check_processed_at none_value = ok none
check_processed_at v = do t ← ensure_aware v (lit "processed_at"); ok (some t)

-- The arguments of `Payment(...)` that its `__post_init__` looks into.
pub record Unchecked : Type 0 where
  pub description : PyValue
  pub metadata : PyValue
  pub created_at : PyValue
  pub processed_at : PyValue

-- `Payment(...)`: the dataclass's constructor with `__post_init__`, in its order of checks.
unfoldable pub make_payment :
    Uuid
    → Amount
    → Currency
    → IdempotencyKey
    → WebhookUrl
    → PaymentStatus
    → Unchecked
    → Result Payment
make_payment id amount currency key url status args = do
  description ← check_description args.description
  metadata ← check_metadata args.metadata
  created_at ← ensure_aware args.created_at (lit "created_at")
  processed_at ← check_processed_at args.processed_at
  ok (record {
    id = id;
    amount = amount;
    currency = currency;
    description = description;
    idempotency_key = key;
    webhook_url = url;
    status = status;
    created_at = created_at;
    processed_at = processed_at;
    metadata = metadata;
  })

-- `x or default`, of an object that is true unless it is `None`
abbrev pub or_else {ℓ} : {A : Type ℓ} → Option A → A → A
or_else none d = d
or_else (some a) d = a

unfoldable pub default_value : PyValue → PyValue → PyValue
default_value none_value d = d
default_value v d = v

-- `v or default`
unfoldable pub or_value : PyValue → PyValue → PyValue
or_value v d = if is_truthy v then v else d

-- `Payment.create(...)`. `fresh` is what `uuid4()` would return and `now` what the clock would read.
unfoldable pub create :
    Amount
    → Currency
    → IdempotencyKey
    → WebhookUrl
    → (description metadata : PyValue) → Option Uuid
    → (created_at : PyValue) → (fresh : Uuid) (now : Instant) → Result Payment
unfolding default_value or_value
create amount currency key url description metadata payment_id created_at fresh now =
    make_payment (or_else payment_id fresh) amount currency key url pending (record {
      description = description;
      metadata = default_value metadata (dict end);
      created_at = or_value created_at (datetime (in_utc now));
      processed_at = none_value;
    })

unfoldable pub is_processed : Payment → Bool
is_processed p = is_final p.status

unfoldable pub settle :
    PaymentStatus → Result (Option Datetime) → Instant → Payment → Result (Unit {0}) × Payment
settle status (err e) now p = (err e, p)
settle status (ok given) now p =
    (ok tt, record p { status = status; processed_at = some (or_else given (in_utc now)) })

-- `self._transition_to(status, processed_at)`: the outcome, and the entity after it.
unfoldable pub transition_to :
    PaymentStatus → PyValue → Instant → Payment → Result (Unit {0}) × Payment
unfolding settle
transition_to status processed_at now p =
    if not (is_pending p.status)
    then (
      err (
          invalid_status_transition_error (
            lit "Платёж "
            ++ (show_uuid p.id
                ++ (lit " уже в статусе "
                    ++ (status_value p.status
                        ++ (lit ", перевод в " ++ (status_value status ++ lit " невозможен"))))))),
      p,
    )
    else settle status (check_processed_at processed_at) now p

unfoldable pub mark_succeeded : PyValue → Instant → Payment → Result (Unit {0}) × Payment
unfolding transition_to
mark_succeeded = transition_to succeeded

unfoldable pub mark_failed : PyValue → Instant → Payment → Result (Unit {0}) × Payment
unfolding transition_to
mark_failed = transition_to failed
