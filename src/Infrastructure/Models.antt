-- ===== src/Infrastructure/Models.antt =====
-- app/infrastructure/db/models.py: the rows of the two tables and their constraints. A table lists
-- its rows in the order in which they were inserted.
use secunda_test.Base.{
  ℕ, ◌≤◌, ◌≢◌, Bool, true, false, not, ◌&&◌, Option, none, some, List, [], ◌∷◌, ◌==◌, if◌then◌else◌,
  Text, length, All,
}
use secunda_test.Py.Uuid.{Uuid}
use secunda_test.Py.Decimal.{Decimal, is_negative}
use secunda_test.Py.Datetime.{Datetime}
use secunda_test.Py.Json.{Fields}
use secunda_test.Domain.Enums.{Currency, PaymentStatus, is_pending}

pub record PaymentModel : Type 0 where
  pub id : Uuid
  pub amount : Decimal
  pub currency : Currency
  pub description : Text
  pub meta : Fields
  pub status : PaymentStatus
  pub idempotency_key : Text
  pub request_hash : Text
  pub webhook_url : Text
  pub created_at : Datetime
  pub processed_at : Option Datetime

-- `created_at` is the server's time, once the row is stored.
pub record OutboxMessageModel : Type 0 where
  pub id : Uuid
  pub aggregate_id : Uuid
  pub event_type : Text
  pub payload : Fields
  pub created_at : ℕ
  pub published_at : Option Datetime
  pub attempts : ℕ
  pub last_error : Option Text

pub record Tables : Type 0 where
  pub payments : List PaymentModel
  pub outbox : List OutboxMessageModel

-- The row with the primary key `id`.
abbrev pub find_payment : Uuid → List PaymentModel → Option PaymentModel
find_payment id [] = none
find_payment id (r ∷ rs) = if r.id == id then some r else find_payment id rs

-- `published_at IS NOT NULL`
abbrev pub is_published : OutboxMessageModel → Bool
is_published m = elim m.published_at [ none ↦ false | some t ↦ true ]

unfoldable pub is_none {ℓ} : {A : Type ℓ} → Option A → Bool
is_none none = true
is_none (some a) = false

unfoldable pub both_or_neither : Bool → Bool → Bool
both_or_neither true b = b
both_or_neither false b = not b

-- `CheckConstraint`s `amount_non_negative` and `processed_at_matches_status`. Those on the enum
-- columns hold of every value of the enums.
unfoldable pub passes_checks : PaymentModel → Bool
unfolding is_none both_or_neither
passes_checks r =
    not (is_negative r.amount) && both_or_neither (is_pending r.status) (is_none r.processed_at)

-- The lengths of the columns of `idempotency_key` and `request_hash`.
pub record FitsColumns (r : PaymentModel) : Type 0 where
  pub key : length r.idempotency_key ≤ 255
  pub hash : length r.request_hash ≤ 64

abbrev pub IdFree : Uuid → List PaymentModel → Type 0
IdFree id = All (λ r. r.id ≢ id)

abbrev pub KeyFree : Text → List PaymentModel → Type 0
KeyFree key = All (λ r. r.idempotency_key ≢ key)

abbrev pub MessageFree : Uuid → List OutboxMessageModel → Type 0
MessageFree id = All (λ m. m.id ≢ id)

-- Every two rows differ in the primary key and in the unique `idempotency_key`.
abbrev pub Distinct : List PaymentModel → Type 0
Distinct [] = Unit {0}
Distinct (r ∷ rs) = IdFree r.id rs × KeyFree r.idempotency_key rs × Distinct rs
