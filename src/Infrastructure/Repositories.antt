-- ===== src/Infrastructure/Repositories.antt =====
-- app/infrastructure/db/repositories: the repositories over a session.
pub mod Reading
pub mod Updating
pub mod Outcome
pub mod Settling
use secunda_test.Base.{
  ℕ, zero, suc, ◌+◌, Bool, true, false, not, ◌&&◌, Option, none, some, List, [], ◌∷◌, if◌then◌else◌,
  ◌==◌, Text, lit, text_eq, Exc, other_error, Result, ok, err,
}
use secunda_test.Exec.{Exec, pure, lift, ◌>>=◌, ◌>>◌}
use secunda_test.Py.Uuid.{Uuid}
use secunda_test.Domain.Enums.{is_pending}
use secunda_test.Domain.Payment.{Payment}
use secunda_test.Application.Dto.{StoredPayment, OutboxMessage}
use secunda_test.Application.Interfaces.{PaymentRepository, OutboxRepository}
use secunda_test.Infrastructure.Models.{PaymentModel, OutboxMessageModel, Tables}
use secunda_test.Infrastructure.Mappers.{payment_to_model, payment_from_model}
use secunda_test.Infrastructure.Platform.{System, World}
use secunda_test.Infrastructure.Session.{seen, add_payment, add_outbox, statement}

-- The row of `OutboxMessageModel(...)`; the other columns have server defaults.
unfoldable pub outbox_row : OutboxMessage → OutboxMessageModel
outbox_row m = record {
  id = m.id;
  aggregate_id = m.aggregate_id;
  event_type = m.event_type;
  payload = m.payload;
  created_at = 0;
  published_at = none;
  attempts = 0;
  last_error = none;
}

unfoldable pub outbox_repository : OutboxRepository World
unfolding outbox_row add_outbox
outbox_repository = record { add = λ m. add_outbox (outbox_row m) }

-- `result.scalar_one_or_none()`
unfoldable pub scalar_one_or_none : List PaymentModel → Result (Option PaymentModel)
scalar_one_or_none [] = ok none
scalar_one_or_none (r ∷ []) = ok (some r)
scalar_one_or_none (r ∷ s ∷ rs) = err (
    other_error (lit "MultipleResultsFound")
      (lit "Multiple rows were found when one or none was required"))

unfoldable pub read_payment : Option PaymentModel → Result (Option Payment)
read_payment none = ok none
read_payment (some r) = elim (payment_from_model r) [ ok p ↦ ok (some p) | err e ↦ err e ]

unfoldable pub read_stored : Option PaymentModel → Result (Option StoredPayment)
read_stored none = ok none
read_stored (some r) = elim (payment_from_model r) [
  | ok p ↦ ok (some (record { payment = p; request_hash = r.request_hash }))
  | err e ↦ err e
]

-- `PaymentModel.id == payment_id` and `PaymentModel.idempotency_key == key`
abbrev pub has_id : Uuid → PaymentModel → Bool
has_id id r = r.id == id

abbrev pub has_key : Text → PaymentModel → Bool
has_key key r = text_eq r.idempotency_key key

-- The `where` and the `values` of the UPDATE.
abbrev pub is_pending_row : Uuid → PaymentModel → Bool
is_pending_row id r = r.id == id && is_pending r.status

abbrev pub with_outcome : Payment → PaymentModel → PaymentModel
with_outcome p r = record r { status = p.status; processed_at = p.processed_at }

module _ (sys : System) where
  -- A SELECT of at most one row.
  unfoldable pub select_one : (PaymentModel → Bool) → Exec World (Option PaymentModel)
  unfolding scalar_one_or_none
  select_one p = do statement sys; λ w. (scalar_one_or_none (sys.select_payments p (seen w)), w)

  unfoldable pub add : Payment → Text → Exec World (Unit {0})
  unfolding add_payment
  add p request_hash = add_payment (payment_to_model p request_hash)

  -- `session.get(...)`: the row of an earlier query is not referenced any more, so that the session
  -- asks the database.
  unfoldable pub get : Uuid → Exec World (Option Payment)
  unfolding read_payment
  get id = do row ← select_one (has_id id); lift (read_payment row)

  unfoldable pub get_by_idempotency_key : Text → Exec World (Option StoredPayment)
  unfolding read_stored
  get_by_idempotency_key key = do row ← select_one (has_key key); lift (read_stored row)

  updated : Result (Tables × ℕ) → Exec World Bool
  updated (ok (t, rowcount)) w = (ok (not (rowcount == 0)), record w { dirty = some t })
  updated (err e) w = (err e, w)

  unfoldable pub update_status : Payment → Exec World Bool
  unfolding updated
  update_status p = do
    statement sys
    λ w. updated (sys.update_payments (is_pending_row p.id) (with_outcome p) (seen w)) w

  unfoldable pub payment_repository : PaymentRepository World
  unfolding add get get_by_idempotency_key update_status
  payment_repository = record {
    add = add;
    get = get;
    get_by_idempotency_key = get_by_idempotency_key;
    update_status = update_status;
  }
