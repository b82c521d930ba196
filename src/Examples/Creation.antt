-- ===== src/Examples/Creation.antt =====
-- A creation that is run, over the empty system in memory.
use secunda_test.Base.{◌≡◌, refl, true, ok, lit, ℕ, none, first, arith}
use secunda_test.Application.Dto.{CreatePaymentResult}
use secunda_test.Py.Json.{is_truthy}
use secunda_test.Py.Strings.{is_space}
use secunda_test.Py.Url.{urlparse}
use secunda_test.Py.Decimal.{is_finite, is_negative, decimal_places}
use secunda_test.Domain.Values.{
  make_amount, make_idempotency_key, make_webhook_url, check_parsed, is_allowed_scheme,
}
use secunda_test.Domain.Payment.{
  create, make_payment, check_description, check_metadata, ensure_aware, check_processed_at,
  default_value, or_value,
}
use secunda_test.Application.Events.{payment_created}
use secunda_test.Application.CreatePayment.{create_payment, or_create, create_new, new_payment}
use secunda_test.Infrastructure.Models.{passes_checks}
use secunda_test.Infrastructure.Mappers.{payment_to_model}
use secunda_test.Infrastructure.Session.{
  statement, arrived, add_payment, add_outbox, commit, session_commit, flushed, translated,
  unit_of_work, seen,
}
use secunda_test.Infrastructure.Repositories.{
  payment_repository, outbox_repository, outbox_row, get_by_idempotency_key, select_one,
  scalar_one_or_none, read_stored, add, has_key,
}
use secunda_test.Service.{create_use_case}
use secunda_test.Infrastructure.Platform.{interpreter, uuid4, utc_now}
use secunda_test.Examples.Memory.{memory, empty_world}
use secunda_test.Service.Creating.{the_payment}
use secunda_test.Service.Success.{at_commit, create_use_case-creates}
use secunda_test.Infrastructure.Invariant.{IsTables}
use secunda_test.Infrastructure.Platform.Laws.{Insertable}
use secunda_test.Examples.Lawful.{memory-IsLawful}
use secunda_test.Examples.Data.{payment, command, tables}

abbrev pub created : CreatePaymentResult
created = record { payment = payment; created = true }

pub it_creates : (create_use_case memory command empty_world).0 ≡ ok created
unfolding create_use_case create_payment or_create create_new new_payment payment_repository
    outbox_repository unit_of_work interpreter get_by_idempotency_key select_one scalar_one_or_none
    read_stored statement arrived memory add add_payment add_outbox outbox_row payment_created
    payment_to_model commit session_commit flushed translated create make_payment check_description
    check_metadata ensure_aware check_processed_at default_value or_value is_truthy make_amount
    is_finite is_negative decimal_places make_idempotency_key is_space make_webhook_url check_parsed
    is_allowed_scheme urlparse passes_checks uuid4 utc_now lit
it_creates = refl

pub it_stores : (create_use_case memory command empty_world).1.tables ≡ tables
unfolding create_use_case create_payment or_create create_new new_payment payment_repository
    outbox_repository unit_of_work interpreter get_by_idempotency_key select_one scalar_one_or_none
    read_stored statement arrived memory add add_payment add_outbox outbox_row payment_created
    payment_to_model commit session_commit flushed translated create make_payment check_description
    check_metadata ensure_aware check_processed_at default_value or_value is_truthy make_amount
    is_finite is_negative decimal_places make_idempotency_key is_space make_webhook_url check_parsed
    is_allowed_scheme urlparse passes_checks uuid4 utc_now lit
it_stores = refl

seen-IsTables : IsTables (seen (arrived memory empty_world))
unfolding arrived memory
seen-IsTables = record { distinct = tt; rows = tt; announced = tt }

no_fault : (k : ℕ) → memory.statement_fault k ≡ none
unfolding memory
no_fault k = refl

key_is_new :
    first (has_key command.idempotency_key) (seen (arrived memory empty_world)).payments ≡ none
unfolding arrived memory
key_is_new = refl

it_is_built : (the_payment memory command (arrived memory empty_world)).0 ≡ ok payment
unfolding create_use_case create_payment or_create create_new new_payment payment_repository
    outbox_repository unit_of_work interpreter get_by_idempotency_key select_one scalar_one_or_none
    read_stored statement arrived memory add add_payment add_outbox outbox_row payment_created
    payment_to_model commit session_commit flushed translated create make_payment check_description
    check_metadata ensure_aware check_processed_at default_value or_value is_truthy make_amount
    is_finite is_negative decimal_places make_idempotency_key is_space make_webhook_url check_parsed
    is_allowed_scheme urlparse passes_checks uuid4 utc_now lit
it_is_built = refl

it_is_free :
    Insertable memory
      (payment_to_model payment command.request_hash)
      (outbox_row (
        payment_created payment
          (memory.uuids (the_payment memory command (arrived memory empty_world)).1.uuids_drawn)))
      (arrived memory (at_commit memory command empty_world payment)).tables
unfolding create_use_case create_payment or_create create_new new_payment payment_repository
    outbox_repository unit_of_work interpreter get_by_idempotency_key select_one scalar_one_or_none
    read_stored statement arrived memory add add_payment add_outbox outbox_row payment_created
    payment_to_model commit session_commit flushed translated create make_payment check_description
    check_metadata ensure_aware check_processed_at default_value or_value is_truthy make_amount
    is_finite is_negative decimal_places make_idempotency_key is_space make_webhook_url check_parsed
    is_allowed_scheme urlparse passes_checks uuid4 utc_now lit
it_is_free = record {
  storable = refl;
  columns = record { key = omega arith; hash = omega arith };
  checks = refl;
  id_free = tt;
  key_free = tt;
  message_free = tt;
}

create_use_case-creates_example :
    (create_use_case memory command empty_world).0
    ≡ ok (record { payment = payment; created = true })
create_use_case-creates_example =
    create_use_case-creates memory command empty_world payment memory-IsLawful
      (record { clean = refl; no_payments = refl; no_outbox = refl }) seen-IsTables (no_fault 0)
      (no_fault 1) key_is_new it_is_built it_is_free
