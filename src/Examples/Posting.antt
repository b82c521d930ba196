-- ===== src/Examples/Posting.antt =====
-- Two POSTs with one key, with a turn of the relay between them, and the GET after them.
use secunda_test.Base.{◌≡◌, refl, none, some, Text, lit}
use secunda_test.Domain.Enums.{pending, rub}
use secunda_test.Py.Json.{end}
use secunda_test.Py.Datetime.{in_utc}
use secunda_test.Py.Json.{is_truthy}
use secunda_test.Py.Strings.{is_space}
use secunda_test.Py.Url.{urlparse}
use secunda_test.Py.Decimal.{is_finite, is_negative, decimal_places}
use secunda_test.Domain.Values.{
  make_amount, make_idempotency_key, make_webhook_url, check_parsed, is_allowed_scheme,
}
use secunda_test.Domain.Payment.{
  create, make_payment, check_description, check_metadata, ensure_aware, check_processed_at,
  default_value, or_value,
}
use secunda_test.Application.Events.{payment_created}
use secunda_test.Application.CreatePayment.{
  create_payment, or_create, create_new, new_payment, replay, replayed,
}
use secunda_test.Infrastructure.Models.{passes_checks, is_none}
use secunda_test.Infrastructure.Mappers.{payment_to_model, payment_from_model, nullable}
use secunda_test.Infrastructure.Session.{
  statement, arrived, add_payment, add_outbox, commit, session_commit, flushed, translated,
  unit_of_work, rollback,
}
use secunda_test.Infrastructure.Repositories.{
  payment_repository, outbox_repository, outbox_row, get_by_idempotency_key, select_one,
  scalar_one_or_none, read_stored, add,
}
use secunda_test.Infrastructure.Relay.{
  outbox_query, run_once, publish_batch, lock_unpublished, relay_all, relay_one, mark_published,
  write_rows, pause, publish_event, event_message,
}
use secunda_test.Infrastructure.Platform.{World, interpreter, uuid4, utc_now, sleep, publish}
use secunda_test.Service.{create_use_case}
use secunda_test.Service.Creating.{IsIdle}
use secunda_test.Infrastructure.Invariant.{IsTables}
use secunda_test.Presentation.Api.{
  CreatePaymentRequest, PaymentAcceptedResponse, PaymentResponse, create_endpoint, in_session,
  command_of, accepted_from_domain, require_api_key,
}
use secunda_test.Presentation.Api.Requests.{Response, answered, respond, post_payment, show_payment}
use secunda_test.Presentation.Running.{Service, Reach, here, next, relayed}
use secunda_test.Presentation.Running.Wiring.{wired_service}
use secunda_test.Presentation.Running.Accepted.{post_payment-shown, post_payment-repeated}
use secunda_test.Examples.Memory.{memory, empty_world, start_of_2026}
use secunda_test.Examples.Lawful.{memory-IsLawful}
use secunda_test.Examples.Data.{ten_fifty, hook, key_one}
use secunda_test.Examples.Sending.{loop, loop-IsRetrying}
use secunda_test.Examples.Configured.{settings}

abbrev hash : CreatePaymentRequest → Text
hash body = lit "5f"

abbrev body : CreatePaymentRequest
body = record {
  amount = ten_fifty;
  currency = rub;
  description = lit "book";
  metadata = end;
  webhook_url = hook;
}

abbrev service : Service
service = wired_service memory loop hash settings

abbrev accepted : PaymentAcceptedResponse
accepted = record { payment_id = 1; status = pending; created_at = in_utc start_of_2026 }

abbrev posted : World → Response PaymentAcceptedResponse × World
posted = post_payment memory hash settings.api (some settings.api.key) body key_one

abbrev after_post : World
after_post = (posted empty_world).1

abbrev after_relay : World
after_relay = (run_once service.system service.outbox after_post).1

it_is_accepted : (posted empty_world).0 ≡ answered 202 accepted
unfolding post_payment respond create_endpoint in_session command_of accepted_from_domain
    require_api_key rollback create_use_case create_payment or_create create_new new_payment
    payment_repository outbox_repository unit_of_work interpreter get_by_idempotency_key select_one
    scalar_one_or_none read_stored statement arrived memory add add_payment add_outbox outbox_row
    payment_created payment_to_model commit session_commit flushed translated create make_payment
    check_description check_metadata ensure_aware check_processed_at default_value or_value
    is_truthy make_amount is_finite is_negative decimal_places make_idempotency_key is_space
    make_webhook_url check_parsed is_allowed_scheme urlparse passes_checks uuid4 utc_now lit
it_is_accepted = refl

it_is_replayed : (posted after_relay).0 ≡ answered 202 accepted
unfolding post_payment respond create_endpoint in_session command_of accepted_from_domain
    require_api_key rollback create_use_case create_payment or_create create_new new_payment
    payment_repository outbox_repository unit_of_work interpreter get_by_idempotency_key select_one
    scalar_one_or_none read_stored statement arrived memory add add_payment add_outbox outbox_row
    payment_created payment_to_model commit session_commit flushed translated create make_payment
    check_description check_metadata ensure_aware check_processed_at default_value or_value
    is_truthy make_amount is_finite is_negative decimal_places make_idempotency_key is_space
    make_webhook_url check_parsed is_allowed_scheme urlparse passes_checks uuid4 utc_now lit
    wired_service run_once publish_batch lock_unpublished relay_all relay_one mark_published
    write_rows pause publish_event event_message sleep publish replay replayed payment_from_model
    nullable outbox_query is_none
it_is_replayed = refl

no_fault : (w : World) → memory.statement_fault w.statements ≡ none
unfolding memory
no_fault w = refl

idle : IsIdle empty_world
idle = record { clean = refl; no_payments = refl; no_outbox = refl }

valid : IsTables empty_world.tables
valid = record { distinct = tt; rows = tt; announced = tt }

a_turn : Reach service after_post after_relay
a_turn = next here (relayed after_post)

post_payment-shown_example :
    (shown : PaymentResponse) × (shown.id ≡ 1)
    × (shown.idempotency_key ≡ key_one)
    × ((show_payment memory hash settings.api (some settings.api.key) 1 after_relay).0
        ≡ answered 200 shown)
post_payment-shown_example =
    post_payment-shown memory loop hash settings memory-IsLawful loop-IsRetrying body key_one
      (some settings.api.key) empty_world after_relay accepted idle valid it_is_accepted a_turn
      (no_fault after_relay)

post_payment-repeated_example :
    (accepted.payment_id ≡ accepted.payment_id) × (hash body ≡ hash body)
post_payment-repeated_example =
    post_payment-repeated memory loop hash settings memory-IsLawful loop-IsRetrying body body
      key_one (some settings.api.key) (some settings.api.key) empty_world after_relay accepted
      accepted idle valid it_is_accepted a_turn it_is_replayed
