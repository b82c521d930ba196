-- ===== src/Examples/Telling.antt =====
-- A processing that charges the payment of the world, over the tables in memory.
use secunda_test.Infrastructure.Gateway.{fake_gateway, fake_charge, random, uniform, log_charge}
use secunda_test.Infrastructure.Webhook.{webhook_sender, send, post, client_post, checked}
use secunda_test.Infrastructure.Platform.{sleep}
use secunda_test.Examples.Sending.{loop}
use secunda_test.Examples.Configured.{settings, nine_of_ten}
use secunda_test.Examples.Configured.{guest}
use secunda_test.Base.{◌≡◌, refl, true, [], ◌∷◌, ◌++◌, ok, Text, lit}
use secunda_test.Domain.Values.{
  make_amount, make_idempotency_key, make_webhook_url, is_allowed_scheme, check_parsed,
}
use secunda_test.Py.Decimal.{is_finite, is_negative, decimal_places}
use secunda_test.Py.Strings.{is_space}
use secunda_test.Py.Url.{urlparse}
use secunda_test.Application.GetPayment.{found}
use secunda_test.Application.ProcessPayment.{
  after_update, charge, current_or, marked, process_payment,
}
use secunda_test.Domain.Enums.{currency_value, is_final, status_value}
use secunda_test.Domain.Payment.{
  check_description, check_metadata, check_processed_at, ensure_aware, is_processed, make_payment,
  mark_failed, mark_succeeded, settle, transition_to,
}
use secunda_test.Infrastructure.Mappers.{nullable, payment_from_model, payment_to_model}
use secunda_test.Infrastructure.Repositories.{
  payment_repository, select_one, get, read_payment, scalar_one_or_none, update_status,
}
use secunda_test.Infrastructure.Platform.{interpreter, utc_now}
use secunda_test.Infrastructure.Session.{
  arrived, commit, flushed, statement, session_commit, translated, unit_of_work, rollback,
}
use secunda_test.Py.Json.{Fields}
use secunda_test.Domain.Payment.{Payment}
use secunda_test.Application.Interfaces.{PaymentGateway, WebhookSender}
use secunda_test.Application.Events.{webhook_payload}
use secunda_test.Infrastructure.Platform.{World}
use secunda_test.Service.Processing.{process_use_case, IsQuiet}
use secunda_test.Service.Standing.{Standing}
use secunda_test.Service.Telling.{process_use_case-Told}
use secunda_test.Examples.Memory.{memory}
use secunda_test.Examples.Lawful.{memory-IsLawful}
use secunda_test.Examples.Data.{world, tables-IsTables}
use secunda_test.Presentation.Consumer.{process_in_session}

abbrev pub approving : PaymentGateway World
approving = record { charge = λ p w. (ok true, w) }

pub approving-IsQuiet : (p : Payment) → IsQuiet (approving.charge p)
approving-IsQuiet p w = record {
  tables = refl;
  dirty = refl;
  new_payments = refl;
  new_outbox = refl;
  statements = refl;
}

abbrev pub reached : WebhookSender World
reached = record {
  send = λ url payload w. (
    ok tt,
    record w {
      posts = w.posts ++ record { url = url; payload = payload; attempt = 1; timeout = 10 } ∷ [];
    },
  );
}

pub reached-IsQuiet : (url : Text) (payload : Fields) → IsQuiet (reached.send url payload)
reached-IsQuiet url payload w = record {
  tables = refl;
  dirty = refl;
  new_payments = refl;
  new_outbox = refl;
  statements = refl;
}

returns : (process_use_case memory approving reached 1 world).0 ≡ ok tt
unfolding process_use_case memory lit make_amount is_finite is_negative decimal_places
    make_idempotency_key is_space make_webhook_url urlparse is_allowed_scheme found after_update
    charge current_or marked process_payment currency_value is_final status_value check_description
    check_metadata check_processed_at ensure_aware is_processed make_payment mark_failed
    mark_succeeded settle transition_to check_parsed nullable payment_from_model payment_to_model
    payment_repository select_one interpreter utc_now get read_payment scalar_one_or_none
    update_status arrived commit flushed statement session_commit translated unit_of_work
returns = refl

pub session_succeeds :
    (process_in_session memory guest
      (fake_gateway memory nine_of_ten)
      (webhook_sender memory loop settings.webhook)
      1
      world).0
    ≡ ok tt
unfolding fake_gateway fake_charge random uniform log_charge sleep webhook_sender send post
    client_post checked process_in_session rollback memory lit make_amount is_finite is_negative
    decimal_places make_idempotency_key is_space make_webhook_url urlparse is_allowed_scheme found
    after_update charge current_or marked process_payment currency_value is_final status_value
    check_description check_metadata check_processed_at ensure_aware is_processed make_payment
    mark_failed mark_succeeded settle transition_to check_parsed nullable payment_from_model
    payment_to_model payment_repository select_one interpreter utc_now get read_payment
    scalar_one_or_none update_status arrived commit flushed statement session_commit translated
    unit_of_work
session_succeeds = refl

process_use_case-Told_example :
    (final : Payment) × (before : World) × (reached.send final.webhook_url.value
        (webhook_payload final)
        before
      ≡ (ok tt, (process_use_case memory approving reached 1 world).1))
    × Standing 1 final (process_use_case memory approving reached 1 world).1.tables
process_use_case-Told_example =
    process_use_case-Told memory approving reached 1 world memory-IsLawful approving-IsQuiet
      reached-IsQuiet (record { clean = refl; no_payments = refl; no_outbox = refl })
      tables-IsTables returns
