-- ===== src/Examples/Running.antt =====
-- The service over the tables in memory: its events, the relay and the hash of a request.
use secunda_test.Examples.Configured.{settings, batches}
use secunda_test.Base.{
  arith, ◌++◌, ◌-◌, Result, none, ℕ, ◌≡◌, ◌≢◌, ◌≤◌, ◌+◌, refl, List, [], ◌∷◌, Text, lit, length, ok,
  none,
}
use secunda_test.Py.Json.{str, int, obj, Fields, end, field}
use secunda_test.Py.Json.Sorting.{swap}
use secunda_test.Py.Numbers.{pos}
use secunda_test.Py.Decimal.{show_decimal}
use secunda_test.Domain.Enums.{rub, currency_value}
use secunda_test.Domain.Payment.{Payment}
use secunda_test.Application.Events.{payment_created, webhook_payload}
use secunda_test.Infrastructure.Models.{OutboxMessageModel, Tables}
use secunda_test.Infrastructure.Invariant.{IsTables, Evolves}
use secunda_test.Infrastructure.Platform.{World, Post}
use secunda_test.Infrastructure.Relay.{publish_batch, run, run_once}
use secunda_test.Service.Creating.{IsIdle}
use secunda_test.Service.Standing.{Standing}
use secunda_test.Service.Passing.{PassOf, publish_batch-PassOf}
use secunda_test.Service.Batches.{IsBatch, publish_batch-IsBatch}
use secunda_test.Service.Turning.{IsUncancelled, work, run-progress}
use secunda_test.Presentation.Api.{CreatePaymentRequest, create_endpoint}
use secunda_test.Presentation.Api.Hashing.{request_hash, IsModelDump, request_hash-Reordered}
use secunda_test.Presentation.Consumer.{handle_payment_created}
use secunda_test.Presentation.Running.{Service, Reach, here, next, created, delivered, relayed}
use secunda_test.Presentation.Running.Redelivered.{redelivery-charges}
use secunda_test.Presentation.Consumer.Handling.{payment_id_of-payment_created}
use secunda_test.Presentation.Running.Wiring.{
  wired_service, wired_service-keeps, wired_session, wired_session-told,
}
use secunda_test.Infrastructure.Webhook.Attempts.{post_fault, numbered}
use secunda_test.Examples.Sending.{loop, loop-IsRetrying, memory_errors}
use secunda_test.Examples.Memory.{memory}
use secunda_test.Examples.Lawful.{memory-IsLawful}
use secunda_test.Examples.Data.{payment, world, tables-IsTables, ten_fifty, hook}
use secunda_test.Examples.Telling.{session_succeeds}

-- The dump of a body, and a checksum in place of sha256.
abbrev dump : CreatePaymentRequest → Fields
dump body = field (lit "amount") (str (show_decimal body.amount)) (
    field (lit "currency") (str (currency_value body.currency)) (
      field (lit "description") (str body.description) (
        field (lit "metadata") (obj body.metadata)
          (field (lit "webhook_url") (str body.webhook_url) end))))

dump-IsModelDump : IsModelDump dump
dump-IsModelDump = record { amount_text = show_decimal; fields = λ body. refl }

abbrev checksum : Text → Text
checksum s = length s ∷ []

abbrev order_and_shop : Fields
order_and_shop = field (lit "order") (int (pos 7)) (field (lit "shop") (str (lit "north")) end)

abbrev shop_and_order : Fields
shop_and_order = field (lit "shop") (str (lit "north")) (field (lit "order") (int (pos 7)) end)

abbrev body : CreatePaymentRequest
body = record {
  amount = ten_fifty;
  currency = rub;
  description = lit "book";
  metadata = order_and_shop;
  webhook_url = hook;
}

keys_differ : lit "order" ≢ lit "shop"
unfolding lit
keys_differ e = cc

request_hash-Reordered_example :
    request_hash dump checksum (record body { metadata = shop_and_order })
    ≡ request_hash dump checksum body
request_hash-Reordered_example =
    request_hash-Reordered dump checksum dump-IsModelDump body shop_and_order
      (swap (lit "order") (lit "shop") (int (pos 7)) (str (lit "north")) end keys_differ)

abbrev hash : CreatePaymentRequest → Text
hash = request_hash dump checksum

abbrev service : Service
service = wired_service memory loop hash settings

-- A turn of the relay, the message of the first payment, and a second payment.
abbrev after_relay : World
after_relay = (run_once service.system service.outbox world).1

abbrev event : Fields
event = (payment_created payment 2).payload

abbrev after_message : World
after_message =
    (handle_payment_created service.system service.retry service.gateway service.webhooks event []
      after_relay).1

abbrev after_request : World
after_request =
    (create_endpoint service.system service.request_hash body (lit "key-2") after_message).1

three_events : Reach service world after_request
three_events =
    next (next (next here (relayed world)) (delivered event [] after_relay))
      (created body (lit "key-2") after_message)

wired_service-keeps_example :
    IsTables after_request.tables × Evolves world.tables after_request.tables × IsIdle after_request
wired_service-keeps_example =
    wired_service-keeps memory loop hash settings memory-IsLawful loop-IsRetrying world
      after_request (record { clean = refl; no_payments = refl; no_outbox = refl }) tables-IsTables
      three_events

abbrev the_session : Result (Unit {0}) × World
the_session = wired_session memory loop hash settings memory-IsLawful loop-IsRetrying 1 world

session_ok : the_session.0 ≡ ok tt
unfolding wired_service
session_ok = session_succeeds

wired_session-told_example :
    (final : Payment) × (before : List Post) × (n : ℕ) × (1 ≤ n)
    × (the_session.1.posts
        ≡ before ++ numbered 10 final.webhook_url.value (webhook_payload final) 1 n)
    × (post_fault memory (length before + (n - 1)) ≡ none)
    × Standing 1 final (run_once service.system service.outbox the_session.1).1.tables
wired_session-told_example =
    wired_session-told memory loop hash settings memory-IsLawful loop-IsRetrying memory_errors 1
      world (run_once service.system service.outbox the_session.1).1
      (record { clean = refl; no_payments = refl; no_outbox = refl }) tables-IsTables session_ok
      (next here (relayed the_session.1))

memory-IsUncancelled : IsUncancelled memory
unfolding memory
memory-IsUncancelled = record {
  statements = λ k e h. cc;
  publishes = λ k e h. cc;
  writes = λ rows t e h. cc;
}

memory_accepts :
    (rows : List OutboxMessageModel) (t : Tables)
    → (t' : Tables) × (memory.write_outbox rows t ≡ ok t')
unfolding memory
memory_accepts rows t = (_, refl)

run-progress_example :
    ((run memory batches 3 world).0 ≡ ok tt)
    × (work world + 3 ≤ work (run memory batches 3 world).1)
run-progress_example = run-progress memory-IsLawful memory-IsUncancelled batches 3 world refl

no_fault : (k : ℕ) → memory.statement_fault k ≡ none
unfolding memory
no_fault k = refl

publish_batch-IsBatch_example : IsBatch memory batches world (publish_batch memory batches world)
publish_batch-IsBatch_example =
    publish_batch-IsBatch memory memory-IsLawful memory-IsUncancelled.publishes memory_accepts
      batches world refl (no_fault world.statements) (no_fault (world.statements + 1))

publish_batch-PassOf_example :
    PassOf memory-IsLawful batches world (publish_batch memory batches world).1
publish_batch-PassOf_example = publish_batch-PassOf memory-IsLawful batches world refl

redelivery-charges_example :
    (handle_payment_created memory service.retry service.gateway service.webhooks event []
      (run_once service.system service.outbox the_session.1).1).1.charges
    ≡ (run_once service.system service.outbox the_session.1).1.charges
redelivery-charges_example =
    redelivery-charges memory loop hash settings memory-IsLawful loop-IsRetrying 1 world
      (run_once service.system service.outbox the_session.1).1 event []
      (record { clean = refl; no_payments = refl; no_outbox = refl }) tables-IsTables session_ok
      (next here (relayed the_session.1)) (payment_id_of-payment_created payment 2 (omega arith))
