-- ===== src/Examples/Delivery.antt =====
-- The processing of a payment and the retries at concrete inputs.
use secunda_test.Examples.Configured.{settings, guest, nine_of_ten}
use secunda_test.Base.{
  ℕ, ◌≡◌, refl, true, some, none, lit, ok, err, Exc, other_error, arith, is_exception, ◌∷◌, [],
}
use secunda_test.Py.Json.{end}
use secunda_test.Application.Interfaces.{PaymentGateway, WebhookSender}
use secunda_test.Application.Events.{payment_created}
use secunda_test.Infrastructure.Platform.{World}
use secunda_test.Presentation.Retry.{Headers, attempt_of, headers, retry_message, dead_message}
use secunda_test.Presentation.Retry.Lifecycle.{
  attempt_of-headers, fail_again, trail, fail_again-trail,
}
use secunda_test.Presentation.Consumer.{payment_id_of, handle_payment_created, process_in_session}
use secunda_test.Presentation.Consumer.Handling.{
  payment_id_of-payment_created, consequence, handle_payment_created-consequence,
}
use secunda_test.Examples.Memory.{memory, empty_world}
use secunda_test.Examples.Data.{payment, world, tables, hook, tables-IsTables}
use secunda_test.Presentation.Retry.Routing.{queues_of, dead_lettered, routing-declare_topology}
use secunda_test.Infrastructure.Topology.{new_queue, retry_queue, dlq_queue}
use secunda_test.Infrastructure.Relay.{event_message, relay_all}
use secunda_test.Infrastructure.Relay.Batch.{IsPass, relay_all-IsPass}
use secunda_test.Infrastructure.Repositories.{outbox_row}
use secunda_test.Service.Processing.{process_use_case, process_use_case-keeps}
use secunda_test.Infrastructure.Invariant.{IsTables, Evolves}
use secunda_test.Examples.Lawful.{memory-IsLawful}
use secunda_test.Service.Quiet.{fake_charge-IsQuiet, send-IsQuiet}
use secunda_test.Infrastructure.Webhook.{Retrying, webhook_sender}
use secunda_test.Infrastructure.Gateway.{GatewaySettings, fake_gateway}

abbrev timeout : ℕ → Exc
timeout k = other_error (lit "TimeoutError") (lit "")

no_publish_fault : (k : ℕ) → memory.publish_fault k ≡ none
unfolding memory
no_publish_fault k = refl

readable : attempt_of (headers 2 (timeout 1)) ≡ ok 2
readable = attempt_of-headers 2 (timeout 1) (omega arith)

event_is_readable : payment_id_of (payment_created payment 2).payload ≡ ok 1
event_is_readable = payment_id_of-payment_created payment 2 (omega arith)

attempt_of-headers_example : attempt_of (headers 3 (timeout 0)) ≡ ok 3
attempt_of-headers_example = attempt_of-headers 3 (timeout 0) (omega arith)

fail_again-trail_example :
    fail_again memory guest timeout end 2 1 empty_world
    ≡ (ok tt, record empty_world { published = trail memory guest timeout end 2 1; publishes = 3 })
fail_again-trail_example =
    fail_again-trail memory guest timeout end no_publish_fault 2 1 empty_world (omega arith) refl
      (omega arith)

payment_id_of-payment_created_example : payment_id_of (payment_created payment 2).payload ≡ ok 1
payment_id_of-payment_created_example = payment_id_of-payment_created payment 2 (omega arith)

abbrev approving_memory : PaymentGateway World
approving_memory = record { charge = λ p w. (ok true, w) }

abbrev unreachable : WebhookSender World
unreachable = record { send = λ url payload w. (err (timeout 0), w) }

abbrev message : Headers
message = headers 2 (timeout 1)

handle_payment_created-consequence_example :
    handle_payment_created memory guest approving_memory unreachable
      (payment_created payment 2).payload
      message
      world
    ≡ consequence memory guest approving_memory unreachable
        (payment_created payment 2).payload
        2
        (process_in_session memory guest approving_memory unreachable 1 world)
handle_payment_created-consequence_example =
    handle_payment_created-consequence memory guest approving_memory unreachable
      (payment_created payment 2).payload 2 no_publish_fault (omega arith) message 1 world
      event_is_readable readable

routing-declare_topology_example :
    (queues_of (event_message 2 hook end) ≡ new_queue ∷ [])
    × (queues_of (retry_message end 1 (timeout 1) 5) ≡ retry_queue ∷ [])
    × (dead_lettered retry_queue.dead_letter ≡ new_queue ∷ [])
    × (queues_of (dead_message end 1 (timeout 1)) ≡ dlq_queue ∷ [])
    × (dead_lettered new_queue.dead_letter ≡ dlq_queue ∷ [])
    × (dead_lettered dlq_queue.dead_letter ≡ [])
routing-declare_topology_example = routing-declare_topology 2 hook end 1 5 (timeout 1)

no_fault_is_caught : (k : ℕ) (e : Exc) → memory.publish_fault k ≡ some e → is_exception e ≡ true
unfolding memory
no_fault_is_caught k e h = cc

relay_all-IsPass_example :
    IsPass memory tables.outbox empty_world (relay_all memory tables.outbox empty_world)
unfolding outbox_row
relay_all-IsPass_example =
    relay_all-IsPass memory no_fault_is_caught tables.outbox empty_world (refl, tt)

abbrev always : GatewaySettings
always = record nine_of_ten { rate_numerator = 10 }

-- A loop of one attempt.
abbrev once : Retrying
once retry stop base f = f 1

process_use_case-keeps_example :
    IsTables
      (process_use_case memory
        (fake_gateway memory nine_of_ten)
        (webhook_sender memory once settings.webhook)
        1
        world).1.tables
    × Evolves tables
        (process_use_case memory
          (fake_gateway memory nine_of_ten)
          (webhook_sender memory once settings.webhook)
          1
          world).1.tables
unfolding fake_gateway webhook_sender
process_use_case-keeps_example =
    process_use_case-keeps memory (fake_gateway memory nine_of_ten)
      (webhook_sender memory once settings.webhook) 1 world memory-IsLawful
      (fake_charge-IsQuiet memory nine_of_ten)
      (send-IsQuiet memory once settings.webhook (λ f quiet. quiet 1))
      (record { clean = refl; no_payments = refl; no_outbox = refl }) tables-IsTables
