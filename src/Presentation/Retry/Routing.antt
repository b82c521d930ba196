-- ===== src/Presentation/Retry/Routing.antt =====
-- app/infrastructure/broker/topology.py, publisher.py and app/presentation/consumer/retry.py: which
-- queues the messages of the service are bound for. A direct exchange takes a message to the queues
-- that are bound to it with the message's routing key.
use secunda_test.Base.{
  ℕ, ◌≡◌, refl, ◌&&◌, Option, none, some, List, [], ◌∷◌, if◌then◌else◌, Text, text_eq, Exc, lit, ok,
}
use secunda_test.Py.Uuid.{Uuid}
use secunda_test.Py.Json.{Fields}
use secunda_test.Infrastructure.Topology.{
  RabbitQueue, Binding, DeadLetter, declare_topology, new_queue, retry_queue, dlq_queue,
  payments_exchange, dlx_exchange, payments_exchange_name, dlx_exchange_name, new_routing_key,
  retry_routing_key, dead_routing_key,
}
use secunda_test.Infrastructure.Platform.{Publication}
use secunda_test.Infrastructure.Relay.{event_message, event_type_header}
use secunda_test.Presentation.Retry.{
  retry_message, dead_message, attempt_of, attempt_of_value, header_or, at_least_one,
  attempt_header,
}

abbrev pub bound_queues : Text → Text → List Binding → List RabbitQueue
bound_queues exchange key [] = []
bound_queues exchange key (b ∷ bs) =
    let rest = bound_queues exchange key bs in
    if text_eq b.exchange.name exchange && text_eq b.routing_key key then b.queue ∷ rest else rest

abbrev pub queues_of : Publication → List RabbitQueue
queues_of m = bound_queues m.exchange m.routing_key declare_topology.bindings

-- Where the messages that a queue expires or rejects are bound for.
abbrev pub dead_lettered : Option DeadLetter → List RabbitQueue
dead_lettered none = []
dead_lettered (some d) = bound_queues d.exchange d.routing_key declare_topology.bindings

-- With the declared topology, an event goes to payments.new only, a retry to payments.retry only,
-- from which it expires to payments.new only; a message that is given up, and one that the consumer
-- of payments.new rejects, goes to payments.dlq only, which passes nothing on.
pub routing-declare_topology :
    (id : Uuid) (type : Text) (payload : Fields) (attempt delay : ℕ) (e : Exc)
    → (queues_of (event_message id type payload) ≡ new_queue ∷ [])
      × (queues_of (retry_message payload attempt e delay) ≡ retry_queue ∷ [])
      × (dead_lettered retry_queue.dead_letter ≡ new_queue ∷ [])
      × (queues_of (dead_message payload attempt e) ≡ dlq_queue ∷ [])
      × (dead_lettered new_queue.dead_letter ≡ dlq_queue ∷ [])
      × (dead_lettered dlq_queue.dead_letter ≡ [])
unfolding declare_topology event_message retry_message dead_message new_queue retry_queue dlq_queue
    payments_exchange dlx_exchange payments_exchange_name dlx_exchange_name new_routing_key
    retry_routing_key dead_routing_key lit
routing-declare_topology id type payload attempt delay e = (refl, refl, refl, refl, refl, refl)

-- The first delivery of an event counts as attempt one: its headers carry no attempt.
pub attempt_of-event_message :
    (id : Uuid) (type : Text) (payload : Fields)
    → attempt_of (event_message id type payload).headers ≡ ok 1
unfolding attempt_of attempt_of_value header_or at_least_one event_message event_type_header
    attempt_header lit
attempt_of-event_message id type payload = refl
