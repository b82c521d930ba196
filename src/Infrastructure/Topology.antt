-- ===== src/Infrastructure/Topology.antt =====
-- app/infrastructure/broker/topology.py and declare_topology of app/infrastructure/broker/broker.py
use secunda_test.Base.{ℕ, ◌*◌, Bool, true, Option, none, some, List, [], ◌∷◌, Text, lit}

unfoldable pub payments_exchange_name : Text
payments_exchange_name = lit "payments"

unfoldable pub dlx_exchange_name : Text
dlx_exchange_name = lit "payments.dlx"

unfoldable pub new_routing_key : Text
new_routing_key = lit "payment.new"

unfoldable pub retry_routing_key : Text
retry_routing_key = lit "payment.retry"

unfoldable pub dead_routing_key : Text
dead_routing_key = lit "payment.dead"

pub data ExchangeType : Type 0 where
  direct : ExchangeType

pub record RabbitExchange : Type 0 where
  pub name : Text
  pub type : ExchangeType
  pub durable : Bool

-- `arguments`: where a rejected or expired message goes, and the queue's time to live.
pub record DeadLetter : Type 0 where
  pub exchange : Text
  pub routing_key : Text

pub record RabbitQueue : Type 0 where
  pub name : Text
  pub durable : Bool
  pub routing_key : Text
  pub message_ttl : Option ℕ
  pub dead_letter : Option DeadLetter

unfoldable pub payments_exchange : RabbitExchange
payments_exchange = record { name = payments_exchange_name; type = direct; durable = true }

unfoldable pub dlx_exchange : RabbitExchange
dlx_exchange = record { name = dlx_exchange_name; type = direct; durable = true }

abbrev pub retry_queue_ttl_ms : ℕ
retry_queue_ttl_ms = 24 * 60 * 60 * 1000

unfoldable pub new_queue : RabbitQueue
new_queue = record {
  name = lit "payments.new";
  durable = true;
  routing_key = new_routing_key;
  message_ttl = none;
  dead_letter = some (record { exchange = dlx_exchange_name; routing_key = dead_routing_key });
}

unfoldable pub dlq_queue : RabbitQueue
dlq_queue = record {
  name = lit "payments.dlq";
  durable = true;
  routing_key = dead_routing_key;
  message_ttl = none;
  dead_letter = none;
}

unfoldable pub retry_queue : RabbitQueue
retry_queue = record {
  name = lit "payments.retry";
  durable = true;
  routing_key = retry_routing_key;
  message_ttl = some retry_queue_ttl_ms;
  dead_letter = some (record { exchange = payments_exchange_name; routing_key = new_routing_key });
}

pub record Binding : Type 0 where
  pub queue : RabbitQueue
  pub exchange : RabbitExchange
  pub routing_key : Text

pub record Topology : Type 0 where
  pub exchanges : List RabbitExchange
  pub queues : List RabbitQueue
  pub bindings : List Binding

-- What `declare_topology(broker)` declares, in its order.
unfoldable pub declare_topology : Topology
declare_topology = record {
  exchanges = payments_exchange ∷ dlx_exchange ∷ [];
  queues = new_queue ∷ retry_queue ∷ dlq_queue ∷ [];
  bindings =
      record { queue = new_queue; exchange = payments_exchange; routing_key = new_routing_key }
      ∷ record { queue = retry_queue; exchange = dlx_exchange; routing_key = retry_routing_key }
      ∷ record { queue = dlq_queue; exchange = dlx_exchange; routing_key = dead_routing_key }
      ∷ [];
}
