-- ===== src/Infrastructure/Platform.antt =====
-- What stands outside the service: PostgreSQL behind SQLAlchemy, Python's clock and random numbers,
-- httpx, RabbitMQ, and the other processes that use the same database. `System` is what they do.
pub mod Laws
pub mod Insert
use secunda_test.Base.{
  ℕ, ◌+◌, Bool, Option, none, some, List, [], ◌∷◌, ◌++◌, Text, Exc, Result, ok, err,
}
use secunda_test.Exec.{Exec}
use secunda_test.Py.Numbers.{ℤ}
use secunda_test.Py.Uuid.{Uuid}
use secunda_test.Py.Datetime.{Instant}
use secunda_test.Py.Json.{Fields}
use secunda_test.Application.Interfaces.{Interpreter}
use secunda_test.Infrastructure.Models.{PaymentModel, OutboxMessageModel, Tables}

-- A value of an AMQP header. A float that is finite is known by its integer part, and a value that
-- is no number by its class.
pub data HeaderValue : Type 0 where
  number : ℤ → HeaderValue
  text : Text → HeaderValue
  real : ℤ → HeaderValue
  real_nan real_infinity : HeaderValue
  object : Text → HeaderValue

-- A call of `broker.publish(...)`. The expiration is in the unit of the settings' delays.
pub record Publication : Type 0 where
  pub payload : Fields
  pub exchange : Text
  pub routing_key : Text
  pub headers : List (Text × HeaderValue)
  pub expiration : Option ℕ
  pub message_id : Option Text
  pub persist : Bool

-- A POST of a webhook.
pub record Post : Type 0 where
  pub url : Text
  pub payload : Fields
  pub attempt : ℕ
  pub timeout : ℕ

-- A SELECT of rows of the outbox: its WHERE, ORDER BY, LIMIT and FOR UPDATE SKIP LOCKED.
pub record OutboxQuery : Type 0 where
  pub condition : OutboxMessageModel → Bool
  pub order_by : OutboxMessageModel → ℕ
  pub limit : ℕ
  pub skip_locked : Bool

-- The functions of a number answer the call with that number. `others` is what other sessions commit
-- before a statement of this one. A `some` of `statement_fault` and `publish_fault` is the exception
-- that is raised instead of an answer. A POST is answered with a status code or raises, and
-- `raise_for_status` is what httpx raises for a code. `storable` and `store` are how the server's column types take a row.
pub record System : Type 0 where
  pub select_payments : (PaymentModel → Bool) → Tables → List PaymentModel
  pub update_payments :
      (PaymentModel → Bool) → (PaymentModel → PaymentModel) → Tables → Result (Tables × ℕ)
  pub select_outbox : OutboxQuery → Tables → List OutboxMessageModel
  pub write_outbox : List OutboxMessageModel → Tables → Result Tables
  pub flush : List PaymentModel → List OutboxMessageModel → Tables → Result Tables
  pub storable : PaymentModel → Bool
  pub store : PaymentModel → PaymentModel
  pub others : ℕ → Tables → Tables
  pub statement_fault : ℕ → Option Exc
  pub uuids : ℕ → Uuid
  pub clock : ℕ → Instant
  pub random : ℕ → ℕ
  pub post_answer : ℕ → Result ℕ
  pub raise_for_status : ℕ → Option Exc
  pub publish_fault : ℕ → Option Exc

-- The state that a coroutine of the service works on: the committed tables, the session (the rows
-- added to it, and the tables as its uncommitted UPDATE has left them), how often each source of the
-- system has been asked, and what has gone out.
pub record World : Type 0 where
  pub tables : Tables
  pub dirty : Option Tables
  pub new_payments : List PaymentModel
  pub new_outbox : List OutboxMessageModel
  pub statements : ℕ
  pub uuids_drawn : ℕ
  pub clock_reads : ℕ
  pub randoms : ℕ
  pub charges : List Uuid
  pub posts : List Post
  pub sleeps : List ℕ
  pub published : List Publication
  pub publishes : ℕ

-- `asyncio.sleep(delay)`
unfoldable pub sleep : ℕ → Exec World (Unit {0})
sleep delay w = (ok tt, record w { sleeps = w.sleeps ++ delay ∷ [] })

module _ (sys : System) where
  -- `broker.publish(...)`
  unfoldable pub publish : Publication → Exec World (Unit {0})
  publish m w = elim (sys.publish_fault w.publishes) [
    | none ↦ (ok tt, record w { published = w.published ++ m ∷ []; publishes = w.publishes + 1 })
    | some e ↦ (err e, record w { publishes = w.publishes + 1 })
  ]

  unfoldable pub uuid4 : Exec World Uuid
  uuid4 w = (ok (sys.uuids w.uuids_drawn), record w { uuids_drawn = w.uuids_drawn + 1 })

  unfoldable pub utc_now : Exec World Instant
  utc_now w = (ok (sys.clock w.clock_reads), record w { clock_reads = w.clock_reads + 1 })

  unfoldable pub interpreter : Interpreter World
  unfolding uuid4 utc_now
  interpreter = record { uuid4 = uuid4; now = utc_now }
