-- ===== src/Lib.antt =====
-- A payment processing service: an HTTP API takes payments and stores each with an event in an
-- outbox; a relay publishes the events to RabbitMQ; a consumer charges the payments through a gateway
-- and notifies the clients by webhooks, with retries and a dead letter queue.
--
-- The files, and what they model:
--   Base, Exec       the shared lemmas on lists, texts and options; exceptions as values (the classes
--                    of app/domain/common/exceptions.py, app/application/common/exceptions.py and
--                    app/application/payment/interfaces.py); coroutines as functions of a state that
--                    return a result and the state after it
--   Py               what the program uses of Python's standard library: text operations, integers
--                    and `int`, `Decimal`, `UUID`, `datetime`, `urlparse`, `quote_plus`, JSON
--                    values and `json.dumps` with sorted keys
--   Domain           app/domain/payment: Values (`Amount`, `IdempotencyKey`, `WebhookUrl`), Enums,
--                    Payment (`Payment.create`, `mark_succeeded`, `mark_failed`, `_transition_to`)
--   Application      app/application: Dto, Interfaces (the ports, over any state), Events, and the use
--                    cases CreatePayment, GetPayment and ProcessPayment
--   Infrastructure   app/infrastructure: Models and Schema (db/models.py, as rows and as the
--                    declarations of columns, constraints and indexes), Mappers (db/mappers.py), Session
--                    (db/uow.py, db/session.py), Repositories (db/repositories), Topology
--                    (broker/topology.py, broker/broker.py), Relay (broker/outbox_relay.py,
--                    broker/publisher.py), Webhook (webhook/sender.py), Gateway
--                    (gateway/fake.py), Config and Settings (config.py); Platform is what stands outside,
--                    Invariant what holds of the tables
--   Service          the use cases over the repositories of one session, as
--                    app/presentation/api/dependencies.py and app/presentation/consumer/main.py wire
--                    them
--   Presentation     app/presentation: Retry and Consumer (consumer/retry.py, consumer/main.py), Api
--                    (api/dependencies.py, api/exception_handlers.py, api/v1), its routes in
--                    Api/Requests; Running is the service as a whole, as a relation of its
--                    events, Wiring builds it with its own gateway and webhook sender from the
--                    settings (consumer/main.py), Accepted follows a request through it, and
--                    Redelivered a message that comes again
--   Migrations       migrations/versions: the operations of the revision; Server is what they rely on
--   Examples         a system in memory, and the theorems at concrete inputs
--
-- The state of a coroutine is a `World`: the committed tables, the session over them (the rows that
-- were added, and the tables as an open UPDATE has left them), how often each outside source was
-- asked, and what was sent. A `System` says what the database, the clock, the random numbers and
-- the broker answer, and what other sessions commit between two statements of this one. What the
-- program relies on of it (a SELECT returns the rows that pass, in its order and within its limit, a flush inserts the rows or names the
-- violated constraint, the other sessions keep the invariant) is the record `IsLawful`; the system
-- in memory of Examples shows that it can hold.
--
-- Texts are lists of code points. Numbers are natural numbers without a bound, as in Python; a UUID
-- is its 128-bit integer. Delays are whole numbers of some unit. The loops are structural: the relay
-- over its batch and over its turns, the retries over the attempts that are left. The printing of a
-- number recurs on the number itself plus one, which is more than it has digits.
--
-- Not modelled: tenacity's loop of attempts (a parameter that the webhook sender gives its predicate,
-- its bound and its base delay, with what tenacity documents as a relation), pydantic and FastAPI (a refused request does not reach the models; the dump that a
-- hash is taken of is a parameter, as is sha256), PostgreSQL and SQLAlchemy (a `System`, a server of
-- schema statements and a dialect), logging, the start and the shutdown of the applications, the
-- wiring of Alembic, the default values of the settings and their reading from the environment, and
-- a rollback that fails. FOR UPDATE SKIP LOCKED is part of the relay's query, but no law of `System`
-- says what other sessions cannot do meanwhile.
pub mod Base
pub mod Exec
pub mod Py
pub mod Domain
pub mod Application
pub mod Infrastructure
pub mod Migrations
pub mod Service
pub mod Presentation
pub mod Examples
