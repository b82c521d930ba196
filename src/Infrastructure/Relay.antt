-- ===== src/Infrastructure/Relay.antt =====
-- app/infrastructure/broker/publisher.py and app/infrastructure/broker/outbox_relay.py. The polling
-- interval is a whole number of some unit.
pub mod Batch
use secunda_test.Base.{
  ℕ, zero, suc, ◌+◌, Bool, true, false, none, some, List, [], ◌∷◌, if◌then◌else◌, ◌==◌, Text, lit,
  take, Exc, is_exception, message_of, Result, ok, err,
}
use secunda_test.Exec.{Exec, pure, raise, catch, ◌>>=◌, ◌>>◌}
use secunda_test.Py.Uuid.{Uuid, show_uuid}
use secunda_test.Py.Datetime.{in_utc}
use secunda_test.Py.Json.{Fields}
use secunda_test.Infrastructure.Models.{OutboxMessageModel, Tables, is_none}
use secunda_test.Infrastructure.Topology.{payments_exchange, new_routing_key}
use secunda_test.Infrastructure.Platform.{
  System, World, Publication, OutboxQuery, text, publish, utc_now, sleep,
}
use secunda_test.Infrastructure.Session.{seen, statement}

unfoldable pub event_type_header : Text
event_type_header = lit "x-event-type"

-- What `RabbitEventPublisher.publish(message_id, event_type, payload)` publishes.
unfoldable pub event_message : Uuid → Text → Fields → Publication
event_message message_id event_type payload = record {
  payload = payload;
  exchange = payments_exchange.name;
  routing_key = new_routing_key;
  headers = (event_type_header, text event_type) ∷ [];
  expiration = none;
  message_id = some (show_uuid message_id);
  persist = true;
}

pub record OutboxSettings : Type 0 where
  pub batch_size : ℕ
  pub poll_interval : ℕ

abbrev pub max_error_length : ℕ
max_error_length = 500

-- `select(OutboxMessageModel).where(...).order_by(...).limit(...).with_for_update(...)`
unfoldable pub outbox_query : OutboxSettings → OutboxQuery
outbox_query settings = record {
  condition = λ m. is_none m.published_at;
  order_by = λ m. m.created_at;
  limit = settings.batch_size;
  skip_locked = true;
}

module _ (sys : System) where
  unfoldable pub publish_event : Uuid → Text → Fields → Exec World (Unit {0})
  publish_event message_id event_type payload =
      publish sys (event_message message_id event_type payload)

  -- `except Exception`: the message as the attempt leaves it.
  unfoldable pub on_publish_error :
      OutboxMessageModel → Exc → Exec World (Bool × OutboxMessageModel)
  on_publish_error m e =
      if is_exception e
      then pure (
        false,
        record m {
          attempts = m.attempts + 1;
          last_error = some (take max_error_length (message_of e));
        },
      )
      else raise e

  unfoldable pub mark_published : OutboxMessageModel → Exec World (Bool × OutboxMessageModel)
  mark_published m = do
    now ← utc_now sys
    pure (true, record m { published_at = some (in_utc now) })

  -- The body of the loop: whether the message was published, and its row.
  unfoldable pub relay_one : OutboxMessageModel → Exec World (Bool × OutboxMessageModel)
  unfolding on_publish_error mark_published
  relay_one m =
      catch (do publish_event m.id m.event_type m.payload; mark_published m) (on_publish_error m)

  -- The loop: how many were published, and the rows.
  unfoldable pub relay_all : List OutboxMessageModel → Exec World (ℕ × List OutboxMessageModel)
  relay_all [] = pure (0, [])
  relay_all (m ∷ ms) = do
    (sent, m') ← relay_one m
    (count, ms') ← relay_all ms
    pure ((if sent then count + 1 else count), m' ∷ ms')

  -- `_lock_unpublished(session)`
  unfoldable pub lock_unpublished : OutboxSettings → Exec World (List OutboxMessageModel)
  lock_unpublished settings = do
    statement sys
    λ w. (ok (sys.select_outbox (outbox_query settings) (seen w)), w)

  -- The end of `session.begin()`: the changed rows are written and committed.
  unfoldable pub written : Result Tables → Exec World (Unit {0})
  written (ok t) w = (ok tt, record w { tables = t })
  written (err e) w = (err e, w)

  unfoldable pub write_rows : List OutboxMessageModel → Exec World (Unit {0})
  unfolding written
  write_rows rows = do statement sys; λ w. written (sys.write_outbox rows (seen w)) w

  -- `publish_batch()`
  unfoldable pub publish_batch : OutboxSettings → Exec World ℕ
  publish_batch settings = do
    messages ← lock_unpublished settings
    (published, rows) ← relay_all messages
    write_rows rows
    pure published

  unfoldable pub pause : OutboxSettings → ℕ → Exec World (Unit {0})
  pause settings published = if published == 0 then sleep settings.poll_interval else pure tt

  -- One turn of `run()`.
  unfoldable pub run_once : OutboxSettings → Exec World (Unit {0})
  unfolding pause
  run_once settings = do
    published ← catch (publish_batch settings) (λ e. if is_exception e then pure 0 else raise e)
    pause settings published

  -- The first turns of `run()`, whose loop has no end of its own.
  unfoldable pub run : OutboxSettings → ℕ → Exec World (Unit {0})
  run settings zero = pure tt
  run settings (suc turns) = do run_once settings; run settings turns
