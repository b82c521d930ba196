-- ===== src/Infrastructure/Config.antt =====
-- app/infrastructure/config.py: the settings of PostgreSQL and RabbitMQ, with their connection
-- strings. The delay before a retry is a whole number of some unit.
pub mod Dsn
use secunda_test.Base.{ℕ, Bool, [], ◌∷◌, ◌++◌, Text, lit}
use secunda_test.Py.Numbers.{ℤ, show_int}
use secunda_test.Py.Quote.{quote_plus}

pub record PostgresSettings : Type 0 where
  pub host : Text
  pub port : ℤ
  pub user : Text
  pub password : Text
  pub db : Text
  pub pool_size : ℤ
  pub max_overflow : ℤ
  pub echo : Bool

pub record RabbitSettings : Type 0 where
  pub host : Text
  pub port : ℤ
  pub user : Text
  pub password : Text
  pub vhost : Text
  pub max_delivery_attempts : ℕ
  pub retry_base_delay : ℕ

-- `f"{user}:{password}@{self.host}:{self.port}/..."`, the last part being `path`.
unfoldable pub authority : Text → Text → Text → ℤ → Text → Text
authority user password host port path =
    (user ++ b':' ∷ password) ++ b'@' ∷ (host ++ b':' ∷ (show_int port ++ b'/' ∷ path))

-- `PostgresSettings.dsn`
unfoldable pub postgres_dsn : PostgresSettings → Text
postgres_dsn s =
    lit "postgresql+asyncpg://"
    ++ authority (quote_plus s.user) (quote_plus s.password) s.host s.port s.db

-- `RabbitSettings.dsn`
unfoldable pub rabbit_dsn : RabbitSettings → Text
rabbit_dsn s =
    lit "amqp://"
    ++ authority (quote_plus s.user) (quote_plus s.password) s.host s.port (quote_plus s.vhost)
