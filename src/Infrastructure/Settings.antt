-- ===== src/Infrastructure/Settings.antt =====
-- app/infrastructure/config.py: the settings as a whole. The reading of the environment is outside.
use secunda_test.Base.{ℕ, Text}
use secunda_test.Py.Numbers.{ℤ}
use secunda_test.Infrastructure.Config.{PostgresSettings, RabbitSettings}
use secunda_test.Infrastructure.Gateway.{GatewaySettings}
use secunda_test.Infrastructure.Relay.{OutboxSettings}

-- `retry_base_delay` is the multiplier of the exponential wait.
pub record WebhookSettings : Type 0 where
  pub timeout : ℕ
  pub max_attempts : ℕ
  pub retry_base_delay : ℕ

pub record ApiSettings : Type 0 where
  pub title : Text
  pub host : Text
  pub port : ℤ
  pub key : Text

pub record Settings : Type 0 where
  pub log_level : Text
  pub api : ApiSettings
  pub postgres : PostgresSettings
  pub rabbitmq : RabbitSettings
  pub outbox : OutboxSettings
  pub webhook : WebhookSettings
  pub gateway : GatewaySettings
