-- ===== src/Examples/Configured.antt =====
-- Settings of the service, with the defaults of app/infrastructure/config.py but for a password.
use secunda_test.Base.{false, lit}
use secunda_test.Py.Numbers.{pos}
use secunda_test.Infrastructure.Config.{PostgresSettings, RabbitSettings}
use secunda_test.Infrastructure.Gateway.{GatewaySettings}
use secunda_test.Infrastructure.Relay.{OutboxSettings}
use secunda_test.Infrastructure.Settings.{Settings}

abbrev pub local : PostgresSettings
local = record {
  host = lit "localhost";
  port = pos 5432;
  user = lit "payments";
  password = lit "p@ss:word";
  db = lit "payments";
  pool_size = pos 10;
  max_overflow = pos 5;
  echo = false;
}

abbrev pub guest : RabbitSettings
guest = record {
  host = lit "localhost";
  port = pos 5672;
  user = lit "guest";
  password = lit "guest";
  vhost = lit "/";
  max_delivery_attempts = 3;
  retry_base_delay = 5;
}

abbrev pub batches : OutboxSettings
batches = record { batch_size = 100; poll_interval = 1 }

abbrev pub nine_of_ten : GatewaySettings
nine_of_ten = record { min_delay = 2; max_delay = 5; rate_numerator = 9; rate_denominator = 10 }

abbrev pub settings : Settings
settings = record {
  log_level = lit "INFO";
  api = record {
    title = lit "Payments processing service";
    host = lit "0.0.0.0";
    port = pos 8000;
    key = lit "change-me";
  };
  postgres = local;
  rabbitmq = guest;
  outbox = batches;
  webhook = record { timeout = 10; max_attempts = 3; retry_base_delay = 1 };
  gateway = nine_of_ten;
}
