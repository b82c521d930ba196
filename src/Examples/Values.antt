-- ===== src/Examples/Values.antt =====
-- The value objects and the key check at concrete inputs.
use secunda_test.Base.{◌≡◌, ◌↔◌, false, some, any, leb, ok, drop, ◌++◌, ◌∷◌}
use secunda_test.Py.Json.{decimal, string}
use secunda_test.Py.Url.{ParseResult, urlparse}
use secunda_test.Domain.Values.{make_amount, make_idempotency_key, make_webhook_url}
use secunda_test.Domain.Values.Checks.{
  IsAmount, IsIdempotencyKey, IsWebhook, make_amount_iff, make_idempotency_key_iff,
  make_webhook_url_iff,
}
use secunda_test.Presentation.Api.{require_api_key}
use secunda_test.Presentation.Api.Checks.{require_api_key_iff}
use secunda_test.Examples.Data.{ten_fifty, key_one, hook}
use secunda_test.Infrastructure.Config.{postgres_dsn, rabbit_dsn}
use secunda_test.Examples.Configured.{local, guest}
use secunda_test.Infrastructure.Config.Dsn.{credentials, credentials-dsn}
use secunda_test.Py.Quote.{quote_plus}

make_amount_iff_example :
    (make_amount (decimal ten_fifty) ≡ ok (record { value = ten_fifty }))
    ↔ ((decimal ten_fifty ≡ decimal ten_fifty) × IsAmount ten_fifty)
make_amount_iff_example = make_amount_iff (decimal ten_fifty) (record { value = ten_fifty })

make_idempotency_key_iff_example :
    (make_idempotency_key (string key_one) ≡ ok (record { value = key_one }))
    ↔ ((string key_one ≡ string key_one) × IsIdempotencyKey key_one)
make_idempotency_key_iff_example =
    make_idempotency_key_iff (string key_one) (record { value = key_one })

make_webhook_url_iff_example : (make_webhook_url (string hook) ≡ ok (record { value = hook })) ↔ (
    (string hook ≡ string hook)
    × ((parsed : ParseResult) × (urlparse hook ≡ ok parsed) × IsWebhook parsed))
make_webhook_url_iff_example = make_webhook_url_iff (string hook) (record { value = hook })

require_api_key_iff_example :
    (require_api_key key_one (some hook) ≡ ok tt)
    ↔ ((some hook ≡ some key_one) × (any (leb 128) key_one ≡ false))
require_api_key_iff_example = require_api_key_iff key_one (some hook)

credentials-dsn_example :
    (credentials (drop 21 (postgres_dsn local))
      ≡ (quote_plus local.user ++ b':' ∷ quote_plus local.password, quote_plus local.user))
    × (credentials (drop 7 (rabbit_dsn guest))
        ≡ (quote_plus guest.user ++ b':' ∷ quote_plus guest.password, quote_plus guest.user))
credentials-dsn_example = credentials-dsn local guest
