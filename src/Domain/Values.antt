-- ===== src/Domain/Values.antt =====
-- app/domain/payment/values.py: the value objects, each built by a constructor that may raise.
pub mod Checks
use secunda_test.Base.{
  ℕ, Bool, not, ◌||◌, [], ◌∷◌, ◌++◌, ltb, if◌then◌else◌, Text, lit, text_eq, length, Result, ok,
  err, raise_if, domain_error,
}
use secunda_test.Base.Errors.{◌>>=◌, ◌>>◌}
use secunda_test.Py.Strings.{is_space, is_empty, strip}
use secunda_test.Py.Numbers.{show_nat}
use secunda_test.Py.Decimal.{Decimal, is_finite, is_negative, decimal_places, show_decimal}
use secunda_test.Py.Url.{ParseResult, urlparse}
use secunda_test.Py.Json.{PyValue, decimal, string, type_name}

abbrev pub idempotency_key_max_length : ℕ
idempotency_key_max_length = 255

pub record Amount : Type 0 where
  pub value : Decimal

pub record IdempotencyKey : Type 0 where
  pub value : Text

pub record WebhookUrl : Type 0 where
  pub value : Text

-- `Amount(value)`
unfoldable pub make_amount : PyValue → Result Amount
make_amount (decimal d) = do
  raise_if (not (is_finite d))
      (domain_error (lit "Сумма платежа должна быть конечным числом, передано " ++ show_decimal d))
  raise_if (is_negative d)
      (domain_error (lit "Сумма платежа не может быть меньше 0, передано " ++ show_decimal d))
  raise_if (ltb 2 (decimal_places d)) (
      domain_error (
        lit "Сумма платежа не может быть точнее 2 знаков после запятой, передано "
        ++ show_nat (decimal_places d)))
  ok (record { value = d })
make_amount v =
    err (domain_error (lit "Сумма платежа должна быть Decimal, передано " ++ type_name v))

-- `IdempotencyKey(value)`
unfoldable pub make_idempotency_key : PyValue → Result IdempotencyKey
make_idempotency_key (string s) = do
  raise_if (is_empty (strip is_space s))
      (domain_error (lit "Ключ идемпотентности не может быть пустым"))
  raise_if (ltb idempotency_key_max_length (length s)) (
      domain_error (
        lit "Ключ идемпотентности не может быть длиннее "
        ++ (show_nat idempotency_key_max_length
            ++ (lit " символов, передано " ++ show_nat (length s)))))
  ok (record { value = s })
make_idempotency_key v =
    err (domain_error (lit "Ключ идемпотентности должен быть строкой, передано " ++ type_name v))

-- `parsed.scheme in _ALLOWED_WEBHOOK_SCHEMES`
unfoldable pub is_allowed_scheme : Text → Bool
is_allowed_scheme s = text_eq s (lit "http") || text_eq s (lit "https")

-- `parsed.scheme or "без схемы"`
scheme_or_none : Text → Text
scheme_or_none s = if is_empty s then lit "без схемы" else s

unfoldable pub check_parsed : Text → ParseResult → Result WebhookUrl
unfolding scheme_or_none
check_parsed s parsed = do
  raise_if (not (is_allowed_scheme parsed.scheme)) (
      domain_error (
        lit "Webhook URL должен использовать схему http или https, передано "
        ++ scheme_or_none parsed.scheme))
  raise_if (is_empty parsed.netloc)
      (domain_error (lit "Webhook URL должен содержать хост, передано " ++ s))
  ok (record { value = s })

-- `WebhookUrl(value)`
unfoldable pub make_webhook_url : PyValue → Result WebhookUrl
unfolding check_parsed
make_webhook_url (string s) = do parsed ← urlparse s; check_parsed s parsed
make_webhook_url v =
    err (domain_error (lit "Webhook URL должен быть строкой, передано " ++ type_name v))
