-- ===== src/Domain/Enums.antt =====
-- app/domain/payment/enums.py
use secunda_test.Base.{Bool, true, false, Text, lit, not, List, [], ◌∷◌}

pub data Currency : Type 0 where
  rub usd eur : Currency

pub data PaymentStatus : Type 0 where
  pending succeeded failed : PaymentStatus

-- `status.value`, which is `str(status)` too
unfoldable pub status_value : PaymentStatus → Text
status_value pending = lit "pending"
status_value succeeded = lit "succeeded"
status_value failed = lit "failed"

unfoldable pub currency_value : Currency → Text
currency_value rub = lit "RUB"
currency_value usd = lit "USD"
currency_value eur = lit "EUR"

-- `status is PaymentStatus.PENDING`
abbrev pub is_pending : PaymentStatus → Bool
is_pending pending = true
is_pending _ = false

unfoldable pub is_final : PaymentStatus → Bool
is_final s = not (is_pending s)

-- The members in the order of the class, as iteration gives them.
abbrev pub currencies : List Currency
currencies = rub ∷ usd ∷ eur ∷ []

abbrev pub statuses : List PaymentStatus
statuses = pending ∷ succeeded ∷ failed ∷ []
