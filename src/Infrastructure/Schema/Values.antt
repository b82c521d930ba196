-- ===== src/Infrastructure/Schema/Values.antt =====
-- The values of the enums against the columns and the CHECKs that hold them.
use secunda_test.Base.{
  ◌≡◌, ◌≤◌, refl, true, some, List, [], ◌∷◌, ◌++◌, if◌then◌else◌, Text, lit, text_eq, length,
  Member, inl, inr, arith,
}
use secunda_test.Domain.Enums.{
  Currency, PaymentStatus, rub, usd, eur, pending, succeeded, failed, status_value, currency_value,
}
use secunda_test.Infrastructure.Schema.{
  ColumnType, enum, Column, Rule, check, Constraint, payments_table, conventional_name, enum_column,
  enum_check,
}
use secunda_test.Infrastructure.Session.{occurs}

-- An enum column takes the value: one of its values, within the length.
abbrev Takes : ColumnType → Text → Type 0
Takes (enum values name (some bound)) value = Member value values × (length value ≤ bound)
Takes _ value = ⊥

abbrev Typed : Text → List Column → (ColumnType → Type 0) → Type 0
Typed name [] P = ⊥
Typed name (c ∷ cs) P =
    let rest = Typed name cs P in if text_eq name c.name then P c.column_type else rest

-- the CHECK with the name lists the quoted value
abbrev Lists : Rule → Text → Type 0
Lists (check condition) value = occurs (lit "'" ++ (value ++ lit "'")) condition ≡ true
Lists _ value = ⊥

abbrev Ruled : Text → List Constraint → (Rule → Type 0) → Type 0
Ruled name [] P = ⊥
Ruled name (c ∷ cs) P = let rest = Ruled name cs P in if text_eq name c.name then P c.rule else rest

-- The column takes the value and the CHECK lists it.
abbrev pub Admitted : Text → Text → Text → Type 0
Admitted column constraint value =
    Typed column payments_table.columns (λ t. Takes t value)
    × Ruled constraint payments_table.constraints (λ r. Lists r value)

currency-Admitted :
    (c : Currency)
    → Admitted (lit "currency") (lit "ck_payments_currency_allowed") (currency_value c)
unfolding lit payments_table conventional_name enum_column enum_check occurs currency_value
currency-Admitted rub = ((inl refl, omega arith), refl)
currency-Admitted usd = ((inr (inl refl), omega arith), refl)
currency-Admitted eur = ((inr (inr (inl refl)), omega arith), refl)

status-Admitted :
    (s : PaymentStatus)
    → Admitted (lit "status") (lit "ck_payments_status_allowed") (status_value s)
unfolding lit payments_table conventional_name enum_column enum_check occurs status_value
status-Admitted pending = ((inl refl, omega arith), refl)
status-Admitted succeeded = ((inr (inl refl), omega arith), refl)
status-Admitted failed = ((inr (inr (inl refl)), omega arith), refl)

-- Every currency and every status is stored as a text that its column lists, that fits the length of
-- the column, and that the CHECK with the conventional name names.
pub enum_column-Admitted :
    (c : Currency) (s : PaymentStatus)
    → Admitted (lit "currency") (lit "ck_payments_currency_allowed") (currency_value c)
      × Admitted (lit "status") (lit "ck_payments_status_allowed") (status_value s)
enum_column-Admitted c s = (currency-Admitted c, status-Admitted s)
