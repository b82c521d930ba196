-- ===== src/Infrastructure/Schema.antt =====
-- app/infrastructure/db/models.py as declarations: the columns, constraints and indexes of the two
-- tables, with the names that the metadata's convention gives them. How PostgreSQL's dialect of
-- SQLAlchemy writes a type or a default is outside.
pub mod Names
pub mod Values
use secunda_test.Base.{
  ℕ, Bool, true, false, Option, none, some, List, [], ◌∷◌, ◌++◌, map, Text, lit,
}
use secunda_test.Py.Strings.{join}
use secunda_test.Domain.Enums.{
  Currency, PaymentStatus, pending, status_value, currency_value, currencies, statuses,
}
use secunda_test.Domain.Values.{idempotency_key_max_length}

-- A type of SQLAlchemy with its arguments. An `enum` that is not native lists the values that it
-- stores, with its name and its length, if one is given.
pub data ColumnType : Type 0 where
  uuid_type native_uuid text_type integer_type jsonb : ColumnType
  numeric : ℕ → ℕ → ColumnType
  string_type : ℕ → ColumnType
  date_time : Bool → ColumnType
  enum : List Text → Text → Option ℕ → ColumnType

-- `server_default`: a str, `text(...)` or `func.now()`.
pub data ServerDefault : Type 0 where
  literal expression : Text → ServerDefault
  func_now : ServerDefault

pub record Column : Type 0 where
  pub name : Text
  pub column_type : ColumnType
  pub nullable : Bool
  pub server_default : Option ServerDefault

pub data Rule : Type 0 where
  primary_key unique check : Text → Rule

pub record Constraint : Type 0 where
  pub name : Text
  pub rule : Rule

-- `condition` is `postgresql_where`.
pub record Index : Type 0 where
  pub name : Text
  pub columns : List Text
  pub unique : Bool
  pub condition : Option Text

pub record Table : Type 0 where
  pub name : Text
  pub columns : List Column
  pub constraints : List Constraint
  pub indexes : List Index

-- The kinds of names in `naming_convention`; a foreign key has the table that it refers to.
pub data Kind : Type 0 where
  ix uq ck pk : Kind
  fk : Text → Kind

-- `naming_convention`, by the table, the first column and the constraint's own name
unfoldable pub conventional_name : Kind → Text → Text → Text → Text
conventional_name ix table column_0 constraint = lit "ix_" ++ (table ++ (lit "_" ++ column_0))
conventional_name uq table column_0 constraint = lit "uq_" ++ (table ++ (lit "_" ++ column_0))
conventional_name ck table column_0 constraint = lit "ck_" ++ (table ++ (lit "_" ++ constraint))
conventional_name (fk referred) table column_0 constraint =
    lit "fk_" ++ (table ++ (lit "_" ++ (column_0 ++ (lit "_" ++ referred))))
conventional_name pk table column_0 constraint = lit "pk_" ++ table

-- `_enum_column(enum_type, name, length)`, by the values of the enum's members
unfoldable pub enum_column : List Text → Text → ℕ → ColumnType
enum_column members name length = enum members name (some length)

-- `_enum_check(column, enum_type, name)` in the table `table`
unfoldable pub enum_check : Text → Text → List Text → Text → Constraint
unfolding conventional_name
enum_check table column members name =
    let values = join (lit ", ") (map (λ member. lit "'" ++ (member ++ lit "'")) members) in
    record {
      name = conventional_name ck table [] name;
      rule = check (column ++ (lit " IN (" ++ (values ++ lit ")")));
    }

abbrev column : Text → ColumnType → Bool → Option ServerDefault → Column
column name column_type nullable default = record {
  name = name;
  column_type = column_type;
  nullable = nullable;
  server_default = default;
}

-- `PaymentModel`, less the default that is filled in by Python
unfoldable pub payments_table : Table
unfolding conventional_name enum_column enum_check
payments_table =
    let name = lit "payments" in
    record {
      name = name;
      columns =
          column (lit "id") uuid_type false none
          ∷ column (lit "amount") (numeric 18 2) false none
          ∷ column (lit "currency") (enum_column (map currency_value currencies) (lit "currency") 3)
              false none
          ∷ column (lit "description") text_type false (some (literal (lit "")))
          ∷ column (lit "metadata") jsonb false (some (literal (lit "{}")))
          ∷ column (lit "status")
              (enum_column (map status_value statuses) (lit "payment_status") 16) false
              (some (literal (status_value pending)))
          ∷ column (lit "idempotency_key") (string_type idempotency_key_max_length) false none
          ∷ column (lit "request_hash") (string_type 64) false none
          ∷ column (lit "webhook_url") text_type false none
          ∷ column (lit "created_at") (date_time true) false (some func_now)
          ∷ column (lit "processed_at") (date_time true) true none
          ∷ [];
      constraints =
          record { name = conventional_name pk name (lit "id") []; rule = primary_key (lit "id") }
          ∷ record {
            name = conventional_name uq name (lit "idempotency_key") [];
            rule = unique (lit "idempotency_key");
          }
          ∷ enum_check name (lit "currency") (map currency_value currencies)
              (lit "currency_allowed")
          ∷ enum_check name (lit "status") (map status_value statuses) (lit "status_allowed")
          ∷ record {
            name = conventional_name ck name [] (lit "amount_non_negative");
            rule = check (lit "amount >= 0");
          }
          ∷ record {
            name = conventional_name ck name [] (lit "processed_at_matches_status");
            rule = check (lit "(status = 'pending') = (processed_at IS NULL)");
          }
          ∷ [];
      indexes =
          record {
            name = conventional_name ix name (lit "status") [];
            columns = lit "status" ∷ [];
            unique = false;
            condition = none;
          }
          ∷ [];
    }

-- `OutboxMessageModel`
unfoldable pub outbox_table : Table
unfolding conventional_name
outbox_table =
    let name = lit "outbox" in
    record {
      name = name;
      columns =
          column (lit "id") uuid_type false none
          ∷ column (lit "aggregate_id") uuid_type false none
          ∷ column (lit "event_type") (string_type 64) false none
          ∷ column (lit "payload") jsonb false none
          ∷ column (lit "created_at") (date_time true) false (some func_now)
          ∷ column (lit "published_at") (date_time true) true none
          ∷ column (lit "attempts") integer_type false (some (literal (lit "0")))
          ∷ column (lit "last_error") text_type true none
          ∷ [];
      constraints =
          record { name = conventional_name pk name (lit "id") []; rule = primary_key (lit "id") }
          ∷ [];
      indexes =
          record {
            name = lit "ix_outbox_unpublished";
            columns = lit "created_at" ∷ [];
            unique = false;
            condition = some (lit "published_at IS NULL");
          }
          ∷ [];
    }
