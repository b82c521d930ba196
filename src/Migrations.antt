-- ===== src/Migrations.antt =====
-- migrations/versions/80068693f584_payments_and_outbox_tables.py: the operations that
-- the first revision sends. The server that executes them is outside.
pub mod Server
pub mod Schemas
pub mod Upgrade
pub mod Downgrade
pub mod Agreement
use secunda_test.Base.{true, false, none, some, List, [], ◌∷◌, Text, lit, Exc, Result, ok, err}
use secunda_test.Base.Errors.{◌>>=◌}
use secunda_test.Infrastructure.Schema.{
  ColumnType, uuid_type, native_uuid, text_type, integer_type, jsonb, numeric, string_type,
  date_time, enum, ServerDefault, literal, expression, Column, Rule, primary_key, unique, check,
  Constraint, Index, Table,
}

-- The operations of Alembic, with the name of the table that an index is of. A created table has no
-- index yet.
pub data Operation : Type 0 where
  create_table : Table → Operation
  create_index : Text → Index → Operation
  drop_index : Text → Text → Operation
  drop_table : Text → Operation

module _ (name : Text) (column_type : ColumnType) where
  abbrev not_null : Column
  not_null = record {
    name = name;
    column_type = column_type;
    nullable = false;
    server_default = none;
  }

  abbrev nullable : Column
  nullable = record {
    name = name;
    column_type = column_type;
    nullable = true;
    server_default = none;
  }

  abbrev defaulted : ServerDefault → Column
  defaulted default = record {
    name = name;
    column_type = column_type;
    nullable = false;
    server_default = some default;
  }

abbrev constraint : Text → Rule → Constraint
constraint name rule = record { name = name; rule = rule }

-- `op.create_table("outbox", ...)`
unfoldable pub create_outbox : Table
create_outbox = record {
  name = lit "outbox";
  columns =
      not_null (lit "id") native_uuid
      ∷ not_null (lit "aggregate_id") native_uuid
      ∷ not_null (lit "event_type") (string_type 64)
      ∷ not_null (lit "payload") jsonb
      ∷ defaulted (lit "created_at") (date_time true) (expression (lit "now()"))
      ∷ nullable (lit "published_at") (date_time true)
      ∷ defaulted (lit "attempts") integer_type (literal (lit "0"))
      ∷ nullable (lit "last_error") text_type
      ∷ [];
  constraints = constraint (lit "pk_outbox") (primary_key (lit "id")) ∷ [];
  indexes = [];
}

-- `op.create_index("ix_outbox_unpublished", ...)`
unfoldable pub outbox_index : Index
outbox_index = record {
  name = lit "ix_outbox_unpublished";
  columns = lit "created_at" ∷ [];
  unique = false;
  condition = some (lit "published_at IS NULL");
}

abbrev pub migrated_currencies : List Text
migrated_currencies = lit "RUB" ∷ lit "USD" ∷ lit "EUR" ∷ []

abbrev pub migrated_statuses : List Text
migrated_statuses = lit "pending" ∷ lit "succeeded" ∷ lit "failed" ∷ []

-- `op.create_table("payments", ...)`
unfoldable pub create_payments : Table
create_payments = record {
  name = lit "payments";
  columns =
      not_null (lit "id") native_uuid
      ∷ not_null (lit "amount") (numeric 18 2)
      ∷ not_null (lit "currency") (enum migrated_currencies (lit "currency") none)
      ∷ defaulted (lit "description") text_type (literal (lit ""))
      ∷ defaulted (lit "metadata") jsonb (literal (lit "{}"))
      ∷ defaulted (lit "status") (enum migrated_statuses (lit "payment_status") (some 16))
          (literal (lit "pending"))
      ∷ not_null (lit "idempotency_key") (string_type 255)
      ∷ not_null (lit "request_hash") (string_type 64)
      ∷ not_null (lit "webhook_url") text_type
      ∷ defaulted (lit "created_at") (date_time true) (expression (lit "now()"))
      ∷ nullable (lit "processed_at") (date_time true)
      ∷ [];
  constraints =
      constraint (lit "ck_payments_processed_at_matches_status")
        (check (lit "(status = 'pending') = (processed_at IS NULL)"))
      ∷ constraint (lit "ck_payments_currency_allowed")
          (check (lit "currency IN ('RUB', 'USD', 'EUR')"))
      ∷ constraint (lit "ck_payments_status_allowed")
          (check (lit "status IN ('pending', 'succeeded', 'failed')"))
      ∷ constraint (lit "ck_payments_amount_non_negative") (check (lit "amount >= 0"))
      ∷ constraint (lit "pk_payments") (primary_key (lit "id"))
      ∷ constraint (lit "uq_payments_idempotency_key") (unique (lit "idempotency_key"))
      ∷ [];
  indexes = [];
}

-- `op.create_index(op.f("ix_payments_status"), ...)`
unfoldable pub payments_index : Index
payments_index = record {
  name = lit "ix_payments_status";
  columns = lit "status" ∷ [];
  unique = false;
  condition = none;
}

-- `execute` is the server, on the tables of its schema.
module _ (execute : Operation → List Table → Result (List Table)) where
  unfoldable pub upgrade : List Table → Result (List Table)
  upgrade schema = do
    with_outbox ← execute (create_table create_outbox) schema
    indexed ← execute (create_index (lit "outbox") outbox_index) with_outbox
    with_payments ← execute (create_table create_payments) indexed
    execute (create_index (lit "payments") payments_index) with_payments

  unfoldable pub downgrade : List Table → Result (List Table)
  downgrade schema = do
    unindexed ← execute (drop_index (lit "payments") (lit "ix_payments_status")) schema
    without_payments ← execute (drop_table (lit "payments")) unindexed
    bare ← execute (drop_index (lit "outbox") (lit "ix_outbox_unpublished")) without_payments
    execute (drop_table (lit "outbox")) bare
