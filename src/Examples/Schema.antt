-- ===== src/Examples/Schema.antt =====
-- The migration on a server in memory, and the declared constraints.
use secunda_test.Base.{
  ◌≡◌, refl, true, none, some, List, [], ◌∷◌, ◌++◌, map, if◌then◌else◌, lit, text_eq, other_error,
  Result, ok, err, any, inl, inr, ◌↔◌, Member,
}
use secunda_test.Base.Errors.{◌>>=◌}
use secunda_test.Infrastructure.Schema.{
  uuid_type, native_uuid, text_type, integer_type, jsonb, numeric, string_type, date_time, enum,
  literal, expression, func_now, Table, Constraint, unique, payments_table, outbox_table,
  conventional_name,
}
use secunda_test.Infrastructure.Schema.Names.{declared, constraint_name_iff}
use secunda_test.Infrastructure.Schema.Values.{Admitted, enum_column-Admitted}
use secunda_test.Domain.Enums.{eur, failed, currency_value, status_value}
use secunda_test.Infrastructure.Session.{idempotency_key_constraint, occurs}
use secunda_test.Migrations.{
  Operation, create_table, create_index, drop_index, drop_table, upgrade, downgrade,
}
use secunda_test.Migrations.Server.{
  relations, is_taken, is_table, index_names, on_table, with_index, without_index, without_table,
  IsServer, Dialect, IsDialect, longest,
}
use secunda_test.Migrations.Upgrade.{IsFree}
use secunda_test.Migrations.Agreement.{IsSame, upgrade-IsSame}
use secunda_test.Migrations.Downgrade.{downgrade-upgrade}

abbrev refused : Result (List Table)
refused = err (other_error [] [])

abbrev server : Operation → List Table → Result (List Table)
server (create_table t) schema =
    if any (λ name. is_taken name schema) (relations t) then refused else ok (schema ++ t ∷ [])
server (create_index table i) schema =
    if is_table table schema
    then (if is_taken i.name schema
        then refused
        else ok (map (on_table table (with_index i)) schema))
    else refused
server (drop_index table name) schema =
    if any (λ t. any (text_eq name) (index_names t.indexes)) schema
    then ok (map (without_index name) schema)
    else refused
server (drop_table name) schema =
    if is_table name schema then ok (without_table name schema) else refused

server-IsServer : IsServer server
server-IsServer = record {
  create_table_ok = λ t schema h. rw h;
  create_index_ok = λ table i schema h k. rw (h, k);
  drop_index_ok = λ table name schema h. rw h;
  drop_table_ok = λ name schema h. rw h;
}

-- Types and defaults by short texts.
abbrev dialect : Dialect
dialect = record {
  type_text = λ t. elim t [
    | uuid_type ↦ lit "UUID"
    | native_uuid ↦ lit "UUID"
    | text_type ↦ lit "TEXT"
    | integer_type ↦ lit "INTEGER"
    | jsonb ↦ lit "JSONB"
    | numeric p s ↦ lit "NUMERIC" ++ p ∷ s ∷ []
    | string_type n ↦ lit "VARCHAR" ++ n ∷ []
    | date_time zone ↦ lit "TIMESTAMP WITH TIME ZONE"
    | enum values name n ↦ lit "VARCHAR" ++ (elim n [ none ↦ longest values | some k ↦ k ]) ∷ []
  ];
  default_text = λ v. elim v [ literal s ↦ s | expression s ↦ s | func_now ↦ lit "now()" ];
}

dialect-IsDialect : IsDialect dialect
dialect-IsDialect = record { uuids = refl; enum_length = λ values name. refl; now = refl }

-- A schema with a table of another program.
abbrev schema : List Table
schema = record { name = lit "alembic_version"; columns = []; constraints = []; indexes = [] } ∷ []

schema-IsFree : IsFree schema
unfolding lit
schema-IsFree = (refl, (refl, (refl, (refl, (refl, (refl, (refl, tt)))))))

upgrade-IsSame_example :
    (outbox : Table) × (payments : Table) × (upgrade server schema
      ≡ ok (schema ++ outbox ∷ payments ∷ []))
    × IsSame dialect outbox outbox_table
    × IsSame dialect payments payments_table
upgrade-IsSame_example =
    upgrade-IsSame server server-IsServer dialect dialect-IsDialect schema schema-IsFree

downgrade-upgrade_example : (upgrade server schema >>= downgrade server) ≡ ok schema
downgrade-upgrade_example = downgrade-upgrade server server-IsServer schema schema-IsFree

abbrev unique_key : Constraint
unique_key = record {
  name = lit "uq_payments_idempotency_key";
  rule = unique (lit "idempotency_key");
}

unique_key-declared : Member unique_key declared
unfolding payments_table conventional_name lit
unique_key-declared = inr (inl refl)

constraint_name_iff_example :
    (occurs idempotency_key_constraint unique_key.name ≡ true)
    ↔ (unique_key.rule ≡ unique (lit "idempotency_key"))
constraint_name_iff_example = constraint_name_iff unique_key unique_key-declared

enum_column-Admitted_example :
    Admitted (lit "currency") (lit "ck_payments_currency_allowed") (currency_value eur)
    × Admitted (lit "status") (lit "ck_payments_status_allowed") (status_value failed)
enum_column-Admitted_example = enum_column-Admitted eur failed
