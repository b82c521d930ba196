-- ===== src/Migrations/Agreement.antt =====
-- The revision against the models' metadata.
use secunda_test.Base.{
  ◌≡◌, refl, Bool, Option, List, [], ◌∷◌, ◌++◌, map, Text, lit, Result, ok, All, Member, inl, inr,
}
use mathlib.Core.Option as Opt
use secunda_test.Infrastructure.Schema.{
  Column, Table, payments_table, outbox_table, conventional_name, enum_column, enum_check,
}
use secunda_test.Domain.Enums.{status_value, currency_value}
use secunda_test.Migrations.{
  Operation, create_outbox, create_payments, outbox_index, payments_index, upgrade,
  migrated_currencies,
}
use secunda_test.Migrations.Server.{IsServer, Dialect, IsDialect}
use secunda_test.Migrations.Upgrade.{new_outbox, new_payments, IsFree, upgrade_lem}

-- A column as the dialect writes it.
abbrev written : Dialect → Column → Text × Text × Bool × Option Text
written d c =
    (c.name, d.type_text c.column_type, c.nullable, Opt.map d.default_text c.server_default)

-- The same table: the columns in order as the dialect writes them, the constraints in some order,
-- and the indexes.
pub record IsSame (d : Dialect) (t u : Table) : Type 0 where
  pub name : t.name ≡ u.name
  pub columns : map (written d) t.columns ≡ map (written d) u.columns
  pub constraints : All (λ c. Member c u.constraints) t.constraints
  pub constraints_back : All (λ c. Member c t.constraints) u.constraints
  pub indexes : t.indexes ≡ u.indexes

module _ (d : Dialect) (dialect : IsDialect d) where
  outbox-IsSame : IsSame d new_outbox outbox_table
  unfolding lit new_outbox create_outbox outbox_index outbox_table conventional_name
  outbox-IsSame = record {
    name = refl;
    columns = rw (dialect.uuids, dialect.now);
    constraints = (inl refl, tt);
    constraints_back = (inl refl, tt);
    indexes = refl;
  }

  payments-IsSame : IsSame d new_payments payments_table
  unfolding lit new_payments create_payments payments_index payments_table conventional_name
      enum_column enum_check status_value currency_value
  payments-IsSame = record {
    name = refl;
    columns =
        rw (dialect.uuids, dialect.now, dialect.enum_length migrated_currencies (lit "currency"));
    constraints = (
      inr (inr (inr (inr (inr (inl refl))))),
      (
        inr (inr (inl refl)),
        (
          inr (inr (inr (inl refl))),
          (inr (inr (inr (inr (inl refl)))), (inl refl, (inr (inl refl), tt))),
        ),
      ),
    );
    constraints_back = (
      inr (inr (inr (inr (inl refl)))),
      (
        inr (inr (inr (inr (inr (inl refl))))),
        (inr (inl refl), (inr (inr (inl refl)), (inr (inr (inr (inl refl))), (inl refl, tt)))),
      ),
    );
    indexes = refl;
  }

-- On a schema whose relations have other names, a server that executes the statements, and a dialect
-- that gives an enum without a length that of its longest value: the upgrade succeeds and adds two
-- tables, which have the columns in order, the constraints with their names, and the indexes that the
-- models declare.
pub upgrade-IsSame :
    (execute : Operation → List Table → Result (List Table)) (server : IsServer execute)
    (d : Dialect) (dialect : IsDialect d) (schema : List Table) (free : IsFree schema)
    → (outbox : Table) × (payments : Table) × (upgrade execute schema
        ≡ ok (schema ++ outbox ∷ payments ∷ []))
      × IsSame d outbox outbox_table
      × IsSame d payments payments_table
upgrade-IsSame execute server d dialect schema free = (
  new_outbox,
  new_payments,
  upgrade_lem execute server schema free,
  outbox-IsSame d dialect,
  payments-IsSame d dialect,
)
