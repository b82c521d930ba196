-- ===== src/Migrations/Downgrade.antt =====
-- Going back from the revision.
use secunda_test.Base.{
  ◌≡◌, refl, true, false, List, [], ◌∷◌, ◌++◌, map, ap, ◌∙◌, Text, lit, text_eq, Result, ok, any,
  append_nil,
}
use secunda_test.Base.Errors.{◌>>=◌}
use secunda_test.Infrastructure.Schema.{Table}
use secunda_test.Migrations.{
  Operation, drop_index, drop_table, create_outbox, create_payments, outbox_index, payments_index,
  upgrade, downgrade,
}
use secunda_test.Migrations.Server.{
  index_names, is_taken, is_table, IsServer, without_index, without_table,
}
use secunda_test.Migrations.Schemas.{map-without_index, without_table-append, any_right}
use secunda_test.Migrations.Upgrade.{new_outbox, new_payments, IsFree, outbox_is, upgrade_lem}

abbrev HasIndex : Text → List Table → Type 0
HasIndex name schema = any (λ t. any (text_eq name) (index_names t.indexes)) schema ≡ true

abbrev both : List Table
both = new_outbox ∷ create_payments ∷ []

status_index : HasIndex (lit "ix_payments_status") (new_outbox ∷ new_payments ∷ [])
unfolding lit create_outbox new_outbox outbox_index create_payments new_payments payments_index
status_index = refl

status_unindexed :
    map (without_index (lit "ix_payments_status")) (new_outbox ∷ new_payments ∷ []) ≡ both
unfolding lit create_outbox new_outbox outbox_index create_payments new_payments payments_index
status_unindexed = refl

payments_are : is_table (lit "payments") both ≡ true
unfolding lit create_outbox new_outbox create_payments
payments_are = refl

payments_dropped : without_table (lit "payments") both ≡ new_outbox ∷ []
unfolding lit create_outbox new_outbox create_payments
payments_dropped = refl

unpublished_index : HasIndex (lit "ix_outbox_unpublished") (new_outbox ∷ [])
unfolding lit create_outbox new_outbox outbox_index
unpublished_index = refl

unpublished_unindexed :
    map (without_index (lit "ix_outbox_unpublished")) (new_outbox ∷ []) ≡ create_outbox ∷ []
unfolding lit create_outbox new_outbox outbox_index
unpublished_unindexed = refl

outbox_dropped : without_table (lit "outbox") (create_outbox ∷ []) ≡ []
unfolding lit create_outbox
outbox_dropped = refl

module _ (execute : Operation → List Table → Result (List Table)) (server : IsServer execute)
    (schema : List Table) (free : IsFree schema) where
  index_dropped :
      (table name : Text) (ts us : List Table)
      → is_taken name schema ≡ false
      → HasIndex name ts
      → map (without_index name) ts ≡ us
      → execute (drop_index table name) (schema ++ ts) ≡ ok (schema ++ us)
  index_dropped table name ts us h there change =
      server.drop_index_ok table name (schema ++ ts) (any_right _ schema ts there)
      ∙ ap ok (map-without_index name schema ts h ∙ ap (λ rest. schema ++ rest) change)

  table_dropped :
      (name : Text) (ts us : List Table)
      → is_taken name schema ≡ false
      → is_table name ts ≡ true
      → without_table name ts ≡ us
      → execute (drop_table name) (schema ++ ts) ≡ ok (schema ++ us)
  table_dropped name ts us h there change =
      server.drop_table_ok name (schema ++ ts) (any_right _ schema ts there)
      ∙ ap ok (without_table-append name schema ts h ∙ ap (λ rest. schema ++ rest) change)

  downgrade_lem : downgrade execute (schema ++ new_outbox ∷ new_payments ∷ []) ≡ ok schema
  unfolding downgrade
  downgrade_lem =
      let step1 =
        index_dropped (lit "payments") (lit "ix_payments_status") (new_outbox ∷ new_payments ∷ [])
          both free.1.1.1.1.1.1.0 status_index status_unindexed in
      let step2 =
        table_dropped (lit "payments") both (new_outbox ∷ []) free.1.1.1.0 payments_are
          payments_dropped in
      let step3 =
        index_dropped (lit "outbox") (lit "ix_outbox_unpublished") (new_outbox ∷ [])
          (create_outbox ∷ []) free.1.1.0 unpublished_index unpublished_unindexed in
      let step4 =
        table_dropped (lit "outbox") (create_outbox ∷ []) [] free.0 outbox_is outbox_dropped in
      rw (step1, step2, step3, step4, append_nil schema)

  -- On any schema whose relations have other names than those of the revision, upgrading and then
  -- downgrading succeeds and gives the schema back.
  pub downgrade-upgrade : (upgrade execute schema >>= downgrade execute) ≡ ok schema
  downgrade-upgrade = rw (upgrade_lem execute server schema free, downgrade_lem)
