-- ===== src/Migrations/Upgrade.antt =====
-- What the revision makes of a schema, and that going back undoes it.
use secunda_test.Base.{
  ◌≡◌, refl, true, false, List, [], ◌∷◌, ◌++◌, map, ap, ◌∙◌, lit, text_eq, Result, ok, any, All,
  arith, append_one,
}
use secunda_test.Infrastructure.Schema.{Table}
use secunda_test.Migrations.{
  Operation, create_table, create_index, create_outbox, create_payments, outbox_index,
  payments_index, upgrade,
}
use secunda_test.Migrations.Server.{relations, is_taken, is_table, IsServer, on_table, with_index}
use secunda_test.Migrations.Schemas.{names_free, map-on_table, any_right, any_neither}

unfoldable pub new_outbox : Table
new_outbox = record create_outbox { indexes = outbox_index ∷ [] }

unfoldable pub new_payments : Table
new_payments = record create_payments { indexes = payments_index ∷ [] }

-- No relation of the schema has a name that the revision gives.
abbrev pub IsFree : List Table → Type 0
IsFree schema =
    All (λ name. is_taken name schema ≡ false)
      (lit "outbox"
        ∷ lit "pk_outbox"
        ∷ lit "ix_outbox_unpublished"
        ∷ lit "payments"
        ∷ lit "pk_payments"
        ∷ lit "uq_payments_idempotency_key"
        ∷ lit "ix_payments_status"
        ∷ [])

-- What the literals compute to.
outbox_differs : any (text_eq (lit "outbox")) (relations new_payments) ≡ false
unfolding lit create_payments new_payments payments_index
outbox_differs = refl

index_differs : is_taken (lit "ix_outbox_unpublished") (create_outbox ∷ []) ≡ false
unfolding lit create_outbox
index_differs = refl

pub outbox_is : is_table (lit "outbox") (create_outbox ∷ []) ≡ true
unfolding lit create_outbox
outbox_is = refl

outbox_changed :
    map (on_table (lit "outbox") (with_index outbox_index)) (create_outbox ∷ []) ≡ new_outbox ∷ []
unfolding lit create_outbox outbox_index new_outbox
outbox_changed = refl

payments_differ : any (λ name. is_taken name (new_outbox ∷ [])) (relations create_payments) ≡ false
unfolding lit create_outbox outbox_index new_outbox create_payments
payments_differ = refl

payments_index_differs :
    is_taken (lit "ix_payments_status") (new_outbox ∷ create_payments ∷ []) ≡ false
unfolding lit create_outbox outbox_index new_outbox create_payments
payments_index_differs = refl

payments_are : is_table (lit "payments") (new_outbox ∷ create_payments ∷ []) ≡ true
unfolding lit create_outbox outbox_index new_outbox create_payments
payments_are = refl

payments_changed :
    map (on_table (lit "payments") (with_index payments_index)) (new_outbox ∷ create_payments ∷ [])
    ≡ new_outbox ∷ new_payments ∷ []
unfolding lit create_outbox outbox_index new_outbox create_payments payments_index new_payments
payments_changed = refl

module _ (execute : Operation → List Table → Result (List Table)) (server : IsServer execute)
    (schema : List Table) (free : IsFree schema) where
  outbox_created : execute (create_table create_outbox) schema ≡ ok (schema ++ create_outbox ∷ [])
  unfolding create_outbox
  outbox_created = server.create_table_ok create_outbox schema (ground (arith, free.0, free.1.0))

  outbox_indexed :
      execute (create_index (lit "outbox") outbox_index) (schema ++ create_outbox ∷ [])
      ≡ ok (schema ++ new_outbox ∷ [])
  unfolding outbox_index
  outbox_indexed =
      server.create_index_ok (lit "outbox") outbox_index (schema ++ create_outbox ∷ [])
        (any_right _ schema _ outbox_is) (any_neither _ schema _ free.1.1.0 index_differs)
      ∙ ap ok (
          map-on_table (lit "outbox") (with_index outbox_index) schema _ free.0
          ∙ ap (λ ts. schema ++ ts) outbox_changed)

  payments_free : any (λ name. is_taken name schema) (relations create_payments) ≡ false
  unfolding create_payments
  payments_free = ground (arith, free.1.1.1.0, free.1.1.1.1.0, free.1.1.1.1.1.0)

  payments_created :
      execute (create_table create_payments) (schema ++ new_outbox ∷ [])
      ≡ ok (schema ++ new_outbox ∷ create_payments ∷ [])
  payments_created =
      server.create_table_ok create_payments (schema ++ new_outbox ∷ []) (
        names_free schema (new_outbox ∷ []) (relations create_payments) payments_free
          payments_differ)
      ∙ ap ok (append_one schema new_outbox (create_payments ∷ []))

  payments_indexed :
      execute
        (create_index (lit "payments") payments_index)
        (schema ++ new_outbox ∷ create_payments ∷ [])
      ≡ ok (schema ++ new_outbox ∷ new_payments ∷ [])
  unfolding payments_index
  payments_indexed =
      server.create_index_ok (lit "payments") payments_index
        (schema ++ new_outbox ∷ create_payments ∷ []) (any_right _ schema _ payments_are)
        (any_neither _ schema _ free.1.1.1.1.1.1.0 payments_index_differs)
      ∙ ap ok (
          map-on_table (lit "payments") (with_index payments_index) schema _ free.1.1.1.0
          ∙ ap (λ ts. schema ++ ts) payments_changed)

  pub upgrade_lem : upgrade execute schema ≡ ok (schema ++ new_outbox ∷ new_payments ∷ [])
  unfolding upgrade
  upgrade_lem = rw (outbox_created, outbox_indexed, payments_created, payments_indexed)
