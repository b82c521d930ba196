-- ===== src/Infrastructure/Repositories/Updating.antt =====
-- app/infrastructure/db/repositories/payment.py: what `update_status` does to the tables.
use secunda_test.Base.{
  ◌≡◌, refl, sym, ap, ◌∙◌, true, Bool-cases, Option, none, some, List, [], ◌∷◌, map, ◌==◌, Text,
  All, inl, inr, arith,
}
use secunda_test.Py.Uuid.{Uuid}
use secunda_test.Py.Datetime.{Datetime}
use secunda_test.Domain.Enums.{PaymentStatus, is_pending}
use secunda_test.Domain.Payment.{Payment}
use secunda_test.Domain.Payment.Invariant.{IsPayment, ProcessedFits}
use secunda_test.Infrastructure.Models.{
  PaymentModel, OutboxMessageModel, Tables, find_payment, passes_checks, is_none, both_or_neither,
  IdFree, KeyFree, Distinct,
}
use secunda_test.Infrastructure.Mappers.{payment_to_model, payment_from_model}
use secunda_test.Infrastructure.Mappers.RoundTrip.{
  payment_from_model-payment_to_model, payment_to_model-payment_from_model,
}
use secunda_test.Infrastructure.Invariant.{IsTables, IsRow, Announced, Later, LaterOption, Evolves}
use secunda_test.Infrastructure.Platform.Laws.{apply_where}
use secunda_test.Infrastructure.Repositories.{is_pending_row, with_outcome}

outcome_fits :
    (s : PaymentStatus) (o : Option Datetime)
    → ProcessedFits s o
    → both_or_neither (is_pending s) (is_none o) ≡ true
unfolding both_or_neither is_none
outcome_fits s none h = rw h
outcome_fits s (some t) h = rw h.0

module _ (p : Payment) where
  -- A row as the UPDATE leaves it.
  abbrev pub settle_row : PaymentModel → PaymentModel
  settle_row = apply_where (is_pending_row p.id) (with_outcome p)

  pub id-settle_row : (r : PaymentModel) → (settle_row r).id ≡ r.id
  id-settle_row r = elim (Bool-cases (is_pending_row p.id r)) [ inl e ↦ rw e | inr e ↦ rw e ]

  key-settle_row : (r : PaymentModel) → (settle_row r).idempotency_key ≡ r.idempotency_key
  key-settle_row r = elim (Bool-cases (is_pending_row p.id r)) [ inl e ↦ rw e | inr e ↦ rw e ]

  -- Only a row that is pending changes, and only in its outcome.
  settle_row-Later : (r : PaymentModel) → Later r (settle_row r)
  settle_row-Later r = elim (Bool-cases (is_pending_row p.id r)) [
    | inl e ↦
        let was : is_pending r.status ≡ true = ground arith in
        rw e (record { same = refl; settled = λ h. cc (was, h) })
    | inr e ↦ rw e (record { same = refl; settled = λ h. refl })
  ]

  IdFree-settle :
      (id : Uuid) (rs : List PaymentModel) → IdFree id rs → IdFree id (map settle_row rs)
  IdFree-settle id [] h = tt
  IdFree-settle id (r ∷ rs) h = ((λ e. h.0 (sym (id-settle_row r) ∙ e)), IdFree-settle id rs h.1)

  KeyFree-settle :
      (key : Text) (rs : List PaymentModel) → KeyFree key rs → KeyFree key (map settle_row rs)
  KeyFree-settle key [] h = tt
  KeyFree-settle key (r ∷ rs) h =
      ((λ e. h.0 (sym (key-settle_row r) ∙ e)), KeyFree-settle key rs h.1)

  Distinct-settle : (rs : List PaymentModel) → Distinct rs → Distinct (map settle_row rs)
  Distinct-settle [] h = tt
  Distinct-settle (r ∷ rs) h = (
    rw (id-settle_row r) (IdFree-settle r.id rs h.0),
    rw (key-settle_row r) (KeyFree-settle r.idempotency_key rs h.1),
    Distinct-settle rs h.2,
  )

  Announced-settle :
      (rs : List PaymentModel) (ms : List OutboxMessageModel)
      → Announced rs ms
      → Announced (map settle_row rs) ms
  Announced-settle [] [] h = tt
  Announced-settle [] (m ∷ ms) h = absurd h
  Announced-settle (r ∷ rs) [] h = absurd h
  Announced-settle (r ∷ rs) (m ∷ ms) h = (
    record {
      aggregate = rw (id-settle_row r) h.0.aggregate;
      type = h.0.type;
      payment_id = rw (id-settle_row r) h.0.payment_id;
    },
    Announced-settle rs ms h.1,
  )

  find-settle :
      (id : Uuid) (rs : List PaymentModel)
      → LaterOption (find_payment id rs) (find_payment id (map settle_row rs))
  find-settle id [] = tt
  find-settle id (r ∷ rs) = elim (Bool-cases (r.id == id)) [
    | inl e ↦ rw (id-settle_row r, e) (settle_row-Later r)
    | inr e ↦ rw (id-settle_row r, e) (find-settle id rs)
  ]

  -- A row with the outcome of a valid payment is read as a valid payment.
  with_outcome-IsRow : (r : PaymentModel) → IsPayment p → IsRow r → IsRow (with_outcome p r)
  unfolding payment_to_model
  with_outcome-IsRow r valid row =
      let q : Payment = record row.payment { status = p.status; processed_at = p.processed_at } in
      let is_q : IsPayment q = record {
        amount = row.valid.amount;
        key = row.valid.key;
        url = row.valid.url;
        created = row.valid.created;
        processed = valid.processed;
      } in
      let stored : payment_to_model q r.request_hash ≡ with_outcome p r =
        ap (with_outcome p) (payment_to_model-payment_from_model r row.payment row.reads) in
      record {
        payment = q;
        reads =
            ap payment_from_model (sym stored)
            ∙ payment_from_model-payment_to_model q r.request_hash is_q;
        valid = is_q;
      }

  settle_row-IsRow : (r : PaymentModel) → IsPayment p → IsRow r → IsRow (settle_row r)
  settle_row-IsRow r valid row = elim (Bool-cases (is_pending_row p.id r)) [
    | inl e ↦ rw e (with_outcome-IsRow r valid row)
    | inr e ↦ rw e row
  ]

  rows-settle :
      (rs : List PaymentModel) → IsPayment p → All IsRow rs → All IsRow (map settle_row rs)
  rows-settle [] valid h = tt
  rows-settle (r ∷ rs) valid h = (settle_row-IsRow r valid h.0, rows-settle rs valid h.1)

  abbrev pub settled_tables : Tables → Tables
  settled_tables t = record t { payments = map settle_row t.payments }

  -- The UPDATE by a valid payment keeps the invariant of the tables.
  pub settled_tables-IsTables :
      (t : Tables) → IsPayment p → IsTables t → IsTables (settled_tables t)
  settled_tables-IsTables t valid h = record {
    distinct = Distinct-settle t.payments h.distinct;
    rows = rows-settle t.payments valid h.rows;
    announced = Announced-settle t.payments t.outbox h.announced;
  }

  -- The UPDATE changes no row that is settled.
  pub settled_tables-Evolves : (t : Tables) → Evolves t (settled_tables t)
  settled_tables-Evolves t = record { at = λ id. find-settle id t.payments }

  -- The checks of the table hold of every row that the UPDATE writes.
  pub with_outcome-passes_checks :
      (r : PaymentModel)
      → IsPayment p
      → passes_checks r ≡ true
      → passes_checks (with_outcome p r) ≡ true
  unfolding passes_checks
  with_outcome-passes_checks r valid h =
      rw (outcome_fits p.status p.processed_at valid.processed) (ground (arith, h))
