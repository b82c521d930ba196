-- ===== src/Service/Rows.antt =====
-- app/infrastructure/db/repositories/payment.py under app/application/payment/use_cases/process_payment.py:
-- the row of a payment after the UPDATE and the query.
use secunda_test.Base.{
  ◌≡◌, sym, ap, ◌∙◌, Bool, true, false, not, ◌==◌, Bool-cases, Option, none, some, List, Result, ok,
  err, Option-cases, inl, inr, arith, count, ==_refl, if◌then◌else◌,
}
use secunda_test.Py.Uuid.{Uuid}
use secunda_test.Domain.Enums.{is_pending}
use secunda_test.Domain.Payment.{Payment}
use secunda_test.Domain.Payment.Invariant.{IsPayment}
use secunda_test.Infrastructure.Models.{PaymentModel, Tables, find_payment}
use secunda_test.Infrastructure.Mappers.{payment_from_model}
use secunda_test.Infrastructure.Invariant.{
  IsTables, IsRow, Evolves, Evolves-refl, find-All, id-find_payment,
}
use secunda_test.Infrastructure.Platform.{System, World}
use secunda_test.Infrastructure.Platform.Laws.{IsLawful}
use secunda_test.Infrastructure.Session.{arrived, seen}
use secunda_test.Infrastructure.Session.Steady.{seen_clean}
use secunda_test.Infrastructure.Session.Working.{Working, arrived-Working, seen-valid}
use secunda_test.Infrastructure.Repositories.{get, is_pending_row, with_outcome}
use secunda_test.Infrastructure.Repositories.Outcome.{get-fault}
use secunda_test.Infrastructure.Repositories.Reading.{get-found, get-missing, get-world}
use secunda_test.Infrastructure.Repositories.Updating.{settle_row, settled_tables}
use secunda_test.Infrastructure.Repositories.Settling.{
  with_outcome-reads, none_pending, final_count, find-settled,
}
use secunda_test.Service.Standing.{Standing, evolved_row}

-- The payment `p`, and the row that it was read from; `q` is the payment with an outcome.
module _ (id : Uuid) (p q : Payment) (r : PaymentModel) (t : Tables)
    (there : find_payment id t.payments ≡ some r) (reads : payment_from_model r ≡ ok p)
    (only : q ≡ record p { status = q.status; processed_at = q.processed_at })
    (final : is_pending q.status ≡ false) (valid : IsPayment q) (same_id : q.id ≡ id) where
  settle_row-pending :
      (rs : List PaymentModel) (s : PaymentModel) (b : Bool)
      → find_payment id rs ≡ some s
      → is_pending s.status ≡ b
      → settle_row q s ≡ (if b then with_outcome q s else s)
  settle_row-pending rs s b h e =
      let same : s.id ≡ q.id = id-find_payment id rs h ∙ sym same_id in rw (same, ==_refl q.id, e)

  -- Where the UPDATE has changed a row, the row of the payment holds the outcome.
  pub settled-Standing :
      (t' : Tables)
      → IsTables t'
      → Evolves t t'
      → true ≡ not (count (is_pending_row q.id) t'.payments == 0)
      → Standing id q (settled_tables q t')
  settled-Standing t' ok_t' later changed =
      let (s, now_there, later_r) = evolved_row id t t' later there in
      elim (Bool-cases (is_pending s.status)) [
        | inr e ↦
            let zero_count : count (is_pending_row q.id) t'.payments ≡ 0 =
              rw same_id (final_count id t'.payments ok_t'.distinct now_there e) in
            absurd (ground (arith, zero_count, changed))
        | inl e ↦ record {
          row = with_outcome q s;
          there =
              find-settled id q t'.payments now_there
              ∙ ap some (settle_row-pending t'.payments s true now_there e);
          reads = with_outcome-reads r p reads q s later_r only valid;
          final = final;
        }
      ]

  -- Where it has changed none, the row of the payment has an outcome already, and keeps it.
  pub unsettled :
      (t' : Tables)
      → Evolves t t'
      → false ≡ not (count (is_pending_row q.id) t'.payments == 0)
      → (s : PaymentModel) × (find_payment id (settled_tables q t').payments ≡ some s)
        × (is_pending s.status ≡ false)
  unsettled t' later unchanged =
      let (s, now_there, later_r) = evolved_row id t t' later there in
      let none_changed : count (is_pending_row q.id) t'.payments ≡ 0 = ground (arith, unchanged) in
      let zero_count : count (is_pending_row id) t'.payments ≡ 0 = rw (← same_id) none_changed in
      let f : is_pending s.status ≡ false = none_pending id t'.payments now_there zero_count in
      (
        s,
        find-settled id q t'.payments now_there
            ∙ ap some (settle_row-pending t'.payments s false now_there f),
        f,
      )

-- A clean session starts a history of its own.
pub rebased : {t : Tables} (w : World) → Working t w → w.dirty ≡ none → Working w.tables w
rebased w h clean = record {
  valid = h.valid;
  evolved = Evolves-refl w.tables;
  open_valid = λ u e. cc (clean, e);
  no_payments = h.no_payments;
  no_outbox = h.no_outbox;
}

some_value : {A : Type 0} {a b : A} → ◌≡◌ {A = Option A} (some a) (some b) → b ≡ a
some_value {b = b} h = ap (λ (x : Option _). elim x [ some y ↦ y | none ↦ b ]) (sym h)

ok_value : {A : Type 0} {a b : A} → ◌≡◌ {A = Result A} (ok a) (ok b) → a ≡ b
ok_value {a = a} h = ap (λ (x : Result _). elim x [ ok y ↦ y | err y ↦ a ]) h

module _ {sys : System} (lawful : IsLawful sys) (id : Uuid) where
  -- What a query that returns has found stands in the tables that it has seen.
  pub get-row :
      (t : Tables) (w : World) (s : PaymentModel) (o : Option Payment)
      → Working t w
      → w.dirty ≡ none
      → find_payment id (arrived sys w).tables.payments ≡ some s
      → (get sys id w).0 ≡ ok o
      → (p : Payment) × (o ≡ some p) × (payment_from_model s ≡ ok p)
  get-row t w s o h clean there e =
      let v : World = arrived sys w in
      let hv : Working t v = arrived-Working lawful t w h in
      let same : seen v ≡ v.tables = seen_clean v (unfold arrived in clean) in
      let row : IsRow s = find-All IsRow id v.tables.payments hv.valid.rows there in
      elim (Option-cases (sys.statement_fault w.statements)) [
        | inr (x, fault) ↦ cc (get-fault sys id w x fault, e)
        | inl fault ↦
            let there' : find_payment id (seen v).payments ≡ some s = rw same there in
            let got =
              get-found lawful w (seen-valid v hv).0 id s row.payment fault there' row.reads in
            (
              row.payment,
              ok_value (sym e ∙ ap (λ (x : Result (Option Payment) × World). x.0) got),
              row.reads,
            )
      ]

  -- What is read of a row that is not pending stands, from the statement that reads it on.
  pub get-Standing :
      (t : Tables) (w : World) (s : PaymentModel) (o : Option Payment)
      → Working t w
      → w.dirty ≡ none
      → find_payment id w.tables.payments ≡ some s
      → is_pending s.status ≡ false
      → (get sys id w).0 ≡ ok o
      → (p : Payment) × (o ≡ some p) × Standing id p (get sys id w).1.tables
  get-Standing t w s o h clean there f e =
      let hw : Working w.tables w = rebased w h clean in
      let v : World = arrived sys w in
      let hv : Working w.tables v = arrived-Working lawful w.tables w hw in
      let (s', there', later) = evolved_row id w.tables v.tables hv.evolved there in
      let same : s' ≡ s = later.settled f in
      let (p, found_p, reads) = get-row t w s' o h clean there' e in
      (
        p,
        found_p,
        rw (get-world sys id w)
            (record { row = s'; there = there'; reads = reads; final = rw same f }),
      )

  -- The row that a query has read a payment from.
  pub get-there :
      (t : Tables) (w : World) (p : Payment)
      → Working t w
      → w.dirty ≡ none
      → (get sys id w).0 ≡ ok (some p)
      → (s : PaymentModel) × (find_payment id (arrived sys w).tables.payments ≡ some s)
        × (payment_from_model s ≡ ok p)
  get-there t w p h clean e =
      let v : World = arrived sys w in
      let hv : Working t v = arrived-Working lawful t w h in
      let same : seen v ≡ v.tables = seen_clean v (unfold arrived in clean) in
      elim (Option-cases (find_payment id v.tables.payments)) [
        | inl gone ↦ elim (Option-cases (sys.statement_fault w.statements)) [
          | inr (x, fault) ↦ cc (get-fault sys id w x fault, e)
          | inl fault ↦
              let gone' : find_payment id (seen v).payments ≡ none = rw same gone in
              cc (rw (get-missing lawful w (seen-valid v hv).0 id fault gone') at e)
        ]
        | inr (s, there) ↦
            let (p', same_p, reads) = get-row t w s (some p) h clean there e in
            (s, there, reads ∙ ap ok (some_value same_p))
      ]
