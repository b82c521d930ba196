-- ===== src/Infrastructure/Repositories/Outcome.antt =====
-- app/infrastructure/db/repositories/payment.py: `update_status` and `get` in a session that inserts
-- no rows.
use mathlib.Core.Path.{subst}
use secunda_test.Base.{
  ℕ, ◌≡◌, refl, sym, ap, ◌∙◌, Option, none, some, List, Exc, Result, ok, err, Option-cases, inl,
  inr, count,
}
use secunda_test.Exec.{continue}
use secunda_test.Py.Uuid.{Uuid}
use secunda_test.Domain.Payment.{Payment}
use secunda_test.Domain.Payment.Invariant.{IsPayment}
use secunda_test.Infrastructure.Models.{PaymentModel, Tables, find_payment}
use secunda_test.Infrastructure.Invariant.{IsTables, IsRow, Evolves, Evolves-trans, find-All}
use secunda_test.Infrastructure.Platform.{System, World}
use secunda_test.Infrastructure.Platform.Laws.{IsLawful}
use secunda_test.Infrastructure.Session.{arrived, seen}
use secunda_test.Infrastructure.Session.Statements.{statement-ok, statement-fault}
use secunda_test.Infrastructure.Session.Working.{Working, seen-valid, arrived-Working}
use secunda_test.Infrastructure.Repositories.{
  get, has_id, update_status, updated, is_pending_row, with_outcome,
}
use secunda_test.Infrastructure.Repositories.Reading.{
  get-found, get-missing, get-world, select_one-fault,
}
use secunda_test.Infrastructure.Repositories.Updating.{
  settled_tables, settled_tables-IsTables, settled_tables-Evolves, with_outcome-passes_checks,
}

pub get-fault :
    (sys : System) (id : Uuid) (w : World) (x : Exc)
    → sys.statement_fault w.statements ≡ some x
    → (get sys id w).0 ≡ err x
unfolding get
get-fault sys id w x fault = rw (select_one-fault sys (has_id id) w x fault, continue)

module _ {sys : System} (lawful : IsLawful sys) (t : Tables) where
  pub get-Working : (id : Uuid) (w : World) → Working t w → Working t (get sys id w).1
  get-Working id w h = subst (Working t) (sym (get-world sys id w)) (arrived-Working lawful t w h)

  updated-Working :
      (p : Payment) (v : World) (n : ℕ) (r : Result (Tables × ℕ))
      → IsPayment p
      → Working t v
      → r ≡ ok (settled_tables p (seen v), n)
      → Working t (updated sys r v).1
  unfolding updated
  updated-Working p v n r valid h e = rw e (record {
    valid = h.valid;
    evolved = h.evolved;
    open_valid = λ u q.
        let same : settled_tables p (seen v) ≡ u =
          ap (λ o. elim o [ none ↦ settled_tables p (seen v) | some x ↦ x ]) q in
        subst (λ x. IsTables x × Evolves t x) same
          (
            settled_tables-IsTables p (seen v) valid (seen-valid v h).0,
            Evolves-trans t (seen v) (settled_tables p (seen v)) (seen-valid v h).1
                (settled_tables-Evolves p (seen v)),
          );
    no_payments = h.no_payments;
    no_outbox = h.no_outbox;
  })

  pub update_status-Working :
      (p : Payment) (w : World) → IsPayment p → Working t w → Working t (update_status sys p w).1
  unfolding update_status
  update_status-Working p w valid h =
      let v : World = arrived sys w in
      let hv : Working t v = arrived-Working lawful t w h in
      elim (Option-cases (sys.statement_fault w.statements)) [
        | inr (e, fault) ↦ rw (statement-fault sys w e fault, continue) hv
        | inl fault ↦
            rw (statement-ok sys w fault, continue)
              (updated-Working p v (count (is_pending_row p.id) (seen v).payments) _ valid hv (
                lawful.update_ok (is_pending_row p.id) (with_outcome p) (seen v) (λ r. (refl, refl))
                  (λ r c. with_outcome-passes_checks p r valid c)))
      ]

  -- What is read from the tables satisfies the invariant of payments.
  pub get-IsPayment :
      (id : Uuid) (w : World) {p : Payment}
      → Working t w
      → (get sys id w).0 ≡ ok (some p)
      → IsPayment p
  get-IsPayment id w {p} h e =
      let rows : List PaymentModel = (seen (arrived sys w)).payments in
      let valid : IsTables (seen (arrived sys w)) =
        (seen-valid (arrived sys w) (arrived-Working lawful t w h)).0 in
      elim (Option-cases (sys.statement_fault w.statements)) [
        | inr (x, fault) ↦ cc (get-fault sys id w x fault, e)
        | inl fault ↦ elim (Option-cases (find_payment id rows)) [
          | inl gone ↦ cc (rw (get-missing lawful w valid id fault gone) at e)
          | inr (r, there) ↦
              let row : IsRow r = find-All IsRow id rows valid.rows there in
              let same : row.payment ≡ p =
                ap
                  (λ (q : Result (Option Payment)). elim q [
                    | ok o ↦ elim o [ none ↦ p | some a ↦ a ]
                    | err x ↦ p
                  ])
                  (sym (
                      ap (λ (q : Result (Option Payment) × World). q.0)
                        (get-found lawful w valid id r row.payment fault there row.reads))
                    ∙ e) in
              subst IsPayment same row.valid
        ]
      ]
