-- ===== src/Infrastructure/Repositories/Settling.antt =====
-- app/infrastructure/db/repositories/payment.py: the row of the payment under `update_status`.
use mathlib.Core.Path.{subst}
use secunda_test.Exec.{continue}
use secunda_test.Infrastructure.Platform.{System, World}
use secunda_test.Infrastructure.Platform.Laws.{IsLawful}
use secunda_test.Infrastructure.Session.{arrived, seen}
use secunda_test.Infrastructure.Session.Statements.{statement-ok, statement-fault}
use secunda_test.Infrastructure.Session.Steady.{seen_clean}
use secunda_test.Base.{
  ℕ, Result, err, ◌≡◌, refl, sym, ap, ◌∙◌, Bool, false, not, Bool-cases, none, some, List, [], ◌∷◌,
  map, ◌==◌, ok, inl, inr, arith, count, Option-cases, ==_iff,
}
use secunda_test.Py.Uuid.{Uuid}
use secunda_test.Domain.Enums.{is_pending}
use secunda_test.Domain.Payment.{Payment}
use secunda_test.Domain.Payment.Invariant.{IsPayment}
use secunda_test.Infrastructure.Models.{PaymentModel, Tables, find_payment, Distinct, IdFree}
use secunda_test.Infrastructure.Mappers.{payment_to_model, payment_from_model}
use secunda_test.Infrastructure.Mappers.RoundTrip.{
  payment_from_model-payment_to_model, payment_to_model-payment_from_model,
}
use secunda_test.Infrastructure.Invariant.{Later}
use secunda_test.Infrastructure.Repositories.{is_pending_row, with_outcome, update_status, updated}
use secunda_test.Infrastructure.Repositories.Updating.{
  settle_row, id-settle_row, settled_tables, with_outcome-passes_checks,
}

module _ (r : PaymentModel) (p : Payment) (reads : payment_from_model r ≡ ok p) where
  pub status-reads : p.status ≡ r.status
  unfolding payment_to_model
  status-reads = ap (λ (x : PaymentModel). x.status) (payment_to_model-payment_from_model r p reads)

  pub id-reads : p.id ≡ r.id
  unfolding payment_to_model
  id-reads = ap (λ (x : PaymentModel). x.id) (payment_to_model-payment_from_model r p reads)

  -- A row of the same payment at a later time, with an outcome, is read as the payment with that
  -- outcome.
  pub with_outcome-reads :
      (q : Payment) (s : PaymentModel)
      → Later r s
      → q ≡ record p { status = q.status; processed_at = q.processed_at }
      → IsPayment q
      → payment_from_model (with_outcome q s) ≡ ok q
  unfolding payment_to_model
  with_outcome-reads q s later only valid =
      let same : with_outcome q s ≡ payment_to_model q r.request_hash =
        ap (with_outcome q) later.same
        ∙ (ap (with_outcome q) (sym (payment_to_model-payment_from_model r p reads))
            ∙ ap (λ (x : Payment). payment_to_model x r.request_hash) (sym only)) in
      ap payment_from_model same ∙ payment_from_model-payment_to_model q r.request_hash valid

module _ (id : Uuid) where
  -- No row with the identifier is pending, where the UPDATE changes none.
  pub none_pending :
      (rs : List PaymentModel) {r : PaymentModel}
      → find_payment id rs ≡ some r
      → count (is_pending_row id) rs ≡ 0
      → is_pending r.status ≡ false
  none_pending [] h c = cc
  none_pending (s ∷ rs) {r} h c = elim (Bool-cases (s.id == id)) [
    | inl e ↦ let same : s ≡ r = ground arith in rw (← same) (ground arith)
    | inr e ↦ none_pending rs {r = r} (ground arith) (ground arith)
  ]

  free_count : (rs : List PaymentModel) → IdFree id rs → count (is_pending_row id) rs ≡ 0
  free_count [] h = refl
  free_count (s ∷ rs) h = ground (arith, h.0, free_count rs h.1)

  -- The UPDATE changes no row, if the one with the identifier is not pending.
  pub final_count :
      (rs : List PaymentModel) {r : PaymentModel}
      → Distinct rs
      → find_payment id rs ≡ some r
      → is_pending r.status ≡ false
      → count (is_pending_row id) rs ≡ 0
  final_count [] d h f = cc
  final_count (s ∷ rs) {r} d h f = elim (Bool-cases (s.id == id)) [
    | inl e ↦
        let same : s ≡ r = ground arith in
        let free : IdFree id rs = rw (← (==_iff s.id id).0 e) d.0 in
        let settled : is_pending s.status ≡ false = rw same f in
        ground (arith, free_count rs free, settled)
    | inr e ↦ ground (arith, final_count rs {r = r} d.2 (ground arith) f)
  ]

  pub find-settled :
      (p : Payment) (rs : List PaymentModel) {r : PaymentModel}
      → find_payment id rs ≡ some r
      → find_payment id (map (settle_row p) rs) ≡ some (settle_row p r)
  find-settled p [] h = cc
  find-settled p (s ∷ rs) {r} h = elim (Bool-cases (s.id == id)) [
    | inl e ↦ let same : s ≡ r = ground arith in rw (id-settle_row p s, e, same)
    | inr e ↦ rw (id-settle_row p s, e) (find-settled p rs (ground arith))
  ]

-- An UPDATE that returns.
pub record Updated (q : Payment) (t : Tables) (applied : Bool) (w : World) : Type 0 where
  pub uncommitted : w.dirty ≡ some (settled_tables q t)
  pub changed : applied ≡ not (count (is_pending_row q.id) t.payments == 0)

updated-Updated :
    (sys : System) (q : Payment) (v : World) (t : Tables) (r : Result (Tables × ℕ)) {b : Bool}
    → r ≡ ok (settled_tables q t, count (is_pending_row q.id) t.payments)
    → (updated sys r v).0 ≡ ok b
    → Updated q t b (updated sys r v).1
unfolding updated
updated-Updated sys q v t (err e) m h = cc
updated-Updated sys q v t (ok (u, n)) {b} m h =
    let same : ◌≡◌ {A = Tables × ℕ} (u, n)
        (settled_tables q t, count (is_pending_row q.id) t.payments) =
      ap (λ (x : Result (Tables × ℕ)). elim x [ ok y ↦ y | err y ↦ (u, n) ]) m in
    record {
      uncommitted = ap (λ y. some y.0) same;
      changed =
          sym (ap (λ (x : Result Bool). elim x [ ok y ↦ y | err y ↦ b ]) h)
          ∙ ap (λ y. not (y.1 == 0)) same;
    }

pub update_status-Updated :
    {sys : System} (lawful : IsLawful sys) (q : Payment) (w : World) {b : Bool}
    → IsPayment q
    → w.dirty ≡ none
    → (update_status sys q w).0 ≡ ok b
    → Updated q (arrived sys w).tables b (update_status sys q w).1
unfolding update_status
update_status-Updated {sys} lawful q w {b} valid clean h =
    let v : World = arrived sys w in
    let same : seen v ≡ v.tables = seen_clean v (unfold arrived in clean) in
    let law =
      lawful.update_ok (is_pending_row q.id) (with_outcome q) (seen v) (λ r. (refl, refl))
        (λ r c. with_outcome-passes_checks q r valid c) in
    elim (Option-cases (sys.statement_fault w.statements)) [
      | inr (e, fault) ↦ cc (rw (statement-fault sys w e fault, continue) at h)
      | inl fault ↦
          let r : Result (Tables × ℕ) =
            sys.update_payments (is_pending_row q.id) (with_outcome q) (seen v) in
          let went : (updated sys r v).0 ≡ ok b = rw (statement-ok sys w fault, continue) at h in
          rw (statement-ok sys w fault, continue)
            (updated-Updated sys q v v.tables r
              (subst
                (λ (t : Tables).
                  r ≡ ok (settled_tables q t, count (is_pending_row q.id) t.payments))
                same law)
              went)
    ]
