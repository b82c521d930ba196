-- ===== src/Service/Success.antt =====
-- app/application/payment/use_cases/create_payment.py: when a creation succeeds.
use secunda_test.Base.{
  ◌+◌, ◌≡◌, refl, ap, ◌∙◌, true, Option, none, [], ◌∷◌, ◌++◌, Result, ok, first,
}
use secunda_test.Exec.{continue, catch}
use secunda_test.Domain.Payment.{Payment}
use secunda_test.Application.Dto.{CreatePaymentCommand, CreatePaymentResult, StoredPayment}
use secunda_test.Application.CreatePayment.{or_create}
use secunda_test.Application.Events.{payment_created}
use secunda_test.Infrastructure.Models.{OutboxMessageModel, PaymentModel}
use secunda_test.Infrastructure.Mappers.{payment_to_model}
use secunda_test.Infrastructure.Invariant.{IsTables}
use secunda_test.Infrastructure.Platform.{System, World}
use secunda_test.Infrastructure.Platform.Laws.{IsLawful, Insertable}
use secunda_test.Infrastructure.Session.{seen, arrived, commit}
use secunda_test.Infrastructure.Session.Committed.{commit-Insertable}
use secunda_test.Infrastructure.Repositories.{has_key, outbox_row}
use secunda_test.Infrastructure.Repositories.Reading.{get_by_key-missing}
use secunda_test.Service.{create_use_case}
use secunda_test.Service.NewPayment.{SameSession, new_payment-SameSession}
use secunda_test.Service.Creating.{
  IsIdle, create_use_case-lem, create_new-lem, the_or_create, the_create_new, the_payment, staged,
  finish,
}

module _ (sys : System) (command : CreatePaymentCommand) (p : Payment) where
  finish-ok :
      (v : World)
      → (commit sys v).0 ≡ ok tt
      → (finish sys command p v).0 ≡ ok (record { payment = p; created = true })
  finish-ok v h = rw (h, continue, catch)

  missing-ok :
      (v : World) {r : Result CreatePaymentResult}
      → (the_create_new sys command v).0 ≡ r
      → (the_or_create sys command none v).0 ≡ r
  unfolding or_create
  missing-ok v h = h

-- The session as it commits a new payment: the query has arrived, and the payment and its event
-- are added.
abbrev pub at_commit : System → CreatePaymentCommand → World → Payment → World
at_commit sys command w p = staged sys command p (the_payment sys command (arrived sys w)).1

-- Under a lawful system, if neither the query nor the commit loses its connection, no row has the
-- command's key when the query arrives, the command's values are accepted and make the payment
-- `p`, and the constraints allow its row and its event when the commit arrives, then the creation
-- returns `p`, marked as created.
pub create_use_case-creates :
    (sys : System) (command : CreatePaymentCommand) (w : World) (p : Payment)
    → IsLawful sys
    → IsIdle w
    → IsTables (seen (arrived sys w))
    → sys.statement_fault w.statements ≡ none
    → sys.statement_fault (w.statements + 1) ≡ none
    → first (has_key command.idempotency_key) (seen (arrived sys w)).payments ≡ none
    → (the_payment sys command (arrived sys w)).0 ≡ ok p
    → Insertable sys
        (payment_to_model p command.request_hash)
        (outbox_row
          (payment_created p (sys.uuids (the_payment sys command (arrived sys w)).1.uuids_drawn)))
        (arrived sys (at_commit sys command w p)).tables
    → (create_use_case sys command w).0 ≡ ok (record { payment = p; created = true })
create_use_case-creates sys command w p lawful idle valid fault_query fault_commit missing built
      free =
    let v : World = arrived sys w in
    let u : World = (the_payment sys command v).1 in
    let same : SameSession v u = new_payment-SameSession sys command v in
    let m : OutboxMessageModel = outbox_row (payment_created p (sys.uuids u.uuids_drawn)) in
    let row : PaymentModel = payment_to_model p command.request_hash in
    let clean : v.dirty ≡ none = unfold arrived in idle.clean in
    let no_p : v.new_payments ≡ [] = unfold arrived in idle.no_payments in
    let no_o : v.new_outbox ≡ [] = unfold arrived in idle.no_outbox in
    let asked : v.statements ≡ w.statements + 1 = unfold arrived in refl in
    let committed : (commit sys (at_commit sys command w p)).0 ≡ ok tt =
      commit-Insertable lawful row m (at_commit sys command w p) (same.dirty ∙ clean)
        (ap (λ rows. rows ++ row ∷ []) (same.new_payments ∙ no_p))
        (ap (λ rows. rows ++ m ∷ []) (same.new_outbox ∙ no_o))
        (ap sys.statement_fault (same.statements ∙ asked) ∙ fault_commit) free in
    let query = get_by_key-missing lawful w valid command.idempotency_key fault_query missing in
    ap (λ (q : Result CreatePaymentResult × World). q.0) (create_use_case-lem sys command w)
    ∙ ap
        (λ (q : Result (Option StoredPayment) × World).
          (continue q.0 (the_or_create sys command) q.1).0)
        query
    ∙ missing-ok sys command p v (
        ap (λ (q : Result CreatePaymentResult × World). q.0) (create_new-lem sys command v p built)
        ∙ finish-ok sys command p (at_commit sys command w p) committed)
