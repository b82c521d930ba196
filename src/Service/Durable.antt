-- ===== src/Service/Durable.antt =====
-- app/application/payment/use_cases/create_payment.py: what a creation answers stands in the tables.
use secunda_test.Base.{
  ◌≡◌, sym, ap, ◌∙◌, true, Option, none, some, [], ◌∷◌, ◌++◌, Text, ==_refl, ◌==◌, if◌then◌else◌,
  ok, Result-cases, inl, inr,
}
use mathlib.Core.Path.{subst}
use secunda_test.Exec.{Returns, continue-Returns, Returns-ok, catch-Returns}
use secunda_test.Domain.Payment.{Payment}
use secunda_test.Application.Dto.{CreatePaymentCommand, StoredPayment, CreatePaymentResult}
use secunda_test.Application.CreatePayment.{or_create}
use secunda_test.Infrastructure.Models.{
  PaymentModel, OutboxMessageModel, Tables, find_payment, IdFree,
}
use secunda_test.Infrastructure.Mappers.{payment_to_model}
use secunda_test.Infrastructure.Invariant.{IsTables, Evolves-refl}
use secunda_test.Infrastructure.Platform.{System, World}
use secunda_test.Infrastructure.Platform.Laws.{IsLawful}
use secunda_test.Infrastructure.Session.{arrived, commit}
use secunda_test.Application.Events.{payment_created}
use secunda_test.Infrastructure.Session.Committed.{HasInserted, commit-HasInserted}
use secunda_test.Infrastructure.Session.Steady.{Steady}
use secunda_test.Infrastructure.Repositories.{outbox_row, get_by_idempotency_key}
use secunda_test.Infrastructure.Repositories.Reading.{get_by_key-world}
use secunda_test.Infrastructure.Platform.Insert.{find-append}
use secunda_test.Service.{create_use_case}
use secunda_test.Service.NewPayment.{
  IsRequested, SameSession, new_payment-SameSession, new_payment-IsRequested,
}
use secunda_test.Service.Keeping.{SameSession-Steady, committing-Steady, query-Steady}
use secunda_test.Service.Creating.{
  IsIdle, create_use_case-lem, create_new-lem, create_new-fault, the_create_new, the_or_create,
  the_payment, staged, committing, the_on_error,
}
use secunda_test.Service.Stored.{Stands, Answered, stored-Returns, on_error-Returns}

module _ {sys : System} (lawful : IsLawful sys) (command : CreatePaymentCommand) (t : Tables) where
  -- The row of a payment that was just inserted.
  inserted-Stands :
      (p : Payment) (m : OutboxMessageModel) (u u' : Tables)
      → p.idempotency_key.value ≡ command.idempotency_key
      → HasInserted lawful (payment_to_model p command.request_hash) m u u'
      → Stands command p u'
  unfolding payment_to_model
  inserted-Stands p m u u' key done =
      let r : PaymentModel = payment_to_model p command.request_hash in
      let kept = (lawful.store_keeps r).same in
      let same : (sys.store r).id ≡ p.id = ap (λ (x : PaymentModel). x.id) kept in
      let free : IdFree (sys.store r).id u.payments =
        subst (λ id. IdFree id u.payments) (sym same) done.was_free.id_free in
      let it_is : ((sys.store r).id == p.id) ≡ true = rw same (==_refl p.id) in
      record {
        row = sys.store r;
        found =
            ap (λ (x : Tables). find_payment p.id x.payments) done.tables
            ∙ find-append p.id u.payments (sys.store r) free
            ∙ ap (λ b. if b then some (sys.store r) else find_payment p.id u.payments) it_is;
        key = ap (λ (x : PaymentModel). x.idempotency_key) kept ∙ key;
        hash = ap (λ (x : PaymentModel). x.request_hash) kept;
      }

  committing-Returns :
      (p : Payment) (w : World)
      → w.dirty ≡ none
      → p.idempotency_key.value ≡ command.idempotency_key
      → w.new_payments ≡ []
      → w.new_outbox ≡ []
      → Returns (Answered sys command) (committing sys command p (staged sys command p w))
  committing-Returns p w clean key no_p no_o =
      let v : World = staged sys command p w in
      let m : OutboxMessageModel = outbox_row (payment_created p (sys.uuids w.uuids_drawn)) in
      continue-Returns (Answered sys command) (commit sys v).0 _ (commit sys v).1 (λ a e.
        inserted-Stands p m (arrived sys v).tables (commit sys v).1.tables key (
          commit-HasInserted lawful (payment_to_model p command.request_hash) m v clean
            (ap (λ rows. rows ++ payment_to_model p command.request_hash ∷ []) no_p)
            (ap (λ rows. rows ++ m ∷ []) no_o) e))

  create_new-Returns :
      (w : World)
      → Steady t w
      → w.new_payments ≡ []
      → w.new_outbox ≡ []
      → Returns (Answered sys command) (the_create_new sys command w)
  create_new-Returns w h no_p no_o =
      let same : SameSession w (the_payment sys command w).1 =
        new_payment-SameSession sys command w in
      let hw : Steady t (the_payment sys command w).1 = SameSession-Steady same h in
      elim (Result-cases (the_payment sys command w).0) [
        | inr (e, f) ↦
            subst (Returns (Answered sys command)) (sym (create_new-fault sys command w e f)) tt
        | inl (p, f) ↦
            let new : IsRequested command p = new_payment-IsRequested sys command w f in
            let v : World = (the_payment sys command w).1 in
            let none_p : v.new_payments ≡ [] = same.new_payments ∙ no_p in
            let none_o : v.new_outbox ≡ [] = same.new_outbox ∙ no_o in
            subst (Returns (Answered sys command)) (sym (create_new-lem sys command w p f)) (
              catch-Returns (Answered sys command) (committing sys command p)
                (the_on_error sys command) (staged sys command p v)
                (committing-Returns p v hw.clean new.key none_p none_o)
                (λ e q.
                  on_error-Returns lawful command t e _ (
                    committing-Steady lawful command t p v hw new.valid new.created none_p none_o)))
      ]

  or_create-Returns :
      (o : Option StoredPayment) (w : World)
      → Steady t w
      → w.new_payments ≡ []
      → w.new_outbox ≡ []
      → (get_by_idempotency_key sys command.idempotency_key w).0 ≡ ok o
      → Returns
          (Answered sys command)
          (the_or_create sys command o (get_by_idempotency_key sys command.idempotency_key w).1)
  unfolding or_create
  or_create-Returns (some s) w h no_p no_o q = stored-Returns lawful command t s w h q
  or_create-Returns none w h no_p no_o q =
      let rows : arrived sys w ≡ (get_by_idempotency_key sys command.idempotency_key w).1 =
        sym (get_by_key-world sys command.idempotency_key w) in
      create_new-Returns _ (query-Steady lawful command t command.idempotency_key w h)
        (subst (λ (u : World). u.new_payments ≡ []) rows (unfold arrived in no_p))
        (subst (λ (u : World). u.new_outbox ≡ []) rows (unfold arrived in no_o))

-- Under a lawful system, if a creation from an idle session over tables that satisfy the invariant
-- returns, then the payment that it returns stands in the tables: the row with its identifier holds
-- the command's key and the hash of its request, whether the payment was created, replayed, or found
-- after a lost race.
pub create_use_case-Stands :
    (sys : System) (command : CreatePaymentCommand) (w : World) (result : CreatePaymentResult)
    → IsLawful sys
    → IsIdle w
    → IsTables w.tables
    → (create_use_case sys command w).0 ≡ ok result
    → Stands command result.payment (create_use_case sys command w).1.tables
create_use_case-Stands sys command w result lawful idle valid e =
    let key : Text = command.idempotency_key in
    let h : Steady w.tables w = record {
      clean = idle.clean;
      valid = valid;
      evolved = Evolves-refl w.tables;
    } in
    Returns-ok (Answered sys command) (create_use_case sys command w) e (
      subst (Returns (Answered sys command)) (sym (create_use_case-lem sys command w)) (
        continue-Returns (Answered sys command) (get_by_idempotency_key sys key w).0
          (the_or_create sys command) (get_by_idempotency_key sys key w).1
          (λ o q.
            or_create-Returns lawful command w.tables o w h idle.no_payments idle.no_outbox q)))
