-- ===== src/Service/Standing.antt =====
-- app/application/payment/use_cases/process_payment.py: the row that a processed payment stands in.
use mathlib.Core.Path.{subst}
use secunda_test.Base.{
  ◌≡◌, refl, ap, ◌∙◌, Bool, true, false, Bool-cases, Option, none, some, ok, inl, inr,
}
use secunda_test.Py.Uuid.{Uuid}
use secunda_test.Py.Datetime.{Instant}
use secunda_test.Domain.Enums.{is_pending}
use secunda_test.Domain.Payment.{
  Payment, mark_succeeded, mark_failed, transition_to, settle, check_processed_at,
}
use secunda_test.Application.ProcessPayment.{marked}
use secunda_test.Infrastructure.Models.{PaymentModel, Tables, find_payment}
use secunda_test.Infrastructure.Mappers.{payment_from_model}
use secunda_test.Infrastructure.Invariant.{Evolves, Later, LaterOption}

-- The payment `p` is what the row with the identifier is read as, and it is not pending.
pub record Standing (id : Uuid) (p : Payment) (t : Tables) : Type 0 where
  pub row : PaymentModel
  pub there : find_payment id t.payments ≡ some row
  pub reads : payment_from_model row ≡ ok p
  pub final : is_pending row.status ≡ false

Later-row :
    (o o' : Option PaymentModel) {r : PaymentModel}
    → LaterOption o o'
    → o ≡ some r
    → (s : PaymentModel) × (o' ≡ some s) × Later r s
Later-row none o' h e = cc
Later-row (some x) none h e = absurd h
Later-row (some x) (some s) {r} h e =
    let same : x ≡ r = ap (λ (o : Option PaymentModel). elim o [ none ↦ x | some y ↦ y ]) e in
    (s, refl, subst (λ y. Later y s) same h)

-- A row at a later time.
pub evolved_row :
    (id : Uuid) (t t' : Tables) {r : PaymentModel}
    → Evolves t t'
    → find_payment id t.payments ≡ some r
    → (s : PaymentModel) × (find_payment id t'.payments ≡ some s) × Later r s
evolved_row id t t' h e =
    Later-row (find_payment id t.payments) (find_payment id t'.payments) (h.at id) e

-- A final outcome stands for good.
pub Standing-Evolves :
    (id : Uuid) (p : Payment) (t t' : Tables) → Evolves t t' → Standing id p t → Standing id p t'
Standing-Evolves id p t t' h k =
    let (s, there, later) = evolved_row id t t' h k.there in
    record {
      row = k.row;
      there = there ∙ ap some (later.settled k.final);
      reads = k.reads;
      final = k.final;
    }

-- A payment that is marked differs in its outcome, and is not pending.
pub marked-outcome :
    (b : Bool) (now : Instant) (p : Payment)
    → (marked b now p).0 ≡ ok tt
    → ((marked b now p).1 ≡ record p {
      status = (marked b now p).1.status;
      processed_at = (marked b now p).1.processed_at;
    })
      × (is_pending (marked b now p).1.status ≡ false)
unfolding marked mark_succeeded mark_failed transition_to settle check_processed_at
marked-outcome true now p h = elim (Bool-cases (is_pending p.status)) [
  | inl e ↦ rw e (refl, refl)
  | inr e ↦ cc (rw e at h)
]
marked-outcome false now p h = elim (Bool-cases (is_pending p.status)) [
  | inl e ↦ rw e (refl, refl)
  | inr e ↦ cc (rw e at h)
]
