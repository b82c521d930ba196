-- ===== src/Infrastructure/Platform/Insert.antt =====
-- The flush of a new payment and its event keeps the invariant of the tables.
use mathlib.Core.Path.{subst}
use secunda_test.Base.{
  ℕ, ◌≡◌, refl, sym, ap, ◌∙◌, some, List, [], ◌∷◌, ◌++◌, if◌then◌else◌, ◌==◌, Text, lit,
  text_eq_refl, ok, All-append, arith, Bool-cases, inl, inr, ◌≢◌,
}
use secunda_test.Py.Uuid.{Uuid}
use secunda_test.Py.Datetime.{Instant, in_utc}
use secunda_test.Py.Json.{decimal, get_field}
use secunda_test.Domain.Values.Checks.{IsAmount, make_amount_iff}
use secunda_test.Domain.Payment.{Payment}
use secunda_test.Domain.Payment.Invariant.{IsPayment}
use secunda_test.Application.Events.{payment_created}
use secunda_test.Infrastructure.Models.{
  PaymentModel, OutboxMessageModel, Tables, find_payment, IdFree, KeyFree, Distinct,
}
use secunda_test.Infrastructure.Mappers.{payment_to_model, payment_from_model}
use secunda_test.Infrastructure.Mappers.RoundTrip.{payment_from_model-payment_to_model}
use secunda_test.Infrastructure.Invariant.{
  IsRow, IsEventOf, Announced, IsTables, LaterOption, Evolves, LaterOption-refl,
}
use secunda_test.Infrastructure.Platform.{System}
use secunda_test.Infrastructure.Platform.Laws.{IsLawful, Insertable, inserted, Kept}
use secunda_test.Infrastructure.Repositories.{outbox_row}

-- The payment as the server's column types hold it.
pub stored_payment : System → Payment → Text → Payment
stored_payment sys p h =
    let s = sys.store (payment_to_model p h) in
    record p { amount = record { value = s.amount }; metadata = s.meta }

module _ {sys : System} (lawful : IsLawful sys) where
  store-payment_to_model :
      (p : Payment) (h : Text) (now : Instant)
      → p.created_at ≡ in_utc now
      → sys.store (payment_to_model p h) ≡ payment_to_model (stored_payment sys p h) h
  unfolding payment_to_model stored_payment
  store-payment_to_model p h now e =
      let r : PaymentModel = payment_to_model p h in
      let s : PaymentModel = sys.store r in
      let k : Kept r s = lawful.store_keeps r in
      k.same
      ∙ ap (λ c. record r { amount = s.amount; meta = s.meta; created_at = c })
          (k.created_at now e ∙ sym e)

  stored_payment-IsPayment :
      (p : Payment) (h : Text) → IsPayment p → IsPayment (stored_payment sys p h)
  unfolding stored_payment payment_to_model
  stored_payment-IsPayment p h v =
      let amount : IsAmount p.amount.value =
        ((make_amount_iff (decimal p.amount.value) p.amount).0 v.amount).1 in
      let s : PaymentModel = sys.store (payment_to_model p h) in
      record {
        amount =
            (make_amount_iff (decimal s.amount) (record { value = s.amount })).1
              (refl, ((lawful.store_keeps (payment_to_model p h)).amount amount).0);
        key = v.key;
        url = v.url;
        created = v.created;
        processed = v.processed;
      }

  pub store-IsRow :
      (p : Payment) (h : Text) (now : Instant)
      → IsPayment p
      → p.created_at ≡ in_utc now
      → IsRow (sys.store (payment_to_model p h))
  store-IsRow p h now v e = record {
    payment = stored_payment sys p h;
    reads =
        subst (λ r. payment_from_model r ≡ ok (stored_payment sys p h))
          (sym (store-payment_to_model p h now e))
          (payment_from_model-payment_to_model (stored_payment sys p h) h
            (stored_payment-IsPayment p h v));
    valid = stored_payment-IsPayment p h v;
  }

  -- The message that is added with a payment announces the row that is stored.
  pub store-IsEventOf :
      (p : Payment) (h : Text) (id : Uuid) (now : ℕ)
      → IsEventOf
          (sys.store (payment_to_model p h))
          (record (outbox_row (payment_created p id)) { created_at = now })
  unfolding payment_to_model outbox_row payment_created get_field
  store-IsEventOf p h id now =
      let r : PaymentModel = payment_to_model p h in
      let same : (sys.store r).id ≡ p.id =
        ap (λ (x : PaymentModel). x.id) (lawful.store_keeps r).same in
      record {
        aggregate = sym same;
        type = refl;
        payment_id = rw (text_eq_refl (lit "payment_id"), same);
      }

Distinct-append :
    (rs : List PaymentModel) (r : PaymentModel)
    → Distinct rs
    → IdFree r.id rs
    → KeyFree r.idempotency_key rs
    → Distinct (rs ++ r ∷ [])
Distinct-append [] r d i k = (tt, tt, tt)
Distinct-append (s ∷ rs) r d i k = (
  All-append (λ x. x.id ≢ s.id) rs (r ∷ []) d.0 ((λ e. i.0 (sym e)), tt),
  All-append (λ x. x.idempotency_key ≢ s.idempotency_key) rs (r ∷ []) d.1 ((λ e. k.0 (sym e)), tt),
  Distinct-append rs r d.2 i.1 k.1,
)

Announced-append :
    (rs : List PaymentModel) (ms : List OutboxMessageModel) (r : PaymentModel)
    (m : OutboxMessageModel)
    → Announced rs ms
    → IsEventOf r m
    → Announced (rs ++ r ∷ []) (ms ++ m ∷ [])
Announced-append [] [] r m a e = (e, tt)
Announced-append [] (n ∷ ms) r m a e = absurd a
Announced-append (s ∷ rs) [] r m a e = absurd a
Announced-append (s ∷ rs) (n ∷ ms) r m a e = (a.0, Announced-append rs ms r m a.1 e)

pub find-append :
    (id : Uuid) (rs : List PaymentModel) (r : PaymentModel)
    → IdFree r.id rs
    → find_payment id (rs ++ r ∷ []) ≡ (if r.id == id then some r else find_payment id rs)
find-append id [] r h = refl
find-append id (s ∷ rs) r h = ground (arith, h.0, find-append id rs r h.1)

find-append_later :
    (id : Uuid) (rs ss : List PaymentModel)
    → LaterOption (find_payment id rs) (find_payment id (rs ++ ss))
find-append_later id [] ss = tt
find-append_later id (s ∷ rs) ss = elim (Bool-cases (s.id == id)) [
  | inl e ↦ rw e (LaterOption-refl (some s))
  | inr e ↦ rw e (find-append_later id rs ss)
]

-- Rows that are added to the end change none that were there.
pub append-Evolves :
    (t : Tables) (ss : List PaymentModel) (os : List OutboxMessageModel)
    → Evolves t (record { payments = t.payments ++ ss; outbox = os })
append-Evolves t ss os = record { at = λ id. find-append_later id t.payments ss }

pub inserted-IsTables :
    {sys : System} (lawful : IsLawful sys) (r : PaymentModel) (m : OutboxMessageModel) (now : ℕ)
    (t : Tables)
    → Insertable sys r m t
    → IsRow (sys.store r)
    → IsEventOf (sys.store r) (record m { created_at = now })
    → IsTables t
    → IsTables (inserted sys r m now t)
inserted-IsTables {sys} lawful r m now t free row event h =
    let same = (lawful.store_keeps r).same in
    let id : (sys.store r).id ≡ r.id = ap (λ (x : PaymentModel). x.id) same in
    let key : (sys.store r).idempotency_key ≡ r.idempotency_key =
      ap (λ (x : PaymentModel). x.idempotency_key) same in
    record {
      distinct =
          Distinct-append t.payments (sys.store r) h.distinct (rw id free.id_free)
            (rw key free.key_free);
      rows = All-append IsRow t.payments (sys.store r ∷ []) h.rows (row, tt);
      announced = Announced-append t.payments t.outbox (sys.store r) _ h.announced event;
    }
