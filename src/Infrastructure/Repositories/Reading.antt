-- ===== src/Infrastructure/Repositories/Reading.antt =====
-- app/infrastructure/db/repositories/payment.py: what the two queries return.
use secunda_test.Base.{
  ◌≤◌, ◌≡◌, refl, sym, ◌∙◌, Bool, true, none, some, List, [], ◌∷◌, Text, length, All, Member, first,
  count, first_unique, Exc, ok, err, arith, Option-cases, inl, inr,
}
use secunda_test.Py.Uuid.{Uuid}
use secunda_test.Domain.Payment.{Payment}
use secunda_test.Application.Dto.{StoredPayment}
use secunda_test.Infrastructure.Models.{PaymentModel, Tables, find_payment}
use secunda_test.Infrastructure.Invariant.{
  IsTables, find-eq-first, count_key-le-one, count_id-le-one,
}
use secunda_test.Infrastructure.Platform.{System, World}
use secunda_test.Infrastructure.Platform.Laws.{IsLawful}
use secunda_test.Infrastructure.Session.{seen, arrived}
use secunda_test.Infrastructure.Repositories.{
  scalar_one_or_none, read_payment, read_stored, has_id, has_key, select_one, get,
  get_by_idempotency_key,
}
use secunda_test.Infrastructure.Session.Statements.{statement-ok, statement-fault}
use secunda_test.Infrastructure.Mappers.{payment_from_model}
use secunda_test.Exec.{continue-lift}

module _ (p : PaymentModel → Bool) where
  first-count_zero : (rows : List PaymentModel) → count p rows ≡ 0 → first p rows ≡ none
  first-count_zero [] h = refl
  first-count_zero (r ∷ rows) h = ground (arith, first-count_zero rows)

  scalar-first :
      (rows xs : List PaymentModel)
      → All (λ r. Member r rows × (p r ≡ true)) xs
      → length xs ≡ count p rows
      → count p rows ≤ 1
      → scalar_one_or_none xs ≡ ok (first p rows)
  unfolding scalar_one_or_none
  scalar-first rows [] sound len one = rw (first-count_zero rows (sym len))
  scalar-first rows (x ∷ []) sound len one = rw (first_unique p rows one sound.0.0 sound.0.1)
  scalar-first rows (x ∷ y ∷ xs) sound len one = absurd (omega arith)

module _ {sys : System} (lawful : IsLawful sys) where
  -- A query that one row at most answers returns that row; `MultipleResultsFound` is not raised.
  pub select_one-first :
      (p : PaymentModel → Bool) (w : World)
      → sys.statement_fault w.statements ≡ none
      → count p (seen (arrived sys w)).payments ≤ 1
      → select_one sys p w ≡ (ok (first p (seen (arrived sys w)).payments), arrived sys w)
  unfolding select_one
  select_one-first p w fault one =
      let t : Tables = seen (arrived sys w) in
      rw (
        statement-ok sys w fault,
        scalar-first p t.payments (sys.select_payments p t) (lawful.select_sound p t)
            (lawful.select_length p t) one,
      )

-- A statement whose connection fails raises, whatever it asks for.
pub select_one-fault :
    (sys : System) (p : PaymentModel → Bool) (w : World) (e : Exc)
    → sys.statement_fault w.statements ≡ some e
    → select_one sys p w ≡ (err e, arrived sys w)
unfolding select_one
select_one-fault sys p w e fault = rw (statement-fault sys w e fault)

pub select_one-world :
    (sys : System) (p : PaymentModel → Bool) (w : World) → (select_one sys p w).1 ≡ arrived sys w
unfolding select_one
select_one-world sys p w = elim (Option-cases (sys.statement_fault w.statements)) [
  | inl e ↦ rw (statement-ok sys w e)
  | inr (x, e) ↦ rw (statement-fault sys w x e)
]

read_payment-ok :
    (r : PaymentModel) (p : Payment)
    → payment_from_model r ≡ ok p
    → read_payment (some r) ≡ ok (some p)
unfolding read_payment
read_payment-ok r p reads = rw (reads, read_payment)

read_stored-ok :
    (r : PaymentModel) (p : Payment)
    → payment_from_model r ≡ ok p
    → read_stored (some r) ≡ ok (some (record { payment = p; request_hash = r.request_hash }))
unfolding read_stored
read_stored-ok r p reads = rw (reads, read_stored)

read_stored-stands :
    (r : PaymentModel) (s : StoredPayment)
    → read_stored (some r) ≡ ok (some s)
    → (payment_from_model r ≡ ok s.payment) × (s.request_hash ≡ r.request_hash)
unfolding read_stored
read_stored-stands r s e = ground arith

module _ {sys : System} (lawful : IsLawful sys) (w : World)
    (h : IsTables (seen (arrived sys w))) where
  -- The payment with an identifier that stands in the table.
  pub get-found :
      (id : Uuid) (r : PaymentModel) (p : Payment)
      → sys.statement_fault w.statements ≡ none
      → find_payment id (seen (arrived sys w)).payments ≡ some r
      → payment_from_model r ≡ ok p
      → get sys id w ≡ (ok (some p), arrived sys w)
  unfolding get
  get-found id r p fault there reads = rw (
    select_one-first lawful (has_id id) w fault
        (count_id-le-one id (seen (arrived sys w)).payments h.distinct),
    ← find-eq-first id (seen (arrived sys w)).payments,
    there,
    read_payment-ok r p reads,
  )

  pub get-missing :
      (id : Uuid)
      → sys.statement_fault w.statements ≡ none
      → find_payment id (seen (arrived sys w)).payments ≡ none
      → get sys id w ≡ (ok none, arrived sys w)
  unfolding get read_payment
  get-missing id fault there = rw (
    select_one-first lawful (has_id id) w fault
        (count_id-le-one id (seen (arrived sys w)).payments h.distinct),
    ← find-eq-first id (seen (arrived sys w)).payments,
    there,
  )

  -- The payment that was stored under a key, with the hash of its request.
  pub get_by_key-found :
      (key : Text) (r : PaymentModel) (p : Payment)
      → sys.statement_fault w.statements ≡ none
      → first (has_key key) (seen (arrived sys w)).payments ≡ some r
      → payment_from_model r ≡ ok p
      → get_by_idempotency_key sys key w
        ≡ (ok (some (record { payment = p; request_hash = r.request_hash })), arrived sys w)
  unfolding get_by_idempotency_key
  get_by_key-found key r p fault there reads = rw (
    select_one-first lawful (has_key key) w fault
        (count_key-le-one key (seen (arrived sys w)).payments h.distinct),
    there,
    read_stored-ok r p reads,
  )

  pub get_by_key-missing :
      (key : Text)
      → sys.statement_fault w.statements ≡ none
      → first (has_key key) (seen (arrived sys w)).payments ≡ none
      → get_by_idempotency_key sys key w ≡ (ok none, arrived sys w)
  unfolding get_by_idempotency_key read_stored
  get_by_key-missing key fault there = rw (
    select_one-first lawful (has_key key) w fault
        (count_key-le-one key (seen (arrived sys w)).payments h.distinct),
    there,
  )

  -- Whatever the query returns is what stands in the table.
  pub get_by_key-stands :
      (key : Text) {s : StoredPayment}
      → (get_by_idempotency_key sys key w).0 ≡ ok (some s)
      → (r : PaymentModel) × (first (has_key key) (seen (arrived sys w)).payments ≡ some r)
        × (payment_from_model r ≡ ok s.payment)
        × (s.request_hash ≡ r.request_hash)
  unfolding get_by_idempotency_key
  get_by_key-stands key {s = s} e = elim (Option-cases (sys.statement_fault w.statements)) [
    | inr (x, fault) ↦ cc (rw (select_one-fault sys (has_key key) w x fault) at e)
    | inl fault ↦
        let found =
          select_one-first lawful (has_key key) w fault
            (count_key-le-one key (seen (arrived sys w)).payments h.distinct) in
        elim (Option-cases (first (has_key key) (seen (arrived sys w)).payments)) [
          | inl gone ↦ cc (rw (found, gone) at e)
          | inr (r, there) ↦
              let (reads, same) = read_stored-stands r s (rw (found, there) at e) in
              (r, there, reads, same)
        ]
  ]

pub get-world : (sys : System) (id : Uuid) (w : World) → (get sys id w).1 ≡ arrived sys w
unfolding get
get-world sys id w =
    continue-lift (select_one sys (has_id id) w).0 read_payment (select_one sys (has_id id) w).1
    ∙ select_one-world sys (has_id id) w

pub get_by_key-world :
    (sys : System) (key : Text) (w : World) → (get_by_idempotency_key sys key w).1 ≡ arrived sys w
unfolding get_by_idempotency_key
get_by_key-world sys key w =
    continue-lift (select_one sys (has_key key) w).0 read_stored (select_one sys (has_key key) w).1
    ∙ select_one-world sys (has_key key) w
