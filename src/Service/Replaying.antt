-- ===== src/Service/Replaying.antt =====
-- app/application/payment/use_cases/create_payment.py and get_payment.py: a request whose key, or
-- whose identifier, stands in the table.
use secunda_test.Base.{
  ◌≡◌, refl, ap, ◌∙◌, true, false, Bool-cases, Option, Option-cases, none, some, List, ◌++◌, Text,
  lit, text_eq, idempotency_conflict_error, payment_not_found_error, Result, ok, err, first, inl,
  inr, arith,
}
use secunda_test.Exec.{continue, lift}
use secunda_test.Py.Uuid.{Uuid, show_uuid}
use secunda_test.Domain.Payment.{Payment}
use secunda_test.Application.Dto.{CreatePaymentCommand, StoredPayment, CreatePaymentResult}
use secunda_test.Application.CreatePayment.{replay, replayed, or_create}
use secunda_test.Application.GetPayment.{get_payment, found}
use secunda_test.Infrastructure.Models.{PaymentModel, find_payment}
use secunda_test.Infrastructure.Mappers.{payment_from_model}
use secunda_test.Infrastructure.Invariant.{IsTables, IsRow, find-All}
use secunda_test.Infrastructure.Platform.{System, World}
use secunda_test.Infrastructure.Platform.Laws.{IsLawful}
use secunda_test.Infrastructure.Session.{seen, arrived}
use secunda_test.Infrastructure.Repositories.{has_key, get, payment_repository}
use secunda_test.Infrastructure.Repositories.Reading.{get_by_key-found, get-found, get-missing}
use secunda_test.Service.{create_use_case, get_use_case}
use secunda_test.Service.Creating.{the_or_create, create_use_case-lem}

-- What a client gets that uses a key again.
abbrev pub answer : CreatePaymentCommand → Payment → Text → Result CreatePaymentResult
answer command p hash = elim (text_eq hash command.request_hash) [
  | true ↦ ok (record { payment = p; created = false })
  | false ↦ err (
      idempotency_conflict_error (
        lit "Ключ идемпотентности "
        ++ (command.idempotency_key ++ lit " уже использован с другим телом запроса")))
]

replayed-answer :
    (sys : System) (command : CreatePaymentCommand) (p : Payment) (hash : Text) (v : World)
    → the_or_create sys command (some (record { payment = p; request_hash = hash })) v
      ≡ (answer command p hash, v)
unfolding or_create replayed replay
replayed-answer sys command p hash v = elim (Bool-cases (text_eq hash command.request_hash)) [
  | inl e ↦ ground (arith, e)
  | inr e ↦ ground (arith, e)
]

-- Under a lawful system, if the query's statement does not fail and a row with the command's key
-- stands in a well-formed table and is read as `p`, then the creation returns `p`, marked as not
-- created, if the hash of the request is the row's, and raises `IdempotencyConflictError` if not;
-- it changes nothing beyond what the arrival of the query does.
pub create_use_case-replays :
    (sys : System) (command : CreatePaymentCommand) (w : World) (r : PaymentModel) (p : Payment)
    → IsLawful sys
    → IsTables (seen (arrived sys w))
    → sys.statement_fault w.statements ≡ none
    → first (has_key command.idempotency_key) (seen (arrived sys w)).payments ≡ some r
    → payment_from_model r ≡ ok p
    → create_use_case sys command w ≡ (answer command p r.request_hash, arrived sys w)
create_use_case-replays sys command w r p lawful valid fault there reads =
    let found = get_by_key-found lawful w valid command.idempotency_key r p fault there reads in
    create_use_case-lem sys command w
    ∙ ap
        (λ (q : Result (Option StoredPayment) × World).
          continue q.0 (the_or_create sys command) q.1)
        found
    ∙ replayed-answer sys command p r.request_hash (arrived sys w)

-- What the endpoint of one payment gets.
abbrev pub lookup : Uuid → Option Payment → Result Payment
lookup id none = err (payment_not_found_error (lit "Платёж " ++ (show_uuid id ++ lit " не найден")))
lookup id (some p) = ok p

found-lookup : (id : Uuid) (o : Option Payment) → found id o ≡ lookup id o
unfolding found
found-lookup id none = refl
found-lookup id (some p) = refl

get_use_case-step :
    (sys : System) (id : Uuid) (w : World) (o : Option Payment)
    → get sys id w ≡ (ok o, arrived sys w)
    → get_use_case sys id w ≡ (lookup id o, arrived sys w)
unfolding get_use_case get_payment payment_repository
get_use_case-step sys id w o e =
    ap
      (λ (q : Result (Option Payment) × World).
        continue q.0 (λ (payment : Option Payment). lift (found id payment)) q.1)
      e
    ∙ ap (λ (x : Result Payment). (x, arrived sys w)) (found-lookup id o)

-- The row that is found, if any, is read as the payment.
abbrev pub ReadAs : Option PaymentModel → Option Payment → Type 0
ReadAs none none = Unit {0}
ReadAs (some r) (some p) = payment_from_model r ≡ ok p
ReadAs _ _ = ⊥

-- Under a lawful system, if the query's statement does not fail and the tables are well-formed,
-- then the use case returns the payment that the row with the identifier is read as, and raises
-- `PaymentNotFoundError` if there is no such row; it changes nothing beyond what the arrival of the
-- query does.
pub get_use_case-lookup :
    (sys : System) (id : Uuid) (w : World)
    → IsLawful sys
    → IsTables (seen (arrived sys w))
    → sys.statement_fault w.statements ≡ none
    → (o : Option Payment) × ReadAs (find_payment id (seen (arrived sys w)).payments) o
      × (get_use_case sys id w ≡ (lookup id o, arrived sys w))
get_use_case-lookup sys id w lawful valid fault =
    let rows : List PaymentModel = (seen (arrived sys w)).payments in
    elim (Option-cases (find_payment id rows)) [
      | inl gone ↦ (
        none,
        rw gone tt,
        get_use_case-step sys id w none (get-missing lawful w valid id fault gone),
      )
      | inr (r, there) ↦
          let row : IsRow r = find-All IsRow id rows valid.rows there in
          (
            some row.payment,
            rw there row.reads,
            get_use_case-step sys id w (some row.payment)
                (get-found lawful w valid id r row.payment fault there row.reads),
          )
    ]
