-- ===== src/Service/Creating.antt =====
-- app/application/payment/use_cases/create_payment.py: the tables under the creation of a payment.
use secunda_test.Base.{
  ◌+◌, ◌≡◌, refl, true, Option, none, some, [], ◌∷◌, ◌++◌, Exc, ok, err, Result-cases, inl, inr,
}
use secunda_test.Exec.{Exec, continue, catch, pure, ◌>>=◌, ◌>>◌}
use secunda_test.Domain.Payment.{Payment}
use secunda_test.Application.Dto.{CreatePaymentCommand, StoredPayment, CreatePaymentResult}
use secunda_test.Application.Events.{payment_created}
use secunda_test.Application.CreatePayment.{
  replay, replayed, new_payment, after_race, on_commit_error, create_new, or_create, create_payment,
}
use secunda_test.Infrastructure.Mappers.{payment_to_model}
use secunda_test.Infrastructure.Platform.{System, World, interpreter}
use secunda_test.Infrastructure.Session.{commit, unit_of_work}
use secunda_test.Infrastructure.Repositories.{
  payment_repository, outbox_repository, outbox_row, get_by_idempotency_key,
}
use secunda_test.Service.{create_use_case}

-- Nothing is open in the session: neither an UPDATE nor a row that is to be inserted.
pub record IsIdle (w : World) : Type 0 where
  pub clean : w.dirty ≡ none
  pub no_payments : w.new_payments ≡ []
  pub no_outbox : w.new_outbox ≡ []

module _ (sys : System) (command : CreatePaymentCommand) where
  abbrev pub the_replayed : StoredPayment → Exec World CreatePaymentResult
  the_replayed s =
      replayed (payment_repository sys) outbox_repository (unit_of_work sys) (interpreter sys) s
        command

  abbrev pub the_after_race : Exc → Option StoredPayment → Exec World CreatePaymentResult
  the_after_race =
      after_race (payment_repository sys) outbox_repository (unit_of_work sys) (interpreter sys)
        command

  abbrev pub the_on_error : Exc → Exec World CreatePaymentResult
  the_on_error =
      on_commit_error (payment_repository sys) outbox_repository (unit_of_work sys)
        (interpreter sys) command

  abbrev pub the_create_new : Exec World CreatePaymentResult
  the_create_new =
      create_new (payment_repository sys) outbox_repository (unit_of_work sys) (interpreter sys)
        command

  abbrev pub the_or_create : Option StoredPayment → Exec World CreatePaymentResult
  the_or_create =
      or_create (payment_repository sys) outbox_repository (unit_of_work sys) (interpreter sys)
        command

  abbrev pub the_payment : Exec World Payment
  the_payment =
      new_payment (payment_repository sys) outbox_repository (unit_of_work sys) (interpreter sys)
        command

  -- The session once the payment and its event are added to it.
  abbrev pub staged : Payment → World → World
  staged p v = record v {
    new_payments = v.new_payments ++ payment_to_model p command.request_hash ∷ [];
    uuids_drawn = v.uuids_drawn + 1;
    new_outbox = v.new_outbox ++ outbox_row (payment_created p (sys.uuids v.uuids_drawn)) ∷ [];
  }

  abbrev pub committing : Payment → Exec World CreatePaymentResult
  committing p = do commit sys; pure (record { payment = p; created = true })

  -- The commit in its `try`.
  abbrev pub finish : Payment → Exec World CreatePaymentResult
  finish p = catch (committing p) the_on_error

  pub replayed-world : (s : StoredPayment) (v : World) → (the_replayed s v).1 ≡ v
  unfolding replayed
  replayed-world s v = elim (Result-cases (replay s command)) [
    | inl (p, h) ↦ rw (h, continue)
    | inr (e, h) ↦ rw (h, continue)
  ]

  pub after_race-world :
      (e : Exc) (o : Option StoredPayment) (v : World) → (the_after_race e o v).1 ≡ v
  unfolding after_race
  after_race-world e none v = refl
  after_race-world e (some s) v = replayed-world s v

  pub create_use_case-lem :
      (w : World)
      → create_use_case sys command w
        ≡ (get_by_idempotency_key sys command.idempotency_key >>= the_or_create) w
  unfolding create_use_case create_payment payment_repository
  create_use_case-lem w = refl

  pub create_new-lem :
      (w : World) (p : Payment)
      → (the_payment w).0 ≡ ok p
      → the_create_new w ≡ finish p (staged p (the_payment w).1)
  unfolding create_new payment_repository outbox_repository unit_of_work interpreter
  create_new-lem w p h = rw (h, continue)

  pub create_new-fault :
      (w : World) (e : Exc)
      → (the_payment w).0 ≡ err e
      → the_create_new w ≡ (err e, (the_payment w).1)
  unfolding create_new
  create_new-fault w e h = rw (h, continue)
