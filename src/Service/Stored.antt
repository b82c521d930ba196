-- ===== src/Service/Stored.antt =====
-- app/application/payment/use_cases/create_payment.py: what a replayed payment stands for.
use secunda_test.Base.{
  ◌≡◌, sym, ap, ◌∙◌, Bool-cases, Option, none, some, List, Text, text_eq, ==_refl, text_eq_sound,
  Exc, ok, first, first-some, first_unique, Member, inl, inr, domain_error,
  invalid_status_transition_error, payment_not_found_error, idempotency_conflict_error,
  duplicate_idempotency_key_error, webhook_delivery_error, integrity_error, retry_error,
  http_exception, http_error, other_error, cancelled_error,
}
use mathlib.Core.Path.{subst}
use secunda_test.Exec.{Returns, continue-Returns, continue}
use secunda_test.Domain.Payment.{Payment}
use secunda_test.Application.Dto.{CreatePaymentCommand, StoredPayment, CreatePaymentResult}
use secunda_test.Application.CreatePayment.{replay, replayed, after_race, on_commit_error}
use secunda_test.Infrastructure.Models.{PaymentModel, Tables, find_payment, Distinct}
use secunda_test.Infrastructure.Mappers.{payment_from_model, payment_to_model}
use secunda_test.Infrastructure.Mappers.RoundTrip.{payment_to_model-payment_from_model}
use secunda_test.Infrastructure.Invariant.{IsTables, find-eq-first, count_id-le-one}
use secunda_test.Infrastructure.Platform.{System, World}
use secunda_test.Infrastructure.Platform.Laws.{IsLawful}
use secunda_test.Infrastructure.Session.{seen, arrived, rollback, unit_of_work}
use secunda_test.Infrastructure.Session.Steady.{Steady, arrived-Steady, rollback-Steady, seen_clean}
use secunda_test.Infrastructure.Repositories.{
  payment_repository, has_id, has_key, get_by_idempotency_key,
}
use secunda_test.Infrastructure.Repositories.Reading.{get_by_key-stands, get_by_key-world}
use secunda_test.Service.Creating.{the_replayed, the_after_race, the_on_error}

-- The payment's row stands in the tables, under the command's key and with its hash.
pub record Stands (command : CreatePaymentCommand) (p : Payment) (t : Tables) : Type 0 where
  pub row : PaymentModel
  pub found : find_payment p.id t.payments ≡ some row
  pub key : row.idempotency_key ≡ command.idempotency_key
  pub hash : row.request_hash ≡ command.request_hash

id-payment_from_model : (r : PaymentModel) (p : Payment) → payment_from_model r ≡ ok p → p.id ≡ r.id
unfolding payment_to_model
id-payment_from_model r p h =
    ap (λ (x : PaymentModel). x.id) (payment_to_model-payment_from_model r p h)

find-Member :
    (r : PaymentModel) (rs : List PaymentModel)
    → Distinct rs
    → Member r rs
    → find_payment r.id rs ≡ some r
find-Member r rs distinct member =
    find-eq-first r.id rs
    ∙ first_unique (has_id r.id) rs (count_id-le-one r.id rs distinct) member (==_refl r.id)

module _ (sys : System) (command : CreatePaymentCommand) where
  abbrev pub Answered : CreatePaymentResult → World → Type 0
  Answered result w = Stands command result.payment w.tables

  -- A stored payment that is replayed under the same hash.
  replayed-Returns :
      (s : StoredPayment) (r : PaymentModel) (w : World)
      → IsTables w.tables
      → first (has_key command.idempotency_key) w.tables.payments ≡ some r
      → payment_from_model r ≡ ok s.payment
      → s.request_hash ≡ r.request_hash
      → Returns Answered (the_replayed sys command s w)
  unfolding replayed replay
  replayed-Returns s r w valid there reads same =
      elim (Bool-cases (text_eq s.request_hash command.request_hash)) [
        | inr e ↦ rw (e, continue) tt
        | inl e ↦
            let (member, key) =
              first-some (has_key command.idempotency_key) w.tables.payments there in
            rw (e, continue)
              (record {
                row = r;
                found =
                    ap (λ id. find_payment id w.tables.payments)
                      (id-payment_from_model r s.payment reads)
                    ∙ find-Member r w.tables.payments valid.distinct member;
                key = text_eq_sound r.idempotency_key command.idempotency_key key;
                hash = sym same ∙ text_eq_sound s.request_hash command.request_hash e;
              })
      ]

module _ {sys : System} (lawful : IsLawful sys) (command : CreatePaymentCommand) (t : Tables) where
  pub stored-Returns :
      (s : StoredPayment) (w : World)
      → Steady t w
      → (get_by_idempotency_key sys command.idempotency_key w).0 ≡ ok (some s)
      → Returns
          (Answered sys command)
          (the_replayed sys command s (get_by_idempotency_key sys command.idempotency_key w).1)
  stored-Returns s w h e =
      let key : Text = command.idempotency_key in
      let v : World = arrived sys w in
      let hv : Steady t v = arrived-Steady lawful t w h in
      let same : seen v ≡ v.tables = seen_clean v hv.clean in
      let stored = get_by_key-stands lawful w (subst IsTables (sym same) hv.valid) key e in
      subst (λ (u : World). Returns (Answered sys command) (the_replayed sys command s u))
        (sym (get_by_key-world sys key w))
        (replayed-Returns sys command s stored.0 v hv.valid
          (ap (λ (u : Tables). first (has_key key) u.payments) (sym same) ∙ stored.1) stored.2
          stored.3)

  after_race-Returns :
      (e : Exc) (o : Option StoredPayment) (w : World)
      → Steady t w
      → (get_by_idempotency_key sys command.idempotency_key w).0 ≡ ok o
      → Returns
          (Answered sys command)
          (the_after_race sys command e o (get_by_idempotency_key sys command.idempotency_key w).1)
  unfolding after_race
  after_race-Returns e none w h q = tt
  after_race-Returns e (some s) w h q = stored-Returns s w h q

  pub on_error-Returns :
      (e : Exc) (w : World)
      → Steady t w
      → Returns (Answered sys command) (the_on_error sys command e w)
  unfolding on_commit_error payment_repository unit_of_work
  on_error-Returns (duplicate_idempotency_key_error m) w h =
      continue-Returns (Answered sys command)
        (get_by_idempotency_key sys command.idempotency_key (rollback w).1).0
        (the_after_race sys command (duplicate_idempotency_key_error m))
        (get_by_idempotency_key sys command.idempotency_key (rollback w).1).1
        (λ o q.
          after_race-Returns (duplicate_idempotency_key_error m) o (rollback w).1
            (rollback-Steady lawful t w h) q)
  on_error-Returns (domain_error m) w h = tt
  on_error-Returns (invalid_status_transition_error m) w h = tt
  on_error-Returns (payment_not_found_error m) w h = tt
  on_error-Returns (idempotency_conflict_error m) w h = tt
  on_error-Returns (webhook_delivery_error m) w h = tt
  on_error-Returns (integrity_error m) w h = tt
  on_error-Returns (retry_error m) w h = tt
  on_error-Returns (http_exception k m) w h = tt
  on_error-Returns (http_error k m) w h = tt
  on_error-Returns (other_error k m) w h = tt
  on_error-Returns cancelled_error w h = tt
