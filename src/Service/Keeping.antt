-- ===== src/Service/Keeping.antt =====
-- app/application/payment/use_cases/create_payment.py: the creation of a payment keeps the
-- invariant of the tables and every payment that stands in them.
use mathlib.Core.Path.{subst}
use secunda_test.Base.{
  ◌≡◌, sym, ap, ◌∙◌, Option, none, some, [], ◌∷◌, ◌++◌, Text, Exc, domain_error,
  invalid_status_transition_error, payment_not_found_error, idempotency_conflict_error,
  duplicate_idempotency_key_error, webhook_delivery_error, integrity_error, retry_error,
  http_exception, http_error, other_error, cancelled_error, Result, Result-cases, inl, inr,
}
use secunda_test.Exec.{bind-keeps, catch-keeps}
use secunda_test.Domain.Payment.{Payment}
use secunda_test.Domain.Payment.Invariant.{IsPayment}
use secunda_test.Infrastructure.Mappers.{payment_to_model}
use secunda_test.Application.Dto.{CreatePaymentCommand, StoredPayment, CreatePaymentResult}
use secunda_test.Application.CreatePayment.{on_commit_error, or_create}
use secunda_test.Infrastructure.Models.{Tables}
use secunda_test.Py.Uuid.{Uuid}
use secunda_test.Py.Datetime.{Instant, in_utc}
use secunda_test.Application.Events.{payment_created}
use secunda_test.Infrastructure.Invariant.{IsTables, Evolves, Evolves-refl}
use secunda_test.Infrastructure.Platform.{System, World}
use secunda_test.Infrastructure.Platform.Laws.{IsLawful}
use secunda_test.Infrastructure.Session.{arrived, commit, unit_of_work}
use secunda_test.Infrastructure.Session.Steady.{
  Steady, arrived-Steady, rollback-Steady, commit-Steady,
}
use secunda_test.Infrastructure.Repositories.{
  payment_repository, outbox_row, get_by_idempotency_key,
}
use secunda_test.Infrastructure.Repositories.Reading.{get_by_key-world}
use secunda_test.Service.{create_use_case}
use secunda_test.Service.NewPayment.{
  IsRequested, SameSession, new_payment-SameSession, new_payment-IsRequested,
}
use secunda_test.Service.Creating.{
  IsIdle, replayed-world, after_race-world, create_new-lem, the_on_error, the_create_new,
  the_payment, the_after_race, the_or_create, create_new-fault, create_use_case-lem, committing,
  staged, finish,
}

pub SameSession-Steady : {t : Tables} {w v : World} → SameSession w v → Steady t w → Steady t v
SameSession-Steady {t} same h = record {
  clean = same.dirty ∙ h.clean;
  valid = subst IsTables (sym same.tables) h.valid;
  evolved = subst (Evolves t) (sym same.tables) h.evolved;
}

module _ {sys : System} (lawful : IsLawful sys) (command : CreatePaymentCommand) (t : Tables) where
  pub query-Steady :
      (key : Text) (w : World) → Steady t w → Steady t (get_by_idempotency_key sys key w).1
  query-Steady key w h =
      subst (Steady t) (sym (get_by_key-world sys key w)) (arrived-Steady lawful t w h)

  on_error-Steady : (e : Exc) (w : World) → Steady t w → Steady t (the_on_error sys command e w).1
  unfolding on_commit_error payment_repository unit_of_work
  on_error-Steady (duplicate_idempotency_key_error m) w h =
      bind-keeps (Steady t) (get_by_idempotency_key sys command.idempotency_key)
        (the_after_race sys command (duplicate_idempotency_key_error m)) _
        (query-Steady command.idempotency_key _ (rollback-Steady lawful t w h))
        (λ o.
          subst (Steady t) (sym (after_race-world sys command _ o _))
            (query-Steady command.idempotency_key _ (rollback-Steady lawful t w h)))
  on_error-Steady (domain_error m) w h = h
  on_error-Steady (invalid_status_transition_error m) w h = h
  on_error-Steady (payment_not_found_error m) w h = h
  on_error-Steady (idempotency_conflict_error m) w h = h
  on_error-Steady (webhook_delivery_error m) w h = h
  on_error-Steady (integrity_error m) w h = h
  on_error-Steady (retry_error m) w h = h
  on_error-Steady (http_exception k m) w h = h
  on_error-Steady (http_error k m) w h = h
  on_error-Steady (other_error k m) w h = h
  on_error-Steady cancelled_error w h = h

  pub committing-Steady :
      (p : Payment) (w : World)
      → Steady t w
      → IsPayment p
      → ((now : Instant) × (p.created_at ≡ in_utc now))
      → w.new_payments ≡ []
      → w.new_outbox ≡ []
      → Steady t (committing sys command p (staged sys command p w)).1
  committing-Steady p w h valid created no_p no_o =
      let v : World = staged sys command p w in
      let hv : Steady t v = record { clean = h.clean; valid = h.valid; evolved = h.evolved } in
      let id : Uuid = sys.uuids w.uuids_drawn in
      let done : Steady t (commit sys v).1 =
        commit-Steady lawful t p command.request_hash id created.0 valid created.1 v hv
          (ap (λ rows. rows ++ payment_to_model p command.request_hash ∷ []) no_p)
          (ap (λ rows. rows ++ outbox_row (payment_created p id) ∷ []) no_o) in
      bind-keeps (Steady t) (commit sys) _ v done (λ a. done)

  finish-Steady :
      (p : Payment) (w : World)
      → Steady t (committing sys command p w).1
      → Steady t (finish sys command p w).1
  finish-Steady p w steps =
      catch-keeps (Steady t) (committing sys command p) (the_on_error sys command) w steps
        (λ e. on_error-Steady e _ steps)

  create_new-Steady :
      (w : World)
      → Steady t w
      → w.new_payments ≡ []
      → w.new_outbox ≡ []
      → Steady t (the_create_new sys command w).1
  create_new-Steady w h no_p no_o =
      let same : SameSession w (the_payment sys command w).1 =
        new_payment-SameSession sys command w in
      let hw : Steady t (the_payment sys command w).1 = SameSession-Steady same h in
      elim (Result-cases (the_payment sys command w).0) [
        | inr (e, f) ↦
            subst (λ (q : Result CreatePaymentResult × World). Steady t q.1)
              (sym (create_new-fault sys command w e f)) hw
        | inl (p, f) ↦
            let new : IsRequested command p = new_payment-IsRequested sys command w f in
            subst (λ (q : Result CreatePaymentResult × World). Steady t q.1)
              (sym (create_new-lem sys command w p f))
              (finish-Steady p _ (
                committing-Steady p (the_payment sys command w).1 hw new.valid new.created
                  (same.new_payments ∙ no_p) (same.new_outbox ∙ no_o)))
      ]

  or_create-Steady :
      (o : Option StoredPayment) (w : World)
      → Steady t w
      → w.new_payments ≡ []
      → w.new_outbox ≡ []
      → Steady t (the_or_create sys command o w).1
  unfolding or_create
  or_create-Steady none w h no_p no_o = create_new-Steady w h no_p no_o
  or_create-Steady (some s) w h no_p no_o =
      subst (Steady t) (sym (replayed-world sys command s w)) h

-- Under a lawful system, a creation from an idle session over tables that satisfy the invariant
-- leaves, whatever it returns or raises and whatever other sessions commit meanwhile, tables that
-- satisfy the invariant and have evolved from those before.
pub create_use_case-keeps :
    (sys : System) (command : CreatePaymentCommand) (w : World)
    → IsLawful sys
    → IsIdle w
    → IsTables w.tables
    → IsTables (create_use_case sys command w).1.tables
      × Evolves w.tables (create_use_case sys command w).1.tables
create_use_case-keeps sys command w lawful idle valid =
    let key : Text = command.idempotency_key in
    let h : Steady w.tables w = record {
      clean = idle.clean;
      valid = valid;
      evolved = Evolves-refl w.tables;
    } in
    let v : World = (get_by_idempotency_key sys key w).1 in
    let hv : Steady w.tables v = query-Steady lawful command w.tables key w h in
    let rows : arrived sys w ≡ v = sym (get_by_key-world sys key w) in
    let end : Steady w.tables (create_use_case sys command w).1 =
      subst (λ (q : Result CreatePaymentResult × World). Steady w.tables q.1)
        (sym (create_use_case-lem sys command w))
        (bind-keeps (Steady w.tables) (get_by_idempotency_key sys key) (the_or_create sys command) w
          hv
          (λ o.
            or_create-Steady lawful command w.tables o v hv
              (subst (λ (u : World). u.new_payments ≡ []) rows (unfold arrived in idle.no_payments))
              (subst (λ (u : World). u.new_outbox ≡ []) rows
                (unfold arrived in idle.no_outbox)))) in
    (end.valid, end.evolved)
