-- ===== src/Presentation/Running/Accepted.antt =====
-- app/presentation/api/v1/payments.py: what a client that was answered 202 can rely on, under whatever
-- happens after it.
use mathlib.Core.Path.{subst}
use secunda_test.Base.{◌≡◌, refl, sym, ap, ◌∙◌, none, Option, some, Text, ok}
use secunda_test.Exec.{Exec}
use secunda_test.Py.Uuid.{Uuid}
use secunda_test.Domain.Payment.{Payment}
use secunda_test.Infrastructure.Models.{PaymentModel, Tables, find_payment}
use secunda_test.Infrastructure.Mappers.{payment_from_model, payment_to_model}
use secunda_test.Infrastructure.Mappers.RoundTrip.{payment_to_model-payment_from_model}
use secunda_test.Infrastructure.Invariant.{IsTables, Evolves, Evolves-trans, id-find_payment}
use secunda_test.Infrastructure.Platform.{System, World}
use secunda_test.Infrastructure.Platform.Laws.{IsLawful}
use secunda_test.Infrastructure.Session.{seen, arrived}
use secunda_test.Infrastructure.Session.Working.{arrived-Working, seen-valid}
use secunda_test.Infrastructure.Settings.{Settings}
use secunda_test.Infrastructure.Webhook.{Retrying}
use secunda_test.Infrastructure.Webhook.Attempts.{IsRetrying}
use secunda_test.Service.Creating.{IsIdle}
use secunda_test.Service.Durable.{create_use_case-Stands}
use secunda_test.Service.Idempotent.{create_use_case-idempotent}
use secunda_test.Service.Replaying.{lookup, ReadAs, get_use_case-lookup}
use secunda_test.Service.Settled.{idle-Settled}
use secunda_test.Service.Standing.{evolved_row}
use secunda_test.Presentation.Api.{
  CreatePaymentRequest, PaymentAcceptedResponse, PaymentResponse, accepted_from_domain,
  response_from_domain, create_endpoint, command_of, require_api_key,
}
use secunda_test.Presentation.Api.Requests.{answered, post_payment, show_payment, guarded-answered}
use secunda_test.Presentation.Running.{Service, Reach, here, next, created}
use secunda_test.Presentation.Running.Wiring.{wired_service, wired_service-keeps}
use secunda_test.Presentation.Api.Returning.{
  create_endpoint-ok, create_endpoint-tables, show_payment-found,
}

some_injective : {r s : PaymentModel} → some r ≡ some s → r ≡ s
some_injective {r} e = ap (λ o. elim o [ none ↦ r | some x ↦ x ]) e

-- The row that is found is read as a payment.
found_payment :
    (m : Option PaymentModel) (o : Option Payment) (row : PaymentModel)
    → m ≡ some row
    → ReadAs m o
    → (p : Payment) × (o ≡ some p) × (payment_from_model row ≡ ok p)
found_payment none none row e reads = cc e
found_payment none (some p) row e reads = absurd reads
found_payment (some r) none row e reads = absurd reads
found_payment (some r) (some p) row e reads =
    (p, refl, subst (λ (x : PaymentModel). payment_from_model x ≡ ok p) (some_injective e) reads)

-- A payment has the identifier and the key of its row.
read_fields :
    (r : PaymentModel) (p : Payment)
    → payment_from_model r ≡ ok p
    → (p.id ≡ r.id) × (p.idempotency_key.value ≡ r.idempotency_key)
unfolding payment_to_model
read_fields r p h =
    let same = payment_to_model-payment_from_model r p h in
    (ap (λ (x : PaymentModel). x.id) same, ap (λ (x : PaymentModel). x.idempotency_key) same)

module _ (sys : System) (retrying : Retrying) (request_hash : CreatePaymentRequest → Text)
    (settings : Settings) (lawful : IsLawful sys) (law : IsRetrying retrying) where
  abbrev service : Service
  service = wired_service sys retrying request_hash settings

  -- The row of a payment that stands at `u`, as a query finds it after further events.
  shown_later :
      (id : Uuid) (row : PaymentModel) (header : Option Text) (u v : World)
      → IsIdle u
      → IsTables u.tables
      → Reach service u v
      → find_payment id u.tables.payments ≡ some row
      → require_api_key settings.api.key header ≡ ok tt
      → sys.statement_fault v.statements ≡ none
      → (p : Payment) × (p.id ≡ id)
        × (p.idempotency_key.value ≡ row.idempotency_key)
        × ((show_payment sys request_hash settings.api header id v).0
            ≡ answered 200 (response_from_domain p))
  shown_later id row header u v idle valid reach there passed fault =
      let (valid_v, later, idle_v) =
        wired_service-keeps sys retrying request_hash settings lawful law u v idle valid reach in
      let working = (idle-Settled v idle_v valid_v).working in
      let (valid_s, during) =
        seen-valid (arrived sys v) (arrived-Working lawful v.tables v working) in
      let s : Tables = seen (arrived sys v) in
      let (r, found, aged) =
        evolved_row id u.tables s (Evolves-trans u.tables v.tables s later during) there in
      let (o, reads, got) = get_use_case-lookup sys id v lawful valid_s fault in
      let (p, is_p, read) = found_payment (find_payment id s.payments) o r found reads in
      let (same_id, same_key) = read_fields r p read in
      (
        p,
        same_id ∙ id-find_payment id s.payments found,
        same_key ∙ ap (λ (x : PaymentModel). x.idempotency_key) aged.same,
        show_payment-found sys request_hash settings.api header id p v (arrived sys v) passed
            (got ∙ ap (λ q. (lookup id q, arrived sys v)) is_p),
      )

  -- Under a lawful system and a loop of attempts that behaves as tenacity documents, from a state
  -- with no transaction open and valid tables: if a POST of a payment is answered 202, then after
  -- any further requests, messages and turns of the relay a GET with the identifier of that answer
  -- and the same key of the API, whose query does not fail, is answered 200, with that identifier
  -- and the idempotency key of the POST.
  pub post_payment-shown :
      (body : CreatePaymentRequest) (key : Text) (header : Option Text) (w v : World)
      (accepted : PaymentAcceptedResponse)
      → IsIdle w
      → IsTables w.tables
      → (post_payment sys request_hash settings.api header body key w).0 ≡ answered 202 accepted
      → Reach service (post_payment sys request_hash settings.api header body key w).1 v
      → sys.statement_fault v.statements ≡ none
      → (shown : PaymentResponse) × (shown.id ≡ accepted.payment_id)
        × (shown.idempotency_key ≡ key)
        × ((show_payment sys request_hash settings.api header accepted.payment_id v).0
            ≡ answered 200 shown)
  unfolding post_payment accepted_from_domain response_from_domain command_of wired_service
  post_payment-shown body key header w v accepted idle valid h reach fault =
      let endpoint : Exec World PaymentAcceptedResponse =
        create_endpoint sys request_hash body key in
      let command = command_of sys request_hash body key in
      let (passed, made, same) =
        guarded-answered 202 (require_api_key settings.api.key header) endpoint w accepted h in
      let (result, returned, told) = create_endpoint-ok sys request_hash body key w accepted made in
      let stands = create_use_case-Stands sys command w result lawful idle valid returned in
      let (valid_u, during, idle_u) =
        wired_service-keeps sys retrying request_hash settings lawful law w (endpoint w).1 idle
          valid (next here (created body key w)) in
      let (p, same_id, same_key, shown) =
        shown_later result.payment.id stands.row header (endpoint w).1 v idle_u valid_u
          (subst (λ x. Reach service x v) same reach)
          (ap (λ (t : Tables). find_payment result.payment.id t.payments)
              (create_endpoint-tables sys request_hash body key w)
            ∙ stands.found)
          passed fault in
      let ids : result.payment.id ≡ accepted.payment_id =
        ap (λ (a : PaymentAcceptedResponse). a.payment_id) told in
      (
        response_from_domain p,
        same_id ∙ ids,
        same_key ∙ stands.key,
        subst
            (λ (id : Uuid).
              (show_payment sys request_hash settings.api header id v).0
              ≡ answered 200 (response_from_domain p))
            ids shown,
      )

  -- Under the same conditions: if a POST of a payment is answered 202, and after any further
  -- requests, messages and turns of the relay another POST with the same idempotency key is too,
  -- whatever its body and header, then both answers have the same identifier, and the bodies have
  -- the same hash.
  pub post_payment-repeated :
      (body body' : CreatePaymentRequest) (key : Text) (header header' : Option Text) (w v : World)
      (accepted accepted' : PaymentAcceptedResponse)
      → IsIdle w
      → IsTables w.tables
      → (post_payment sys request_hash settings.api header body key w).0 ≡ answered 202 accepted
      → Reach service (post_payment sys request_hash settings.api header body key w).1 v
      → (post_payment sys request_hash settings.api header' body' key v).0 ≡ answered 202 accepted'
      → (accepted.payment_id ≡ accepted'.payment_id) × (request_hash body ≡ request_hash body')
  unfolding post_payment accepted_from_domain command_of wired_service
  post_payment-repeated body body' key header header' w v accepted accepted' idle valid h reach h' =
      let endpoint : Exec World PaymentAcceptedResponse =
        create_endpoint sys request_hash body key in
      let (_, made, same) =
        guarded-answered 202 (require_api_key settings.api.key header) endpoint w accepted h in
      let (_, made', _) =
        guarded-answered 202 (require_api_key settings.api.key header')
          (create_endpoint sys request_hash body' key) v accepted' h' in
      let (result, returned, told) = create_endpoint-ok sys request_hash body key w accepted made in
      let (result', returned', told') =
        create_endpoint-ok sys request_hash body' key v accepted' made' in
      let (valid_u, _, idle_u) =
        wired_service-keeps sys retrying request_hash settings lawful law w (endpoint w).1 idle
          valid (next here (created body key w)) in
      let (valid_v, later, idle_v) =
        wired_service-keeps sys retrying request_hash settings lawful law (endpoint w).1 v idle_u
          valid_u (subst (λ x. Reach service x v) same reach) in
      let (ids, hashes) =
        create_use_case-idempotent sys (command_of sys request_hash body key)
          (command_of sys request_hash body' key) w v result result' lawful idle valid idle_v
          valid_v
          (subst (λ t. Evolves t v.tables) (create_endpoint-tables sys request_hash body key w)
            later)
          refl returned returned' in
      (
        sym (ap (λ (a : PaymentAcceptedResponse). a.payment_id) told)
            ∙ ids
            ∙ ap (λ (a : PaymentAcceptedResponse). a.payment_id) told',
        hashes,
      )
