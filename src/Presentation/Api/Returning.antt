-- ===== src/Presentation/Api/Returning.antt =====
-- app/presentation/api/v1/payments.py: what an endpoint that returns has done in its session.
use secunda_test.Base.{◌≡◌, refl, ap, Option, Text, Result, ok, err}
use secunda_test.Exec.{Exec, catch, continue, raise, pure, ◌>>=◌, ◌>>◌}
use secunda_test.Py.Uuid.{Uuid}
use secunda_test.Domain.Payment.{Payment}
use secunda_test.Application.Dto.{CreatePaymentResult}
use secunda_test.Infrastructure.Platform.{System, World}
use secunda_test.Infrastructure.Session.{rollback}
use secunda_test.Infrastructure.Settings.{ApiSettings}
use secunda_test.Service.{create_use_case, get_use_case}
use secunda_test.Presentation.Api.{
  CreatePaymentRequest, PaymentAcceptedResponse, accepted_from_domain, response_from_domain,
  in_session, create_endpoint, get_endpoint, command_of, require_api_key,
}
use secunda_test.Presentation.Api.Requests.{answered, respond, show_payment}

module _ {A B : Type 0} (f : A → B) where
  abbrev session_of : Result A × World → Exec World B
  session_of q = do
    b ← catch (λ w. continue q.0 (λ a. pure (f a)) q.1) (λ e. do rollback; raise e)
    rollback
    pure b

  ended :
      (q : Result A × World) (b : B)
      → (session_of q q.1).0 ≡ ok b
      → (a : A) × (q.0 ≡ ok a) × (f a ≡ b)
  unfolding rollback
  ended (ok a, w) b h = (a, refl, cc h)
  ended (err e, w) b h = cc h

  ended-tables : (q : Result A × World) → (session_of q q.1).1.tables ≡ q.1.tables
  unfolding rollback
  ended-tables (ok a, w) = refl
  ended-tables (err e, w) = refl

module _ (sys : System) (request_hash : CreatePaymentRequest → Text) where
  pub create_endpoint-ok :
      (body : CreatePaymentRequest) (key : Text) (w : World) (accepted : PaymentAcceptedResponse)
      → (create_endpoint sys request_hash body key w).0 ≡ ok accepted
      → (result : CreatePaymentResult) × ((create_use_case sys
            (command_of sys request_hash body key)
            w).0
          ≡ ok result)
        × (accepted_from_domain result.payment ≡ accepted)
  unfolding create_endpoint in_session
  create_endpoint-ok body key w accepted h =
      ended (λ (result : CreatePaymentResult). accepted_from_domain result.payment)
        (create_use_case sys (command_of sys request_hash body key) w) accepted h

  pub create_endpoint-tables :
      (body : CreatePaymentRequest) (key : Text) (w : World)
      → (create_endpoint sys request_hash body key w).1.tables
        ≡ (create_use_case sys (command_of sys request_hash body key) w).1.tables
  unfolding create_endpoint in_session
  create_endpoint-tables body key w =
      ended-tables (λ (result : CreatePaymentResult). accepted_from_domain result.payment)
        (create_use_case sys (command_of sys request_hash body key) w)

  get_endpoint-found :
      (id : Uuid) (p : Payment) (w v : World)
      → get_use_case sys id w ≡ (ok p, v)
      → (get_endpoint sys request_hash id w).0 ≡ ok (response_from_domain p)
  unfolding get_endpoint in_session rollback
  get_endpoint-found id p w v got =
      ap (λ (q : Result Payment × World). (session_of response_from_domain q q.1).0) got

  pub show_payment-found :
      (settings : ApiSettings) (header : Option Text) (id : Uuid) (p : Payment) (w v : World)
      → require_api_key settings.key header ≡ ok tt
      → get_use_case sys id w ≡ (ok p, v)
      → (show_payment sys request_hash settings header id w).0
        ≡ answered 200 (response_from_domain p)
  unfolding show_payment respond
  show_payment-found settings header id p w v passed got =
      rw (passed, get_endpoint-found id p w v got) refl
