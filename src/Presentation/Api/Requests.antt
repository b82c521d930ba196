-- ===== src/Presentation/Api/Requests.antt =====
-- app/presentation/api/v1/payments.py: the two routes, with the check of the key before them and the
-- responses of the registered handlers after them.
use secunda_test.Base.{ℕ, ◌≡◌, refl, Option, none, some, Text, Exc, Result, ok, err}
use secunda_test.Exec.{Exec, lift, ◌>>◌}
use secunda_test.Py.Uuid.{Uuid}
use secunda_test.Infrastructure.Platform.{System, World}
use secunda_test.Infrastructure.Settings.{ApiSettings}
use secunda_test.Presentation.Api.{
  CreatePaymentRequest, PaymentAcceptedResponse, PaymentResponse, ErrorResponse, error_response,
  require_api_key, create_endpoint, get_endpoint,
}

-- `failed` is an exception that no handler is registered for: it leaves the application.
pub data Response (A : Type 0) : Type 0 where
  answered : ℕ → A → Response A
  refused : ErrorResponse → Response A
  failed : Exc → Response A

unfoldable pub by_handler : {A : Type 0} → Exc → Option ErrorResponse → Response A
by_handler e none = failed e
by_handler e (some r) = refused r

unfoldable pub respond : {A : Type 0} → ℕ → Result A → Response A
respond code (ok a) = answered code a
respond code (err e) = by_handler e (error_response e)

module _ (sys : System) (request_hash : CreatePaymentRequest → Text) (settings : ApiSettings)
    (header : Option Text) where
  -- `POST /api/v1/payments`
  unfoldable pub post_payment :
      CreatePaymentRequest → Text → World → Response PaymentAcceptedResponse × World
  post_payment body key w =
      let q =
        (lift (require_api_key settings.key header) >> create_endpoint sys request_hash body key)
          w in
      (respond 202 q.0, q.1)

  -- `GET /api/v1/payments/{payment_id}`
  unfoldable pub show_payment : Uuid → World → Response PaymentResponse × World
  show_payment id w =
      let q = (lift (require_api_key settings.key header) >> get_endpoint sys request_hash id) w in
      (respond 200 q.0, q.1)

by_handler_differs :
    {A : Type 0} (e : Exc) (o : Option ErrorResponse) (code : ℕ) (a : A)
    → by_handler e o ≡ answered code a
    → ⊥
unfolding by_handler
by_handler_differs e none code a h = cc h
by_handler_differs e (some r) code a h = cc h

respond-ok :
    {A : Type 0} (code : ℕ) (r : Result A) (a : A) → respond code r ≡ answered code a → r ≡ ok a
unfolding respond
respond-ok code (ok x) a h = cc h
respond-ok code (err e) a h = absurd (by_handler_differs e (error_response e) code a h)

-- What an answer with the route's own code tells: the key was right, and the endpoint has returned.
pub guarded-answered :
    {A : Type 0} (code : ℕ) (r : Result (Unit {0})) (m : Exec World A) (w : World) (a : A)
    → respond code ((lift r >> m) w).0 ≡ answered code a
    → (r ≡ ok tt) × ((m w).0 ≡ ok a) × (((lift r >> m) w).1 ≡ (m w).1)
guarded-answered code (ok u) m w a h = (refl, respond-ok code (m w).0 a h, refl)
guarded-answered code (err e) m w a h = cc (respond-ok code (err e) a h)
