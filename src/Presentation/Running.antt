-- ===== src/Presentation/Running.antt =====
-- The running service: requests to the API, messages to the consumer and turns of the relay, in any
-- order, over one database.
pub mod Keeping
pub mod Told
pub mod Wiring
pub mod Accepted
pub mod Redelivered
use secunda_test.Base.{Text}
use secunda_test.Py.Uuid.{Uuid}
use secunda_test.Py.Json.{Fields}
use secunda_test.Application.Interfaces.{PaymentGateway, WebhookSender}
use secunda_test.Infrastructure.Config.{RabbitSettings}
use secunda_test.Infrastructure.Platform.{System, World}
use secunda_test.Infrastructure.Relay.{OutboxSettings, run_once}
use secunda_test.Presentation.Api.{CreatePaymentRequest, create_endpoint, get_endpoint}
use secunda_test.Presentation.Retry.{Headers}
use secunda_test.Presentation.Consumer.{handle_payment_created}

-- What the processes of the service are made of.
pub record Service : Type 0 where
  pub system : System
  pub request_hash : CreatePaymentRequest → Text
  pub gateway : PaymentGateway World
  pub webhooks : WebhookSender World
  pub retry : RabbitSettings
  pub outbox : OutboxSettings

-- One event of the service. What other processes commit meanwhile is part of `system`.
pub data Step (service : Service) : World → World → Type 0 where
  created :
      (body : CreatePaymentRequest) (key : Text) (w : World)
      → Step service w (create_endpoint service.system service.request_hash body key w).1
  shown :
      (id : Uuid) (w : World)
      → Step service w (get_endpoint service.system service.request_hash id w).1
  delivered :
      (payload : Fields) (message : Headers) (w : World)
      → Step service w
          (handle_payment_created service.system service.retry service.gateway service.webhooks
            payload message w).1
  relayed : (w : World) → Step service w (run_once service.system service.outbox w).1

pub data Reach (service : Service) (w : World) : World → Type 0 where
  here : Reach service w w
  next : {u v : World} → Reach service w u → Step service u v → Reach service w v
