-- ===== src/Presentation/Running/Wiring.antt =====
-- app/presentation/consumer/main.py and app/presentation/api/main.py: the service with its own gateway
-- and its own sender of webhooks.
use secunda_test.Base.{
  ℕ, ◌+◌, ◌-◌, length, none, ◌≡◌, ◌≤◌, ◌++◌, ◌∙◌, ap, sym, some, List, Exc, Text, ok,
}
use secunda_test.Exec.{Exec}
use secunda_test.Py.Uuid.{Uuid}
use secunda_test.Py.Json.{Fields}
use secunda_test.Domain.Payment.{Payment}
use secunda_test.Application.Events.{webhook_payload}
use secunda_test.Infrastructure.Invariant.{IsTables, Evolves}
use secunda_test.Infrastructure.Platform.{System, World, Post}
use secunda_test.Infrastructure.Platform.Laws.{IsLawful}
use secunda_test.Infrastructure.Gateway.{fake_gateway}
use secunda_test.Infrastructure.Settings.{Settings}
use secunda_test.Infrastructure.Webhook.{webhook_sender}
use secunda_test.Infrastructure.Webhook.{Retrying, is_retryable}
use secunda_test.Infrastructure.Webhook.Attempts.{
  IsRetrying, post_fault, IsPostError, numbered, delivery_last,
}
use secunda_test.Infrastructure.Webhook.Trails.{expected}
use secunda_test.Infrastructure.Webhook.Sending.{send-delivery, reported-answered}
use secunda_test.Service.Creating.{IsIdle}
use secunda_test.Service.Processing.{IsQuiet}
use secunda_test.Service.Quiet.{fake_charge-IsQuiet, send-IsQuiet, Tried-IsQuiet}
use secunda_test.Service.Standing.{Standing}
use secunda_test.Presentation.Api.{CreatePaymentRequest}
use secunda_test.Presentation.Consumer.{process_in_session}
use secunda_test.Presentation.Running.{Service, Reach}
use secunda_test.Presentation.Running.Keeping.{Reach-keeps}
use secunda_test.Presentation.Running.Told.{session-told}

module _ (sys : System) (retrying : Retrying) (request_hash : CreatePaymentRequest → Text)
    (settings : Settings) where
  -- What `create_consumer_app` and `lifespan` build from the settings.
  unfoldable pub wired_service : Service
  wired_service = record {
    system = sys;
    request_hash = request_hash;
    gateway = fake_gateway sys settings.gateway;
    webhooks = webhook_sender sys retrying settings.webhook;
    retry = settings.rabbitmq;
    outbox = settings.outbox;
  }

  module _ (lawful : IsLawful sys) (law : IsRetrying retrying) where
    pub wired_gateway-IsQuiet : (p : Payment) → IsQuiet (wired_service.gateway.charge p)
    unfolding wired_service fake_gateway
    wired_gateway-IsQuiet = fake_charge-IsQuiet sys settings.gateway

    pub wired_webhooks-IsQuiet :
        (url : Text) (payload : Fields) → IsQuiet (wired_service.webhooks.send url payload)
    unfolding wired_service webhook_sender
    wired_webhooks-IsQuiet = send-IsQuiet sys retrying settings.webhook (λ body quiet w.
        Tried-IsQuiet is_retryable settings.webhook.max_attempts settings.webhook.retry_base_delay
          body quiet (law _ _ _ body w))

    -- Under a lawful system and a loop of attempts that behaves as tenacity documents, from a state
    -- with no transaction open and valid tables: after any sequence of requests, messages and turns of the relay, whatever each of them returns or raises
    -- and whatever other processes commit meanwhile, no transaction is left open, the tables satisfy
    -- the invariant, and they have evolved from those at the start, so that no payment is lost and
    -- no final outcome changes.
    pub wired_service-keeps :
        (w v : World)
        → IsIdle w
        → IsTables w.tables
        → Reach wired_service w v
        → IsTables v.tables × Evolves w.tables v.tables × IsIdle v
    unfolding wired_service
    wired_service-keeps =
        Reach-keeps wired_service lawful wired_gateway-IsQuiet wired_webhooks-IsQuiet

    abbrev pub wired_session : Uuid → Exec World (Unit {0})
    wired_session =
        process_in_session sys wired_service.retry wired_service.gateway wired_service.webhooks

    -- Under a lawful system whose POSTs fail only with an error of httpx, of another library or a
    -- cancellation, and a loop of attempts that behaves as tenacity documents: if the consumer's
    -- session for a payment succeeds, from a state with no transaction open and valid tables, then
    -- its last POSTs, one at least, all carry the webhook of one payment to the address of that
    -- payment, and the last of them was answered; and after any further requests, messages and
    -- turns of the relay the row with the identifier still reads as that payment, whose outcome
    -- is final.
    pub wired_session-told :
        ((i : ℕ) (e : Exc) → post_fault sys i ≡ some e → IsPostError e)
        → (id : Uuid) (w v : World) → IsIdle w
        → IsTables w.tables
        → (wired_session id w).0 ≡ ok tt
        → Reach wired_service (wired_session id w).1 v
        → (final : Payment) × (before : List Post) × (n : ℕ) × (1 ≤ n)
          × ((wired_session id w).1.posts
              ≡ before
                ++ numbered settings.webhook.timeout final.webhook_url.value
                    (webhook_payload final)
                    1
                    n)
          × (post_fault sys (length before + (n - 1)) ≡ none)
          × Standing id final v.tables
    unfolding wired_service webhook_sender
    wired_session-told errors id w v idle valid h reach =
        let (final, before, after, sent, same, standing) =
          session-told wired_service lawful wired_gateway-IsQuiet wired_webhooks-IsQuiet id w v idle
            valid h reach in
        let url = final.webhook_url.value in
        let body = webhook_payload final in
        let (told, posts, some_post, bounded, slept) =
          send-delivery sys retrying settings.webhook url body law errors before in
        let result = expected sys retrying settings.webhook url body 1 before in
        let ends =
          reported-answered sys retrying settings.webhook url body result.1
            (sym told ∙ ap (λ q. q.0) sent) in
        (
          final,
          before.posts,
          result.0,
          some_post,
          same ∙ (ap (λ q. q.1.posts) (sym sent) ∙ posts),
          delivery_last (post_fault sys) (settings.webhook.max_attempts - 1) (length before.posts)
              ends,
          standing,
        )
