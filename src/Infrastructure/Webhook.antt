-- ===== src/Infrastructure/Webhook.antt =====
-- app/infrastructure/webhook/sender.py. tenacity's `AsyncRetrying` is a parameter.
pub mod Attempts
pub mod Trails
pub mod Sending
use secunda_test.Base.{
  ℕ, Bool, true, false, Option, none, some, [], ◌∷◌, ◌++◌, Text, lit, Exc, http_error, retry_error,
  webhook_delivery_error, ok, err, length,
}
use secunda_test.Exec.{Exec, pure, raise, catch, ◌>>=◌}
use secunda_test.Infrastructure.Settings.{WebhookSettings}
use secunda_test.Py.Numbers.{show_nat}
use secunda_test.Py.Json.{Fields}
use secunda_test.Application.Interfaces.{WebhookSender}
use secunda_test.Infrastructure.Platform.{System, World}

-- `retry_if_exception_type((httpx.HTTPError, httpx.StreamError))`
unfoldable pub is_retryable : Exc → Bool
is_retryable (http_error name m) = true
is_retryable _ = false

-- `AsyncRetrying(retry, stop_after_attempt, wait_exponential(multiplier))`, which runs the body with
-- the number of each attempt.
abbrev pub Retrying : Type 0
Retrying = (Exc → Bool) → ℕ → ℕ → (ℕ → Exec World (Unit {0})) → Exec World (Unit {0})

-- What `response.raise_for_status()` does.
unfoldable pub checked : Option Exc → Exec World (Unit {0})
checked none = pure tt
checked (some e) = raise e

module _ (sys : System) (retrying : Retrying) (settings : WebhookSettings) where
  -- `self._client.post(url, json=payload, timeout=...)`: the status code of the response. The number
  -- of the attempt, which `_post` logs, is kept beside the POST.
  unfoldable pub client_post : Text → Fields → ℕ → Exec World ℕ
  client_post url payload attempt w = (
    sys.post_answer (length w.posts),
    record w {
      posts =
          w.posts
          ++ record { url = url; payload = payload; attempt = attempt; timeout = settings.timeout }
            ∷ [];
    },
  )

  -- `_post(url, payload, attempt)`
  unfoldable pub post : Text → Fields → ℕ → Exec World (Unit {0})
  unfolding checked
  post url payload attempt = do
    status ← client_post url payload attempt
    checked (sys.raise_for_status status)

  -- `except RetryError`
  unfoldable pub on_send_error : Text → Exc → Exec World (Unit {0})
  on_send_error url (retry_error m) = raise (
      webhook_delivery_error (
        lit "Уведомление на "
        ++ (url
            ++ (lit " не доставлено за " ++ (show_nat settings.max_attempts ++ lit " попыток")))))
  on_send_error url e = raise e

  -- `send(url, payload)`
  unfoldable pub send : Text → Fields → Exec World (Unit {0})
  send url payload =
      catch
        (retrying is_retryable settings.max_attempts settings.retry_base_delay (post url payload))
        (on_send_error url)

  unfoldable pub webhook_sender : WebhookSender World
  webhook_sender = record { send = send }
