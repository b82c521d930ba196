-- ===== src/Presentation/Retry/Lifecycle.antt =====
-- app/presentation/consumer/retry.py: a message from its first delivery to the dead letter queue.
use secunda_test.Infrastructure.Config.{RabbitSettings}
use secunda_test.Base.{
  ℕ, zero, suc, ◌+◌, ◌-◌, ◌*◌, ◌^◌, ◌≤◌, ◌≡◌, refl, ap, ◌∙◌, none, some, true, lit, List, [], ◌∷◌,
  ◌++◌, text_eq_refl, Exc, ok, arith, append_one,
}
use secunda_test.Exec.{Exec, ◌>>=◌, ◌>>◌}
use secunda_test.Py.Numbers.{pos}
use secunda_test.Py.Json.{Fields}
use secunda_test.Infrastructure.Platform.{System, World, Publication, publish, number, text}
use secunda_test.Infrastructure.Topology.{
  dlx_exchange, dlx_exchange_name, retry_routing_key, dead_routing_key,
}
use secunda_test.Presentation.Retry.{
  Headers, error_header, error_text, attempt_header, attempt_of, attempt_of_value, header_or,
  at_least_one, headers, delay_of, retry_message, dead_message, to_retry, to_dlq, on_failure,
}

at_least_one_pos : (n : ℕ) → 1 ≤ n → at_least_one (pos n) ≡ n
unfolding at_least_one
at_least_one_pos zero h = absurd (omega arith)
at_least_one_pos (suc n) h = refl

-- The number of an attempt, counted from one, is read back from the headers that announce it,
-- whatever the error.
pub attempt_of-headers : (n : ℕ) (e : Exc) → 1 ≤ n → attempt_of (headers n e) ≡ ok n
unfolding attempt_of attempt_of_value header_or headers
attempt_of-headers n e h = rw (text_eq_refl attempt_header, at_least_one_pos n h)

-- The headers of the last publication.
abbrev pub last_headers : List Publication → Headers
last_headers [] = []
last_headers (m ∷ []) = m.headers
last_headers (m ∷ n ∷ ms) = last_headers (n ∷ ms)

last_headers-append :
    (ms : List Publication) (m : Publication) → last_headers (ms ++ m ∷ []) ≡ m.headers
last_headers-append [] m = refl
last_headers-append (x ∷ []) m = refl
last_headers-append (x ∷ y ∷ ms) m = last_headers-append (y ∷ ms) m

module _ (sys : System) (settings : RabbitSettings) (errors : ℕ → Exc) (payload : Fields) where
  -- A message whose processing fails at every delivery, `k` more times after this one: what was
  -- published last comes back with its headers, of which the next attempt is read.
  abbrev pub fail_again : ℕ → ℕ → Exec World (Unit {0})
  fail_again zero attempt = on_failure sys settings payload attempt (errors attempt)
  fail_again (suc k) attempt = do
    on_failure sys settings payload attempt (errors attempt)
    next ← λ w. (attempt_of (last_headers w.published), w)
    fail_again k next

  -- The copies for the retry queue, each with the attempt counted up and twice the delay of the one
  -- before, and the one for the dead letter queue.
  abbrev pub retry_copy : ℕ → Publication
  retry_copy attempt = record {
    payload = payload;
    exchange = lit "payments.dlx";
    routing_key = lit "payment.retry";
    headers =
        (lit "x-attempt", number (pos (attempt + 1)))
        ∷ (lit "x-error", text (error_text (errors attempt)))
        ∷ [];
    expiration = some (settings.retry_base_delay * 2 ^ (attempt - 1));
    message_id = none;
    persist = true;
  }

  abbrev pub dead_copy : ℕ → Publication
  dead_copy attempt = record {
    payload = payload;
    exchange = lit "payments.dlx";
    routing_key = lit "payment.dead";
    headers =
        (lit "x-attempt", number (pos attempt))
        ∷ (lit "x-error", text (error_text (errors attempt)))
        ∷ [];
    expiration = none;
    message_id = none;
    persist = true;
  }

  abbrev pub trail : ℕ → ℕ → List Publication
  trail zero attempt = dead_copy attempt ∷ []
  trail (suc k) attempt = retry_copy attempt ∷ trail k (attempt + 1)

  module _ (up : (k : ℕ) → sys.publish_fault k ≡ none) where
    pub publish-ok :
        (m : Publication) (w : World)
        → publish sys m w
          ≡ (ok tt, record w { published = w.published ++ m ∷ []; publishes = w.publishes + 1 })
    unfolding publish
    publish-ok m w = ground (arith, up w.publishes)

    pub on_failure-last :
        (attempt : ℕ) (w : World)
        → settings.max_delivery_attempts ≤ attempt
        → on_failure sys settings payload attempt (errors attempt) w
          ≡ publish sys (dead_copy attempt) w
    unfolding on_failure to_dlq dead_message headers attempt_header error_header dlx_exchange
        dlx_exchange_name dead_routing_key
    on_failure-last attempt w h = ground arith

    pub on_failure-retry :
        (attempt : ℕ) (w : World)
        → attempt + 1 ≤ settings.max_delivery_attempts
        → attempt ≤ 1024
        → on_failure sys settings payload attempt (errors attempt) w
          ≡ publish sys (retry_copy attempt) w
    unfolding on_failure to_retry delay_of retry_message headers attempt_header error_header
        dlx_exchange dlx_exchange_name retry_routing_key
    on_failure-retry attempt w h small = ground arith

    -- The next attempt, as it is read from the copy for the retry queue.
    attempt_of-retry_copy :
        (attempt : ℕ) (ms : List Publication)
        → attempt_of (last_headers (ms ++ retry_copy attempt ∷ [])) ≡ ok (attempt + 1)
    unfolding headers attempt_header error_header
    attempt_of-retry_copy attempt ms =
        ap attempt_of (last_headers-append ms (retry_copy attempt))
        ∙ attempt_of-headers (attempt + 1) (errors attempt) (omega arith)

    -- While the broker accepts what is published, a message that fails `k` attempts before the last
    -- one and at every delivery of what was published last is published `k` times for the retry
    -- queue, with the attempt counted up and the delay doubled each time, and then once for the dead
    -- letter queue. The attempts are counted from one, and there are 1024 at most.
    pub fail_again-trail :
        (k attempt : ℕ) (w : World)
        → 1 ≤ attempt
        → attempt + k ≡ settings.max_delivery_attempts
        → settings.max_delivery_attempts ≤ 1024
        → fail_again k attempt w ≡ (
          ok tt,
          record w { published = w.published ++ trail k attempt; publishes = w.publishes + k + 1 },
        )
    fail_again-trail zero attempt w h last small =
        on_failure-last attempt w (omega arith)
        ∙ publish-ok (dead_copy attempt) w
        ∙ ap
            (λ n. (
              ok tt,
              record w { published = w.published ++ dead_copy attempt ∷ []; publishes = n },
            ))
            (omega arith)
    fail_again-trail (suc k) attempt w h last small =
        let more : w.publishes + 1 + k + 1 ≡ w.publishes + suc k + 1 = omega arith in
        rw
          (
            on_failure-retry attempt w (omega arith) (omega arith),
            publish-ok (retry_copy attempt) w,
            attempt_of-retry_copy attempt w.published,
          )
          (fail_again-trail k (attempt + 1) _ (omega arith) (omega arith) small
            ∙ cc (append_one w.published (retry_copy attempt) (trail k (attempt + 1)), more))
