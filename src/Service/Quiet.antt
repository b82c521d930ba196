-- ===== src/Service/Quiet.antt =====
-- app/infrastructure/gateway/fake.py and app/infrastructure/webhook/sender.py: what the gateway
-- answers, and that neither port touches the database.
use secunda_test.Base.{
  Result, ◌∙◌, ℕ, ◌*◌, ◌^◌, ◌<◌, ◌≤◌, ◌≡◌, refl, sym, ap, true, false, Text, Exc, ok, arith, ltb,
  domain_error, invalid_status_transition_error, payment_not_found_error,
  idempotency_conflict_error, duplicate_idempotency_key_error, webhook_delivery_error,
  integrity_error, retry_error, http_exception, http_error, other_error, cancelled_error,
  if◌then◌else◌, Bool,
}
use mathlib.Core.Path.{subst}
use native.Mathlib.Nat.{mul-lt-mul_of_pos_right}
use secunda_test.Exec.{Exec, catch-keeps}
use secunda_test.Py.Json.{Fields}
use secunda_test.Domain.Payment.{Payment}
use secunda_test.Infrastructure.Platform.{System, World, sleep}
use secunda_test.Infrastructure.Settings.{WebhookSettings}
use secunda_test.Infrastructure.Webhook.{Retrying, is_retryable, client_post, checked}
use secunda_test.Infrastructure.Webhook.Attempts.{Tried, returned, raised, stopped, again}
use secunda_test.Infrastructure.Webhook.{post, on_send_error, send}
use secunda_test.Infrastructure.Gateway.{GatewaySettings, random, log_charge, fake_charge}
use secunda_test.Service.NewPayment.{SameSession}
use secunda_test.Service.Processing.{IsQuiet}

-- The emulated gateway leaves the database alone.
pub fake_charge-IsQuiet :
    (sys : System) (settings : GatewaySettings) (p : Payment) → IsQuiet (fake_charge sys settings p)
unfolding fake_charge random log_charge sleep
fake_charge-IsQuiet sys settings p w = record {
  tables = refl;
  dirty = refl;
  new_payments = refl;
  new_outbox = refl;
  statements = refl;
}

below_one : (d n : ℕ) → d < 2 ^ 53 → 1 ≤ n → ltb (d * n) (n * 2 ^ 53) ≡ true
below_one d n h positive =
    let less : d * n < 2 ^ 53 * n = mul-lt-mul_of_pos_right h (omega arith) in ground (arith, less)

not_below_zero : (d : ℕ) → ltb d (0 * 2 ^ 53) ≡ false
not_below_zero d = ground arith

-- The gateway answers every charge `b`, success or not, if its rate is one or zero.
pub fake_charge-rate :
    (sys : System) (settings : GatewaySettings) (p : Payment) (w : World) (b : Bool)
    → 1 ≤ settings.rate_denominator
    → settings.rate_numerator ≡ (if b then settings.rate_denominator else 0)
    → (fake_charge sys settings p w).0 ≡ ok b
unfolding fake_charge random log_charge sleep
fake_charge-rate sys settings p w true positive e =
    ap ok (rw e (below_one _ settings.rate_denominator (omega arith) positive))
fake_charge-rate sys settings p w false positive e = ap ok (rw e (not_below_zero _))

module _ (sys : System) (retrying : Retrying) (settings : WebhookSettings) where
  post-IsQuiet :
      (url : Text) (payload : Fields) (k : ℕ) → IsQuiet (post sys retrying settings url payload k)
  unfolding post client_post checked
  post-IsQuiet url payload k w = ground arith

  pub on_send_error-world :
      (url : Text) (e : Exc) (w : World) → (on_send_error sys retrying settings url e w).1 ≡ w
  unfolding on_send_error
  on_send_error-world url (retry_error m) w = refl
  on_send_error-world url (domain_error m) w = refl
  on_send_error-world url (invalid_status_transition_error m) w = refl
  on_send_error-world url (payment_not_found_error m) w = refl
  on_send_error-world url (idempotency_conflict_error m) w = refl
  on_send_error-world url (duplicate_idempotency_key_error m) w = refl
  on_send_error-world url (webhook_delivery_error m) w = refl
  on_send_error-world url (integrity_error m) w = refl
  on_send_error-world url (http_exception k m) w = refl
  on_send_error-world url (http_error k m) w = refl
  on_send_error-world url (other_error k m) w = refl
  on_send_error-world url cancelled_error w = refl

  -- If the loop of attempts leaves alone what its attempts leave alone, the sender of webhooks
  -- leaves the database alone, whether it delivers or gives up.
  pub send-IsQuiet :
      ((f : ℕ → Exec World (Unit {0}))
        → ((k : ℕ) → IsQuiet (f k))
        → IsQuiet (retrying is_retryable settings.max_attempts settings.retry_base_delay f))
      → (url : Text) (payload : Fields) → IsQuiet (send sys retrying settings url payload)
  unfolding send
  send-IsQuiet quiet url payload w =
      let steps = quiet (post sys retrying settings url payload) (post-IsQuiet url payload) w in
      catch-keeps (SameSession w)
        (retrying is_retryable settings.max_attempts settings.retry_base_delay
          (post sys retrying settings url payload))
        (on_send_error sys retrying settings url) w steps
        (λ e. subst (SameSession w) (sym (on_send_error-world url e _)) steps)

-- A loop that behaves as tenacity documents leaves alone what its attempts leave alone.
pub Tried-IsQuiet :
    (retry : Exc → Bool) (stop base : ℕ) (body : ℕ → Exec World (Unit {0}))
    → ((k : ℕ) → IsQuiet (body k))
    → {k : ℕ} {w : World} {q : Result (Unit {0}) × World} → Tried retry stop base body k w q
    → SameSession w q.1
Tried-IsQuiet retry stop base body quiet (returned k w w' h) =
    subst (SameSession w) (ap (λ (x : Result (Unit {0}) × World). x.1) h) (quiet k w)
Tried-IsQuiet retry stop base body quiet (raised k w w' e h c) =
    subst (SameSession w) (ap (λ (x : Result (Unit {0}) × World). x.1) h) (quiet k w)
Tried-IsQuiet retry stop base body quiet (stopped k w w' e message h c l) =
    subst (SameSession w) (ap (λ (x : Result (Unit {0}) × World). x.1) h) (quiet k w)
Tried-IsQuiet retry stop base body quiet (again k w w' e q h c l rest) =
    let first = subst (SameSession w) (ap (λ (x : Result (Unit {0}) × World). x.1) h) (quiet k w) in
    let others = Tried-IsQuiet retry stop base body quiet rest in
    record {
      tables = others.tables ∙ first.tables;
      dirty = others.dirty ∙ first.dirty;
      new_payments = others.new_payments ∙ first.new_payments;
      new_outbox = others.new_outbox ∙ first.new_outbox;
      statements = others.statements ∙ first.statements;
    }
