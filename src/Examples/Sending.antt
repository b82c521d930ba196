-- ===== src/Examples/Sending.antt =====
-- A receiver that is down for two POSTs, and a loop that retries as tenacity documents.
use secunda_test.Base.{
  ℕ, zero, suc, ◌+◌, ◌-◌, ◌*◌, ◌^◌, leb, ◌&&◌, ◌≤◌, ◌<◌, ◌≡◌, refl, ap, max, Bool, true, false,
  Option, none, some, [], ◌∷◌, ◌++◌, if◌then◌else◌, lit, length, Exc, http_error, Result, ok, err,
  retry_error, arith, inl, inr, Bool-cases, ltb,
}
use mathlib.Core.Path.{subst}
use secunda_test.Exec.{Exec}
use secunda_test.Py.Json.{end}
use secunda_test.Infrastructure.Platform.{System, World}
use secunda_test.Infrastructure.Webhook.{Retrying, send}
use secunda_test.Infrastructure.Settings.{WebhookSettings}
use secunda_test.Infrastructure.Webhook.Attempts.{
  Ending, waits, post_fault, is_transient, IsRetrying, Tried, returned, raised, stopped, again,
  IsPostError, delivery, numbered, answered,
}
use secunda_test.Infrastructure.Webhook.Sending.{reported, send-delivery}
use secunda_test.Examples.Memory.{memory}
use secunda_test.Examples.Data.{world, hook}

abbrev Outcome : Type 0
Outcome = Result (Unit {0}) × World

module _ (retry : Exc → Bool) (base : ℕ) (body : ℕ → Exec World (Unit {0})) where
  abbrev last : Outcome → Outcome
  last (ok u, w) = (ok u, w)
  last (err e, w) = (if retry e then err (retry_error []) else err e, w)

  abbrev proceed : (World → Outcome) → Outcome → Outcome
  proceed rest (ok u, w) = (ok u, w)
  proceed rest (err e, w) = let q = rest w in if retry e then q else (err e, w)

  abbrev slept : ℕ → World → World
  slept k w = record w { sleeps = w.sleeps ++ base * 2 ^ (k - 1) ∷ [] }

  -- `left` more attempts are allowed after the attempt `k`.
  abbrev attempts : ℕ → ℕ → Exec World (Unit {0})
  attempts zero k w = last (body k w)
  attempts (suc left) k w = proceed (λ w'. attempts left (k + 1) (slept k w')) (body k w)

  module _ (stop : ℕ) where
    last-Tried :
        (k : ℕ) (w : World) (q : Outcome)
        → stop ≤ k
        → body k w ≡ q
        → Tried retry stop base body k w (last q)
    last-Tried k w (ok u, w') h e = returned k w w' e
    last-Tried k w (err x, w') h e = elim (Bool-cases (retry x)) [
      | inl c ↦ rw c (stopped k w w' x [] e c h)
      | inr c ↦ rw c (raised k w w' x e c)
    ]

    proceed-Tried :
        (k : ℕ) (w : World) (rest : World → Outcome) (q : Outcome)
        → k < stop
        → body k w ≡ q
        → ((w' : World) → Tried retry stop base body (k + 1) (slept k w') (rest w'))
        → Tried retry stop base body k w (proceed rest q)
    proceed-Tried k w rest (ok u, w') h e t = returned k w w' e
    proceed-Tried k w rest (err x, w') h e t = elim (Bool-cases (retry x)) [
      | inl c ↦ rw c (again k w w' x (rest w') e c h (t w'))
      | inr c ↦ rw c (raised k w w' x e c)
    ]

    attempts-Tried :
        (left k : ℕ) (w : World)
        → left ≡ stop - k
        → Tried retry stop base body k w (attempts left k w)
    attempts-Tried zero k w h = last-Tried k w (body k w) (omega arith) refl
    attempts-Tried (suc left) k w h =
        proceed-Tried k w (λ w'. attempts left (k + 1) (slept k w')) (body k w) (omega arith) refl
          (λ w'. attempts-Tried left (k + 1) (slept k w') (omega arith))

abbrev pub loop : Retrying
loop retry stop base body = attempts retry base body (stop - 1) 1

pub loop-IsRetrying : IsRetrying loop
loop-IsRetrying retry stop base body w = attempts-Tried retry base body stop (stop - 1) 1 w refl

abbrev refusal : Exc
refusal = http_error (lit "ConnectError") (lit "All connection attempts failed")

-- The receiver is down for the first POST, and not ready for the second.
abbrev flaky : System
flaky = record memory {
  post_answer = λ i. if ltb i 1 then err refusal else ok (if ltb i 2 then 503 else 200);
}

status_errors : (status : ℕ) (e : Exc) → memory.raise_for_status status ≡ some e → IsPostError e
unfolding memory
status_errors status e h = flag_errors (leb 200 status && ltb status 300) e h
  where
    flag_errors :
        (b : Bool) (e : Exc)
        → (if b then none else some (http_error (lit "HTTPStatusError") [])) ≡ some e
        → IsPostError e
    flag_errors true e h = cc
    flag_errors false e h =
        subst IsPostError
          (ap
            (λ (o : Option Exc). elim o [
              | none ↦ http_error (lit "HTTPStatusError") []
              | some x ↦ x
            ])
            h)
          tt

answer_errors :
    (b : Bool) (status : ℕ) (e : Exc)
    → (elim (if b then err refusal else ok status) [
      | ok s ↦ memory.raise_for_status s
      | err x ↦ some x
    ])
      ≡ some e
    → IsPostError e
answer_errors true status e h =
    subst IsPostError (ap (λ (o : Option Exc). elim o [ none ↦ refusal | some x ↦ x ]) h) tt
answer_errors false status e h = status_errors status e h

pub memory_errors : (i : ℕ) (e : Exc) → post_fault memory i ≡ some e → IsPostError e
unfolding memory
memory_errors i e h = cc

flaky_errors : (i : ℕ) (e : Exc) → post_fault flaky i ≡ some e → IsPostError e
flaky_errors i e h = answer_errors (ltb i 1) (if ltb i 2 then 503 else 200) e h

abbrev five : WebhookSettings
five = record { timeout = 10; max_attempts = 5; retry_base_delay = 1 }

-- Three POSTs, the last of which is answered.
three_posts : delivery (post_fault flaky) 4 0 ≡ (3, answered)
unfolding is_transient memory
three_posts = refl

abbrev outcome : ℕ × Ending
outcome = delivery (post_fault flaky) 4 (length world.posts)

send-delivery_example :
    ((send flaky loop five hook end world).0 ≡ reported flaky loop five hook end outcome.1)
    × ((send flaky loop five hook end world).1.posts
        ≡ world.posts ++ numbered 10 hook end 1 outcome.0)
    × (1 ≤ outcome.0)
    × (outcome.0 ≤ max 1 5)
    × ((send flaky loop five hook end world).1.sleeps ≡ world.sleeps ++ waits 1 1 outcome.0)
send-delivery_example = send-delivery flaky loop five hook end loop-IsRetrying flaky_errors world
