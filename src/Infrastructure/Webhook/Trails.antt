-- ===== src/Infrastructure/Webhook/Trails.antt =====
-- How a loop of attempts ends, and what it has sent and waited, against the reference.
use mathlib.Core.Path.{subst}
use secunda_test.Base.{
  ℕ, suc, ◌+◌, ◌-◌, ◌*◌, ◌^◌, List, ◌≡◌, refl, sym, ap, ◌∙◌, Option, none, some, [], ◌∷◌, ◌++◌,
  Text, length, Exc, domain_error, invalid_status_transition_error, payment_not_found_error,
  idempotency_conflict_error, duplicate_idempotency_key_error, integrity_error, http_exception,
  http_error, other_error, cancelled_error, retry_error, webhook_delivery_error, Result, ok, err,
  arith, append_one, append_nil, length-append,
}
use secunda_test.Exec.{continue}
use secunda_test.Py.Json.{Fields}
use secunda_test.Infrastructure.Platform.{System, World, Post}
use secunda_test.Infrastructure.Webhook.{Retrying, client_post, checked, is_retryable, post}
use secunda_test.Infrastructure.Settings.{WebhookSettings}
use secunda_test.Infrastructure.Webhook.Attempts.{
  waits, waits_again, post_fault, is_transient, Tried, returned, raised, stopped, again, Ending,
  delivery, delivery_pos, numbered, Ended, delivery_answered, delivery_broken, delivery_exhausted,
  delivery_again,
}

abbrev answer : Option Exc → Result (Unit {0})
answer none = ok tt
answer (some e) = err e

checked_lem : (o : Option Exc) (w : World) → checked o w ≡ (answer o, w)
unfolding checked
checked_lem none w = refl
checked_lem (some e) w = refl

answered_lem :
    (r : Result ℕ) (status_error : ℕ → Option Exc) (w : World)
    → continue r (λ status. checked (status_error status)) w
      ≡ (answer (elim r [ ok status ↦ status_error status | err e ↦ some e ]), w)
answered_lem (ok status) status_error w = checked_lem (status_error status) w
answered_lem (err e) status_error w = refl

module _ (sys : System) (retrying : Retrying) (settings : WebhookSettings) (url : Text)
    (payload : Fields) where
  abbrev one : ℕ → Post
  one k = record { url = url; payload = payload; attempt = k; timeout = settings.timeout }

  post_lem :
      (k : ℕ) (w : World)
      → post sys retrying settings url payload k w
        ≡ (answer (post_fault sys (length w.posts)), record w { posts = w.posts ++ one k ∷ [] })
  unfolding post client_post checked
  post_lem k w = answered_lem (sys.post_answer (length w.posts)) sys.raise_for_status _

  -- The sender retries the errors of the reference, and no others.
  is_retryable-is_transient : (e : Exc) → is_retryable e ≡ is_transient e
  unfolding is_retryable is_transient
  is_retryable-is_transient (domain_error m) = refl
  is_retryable-is_transient (invalid_status_transition_error m) = refl
  is_retryable-is_transient (payment_not_found_error m) = refl
  is_retryable-is_transient (idempotency_conflict_error m) = refl
  is_retryable-is_transient (duplicate_idempotency_key_error m) = refl
  is_retryable-is_transient (webhook_delivery_error m) = refl
  is_retryable-is_transient (integrity_error m) = refl
  is_retryable-is_transient (retry_error m) = refl
  is_retryable-is_transient (http_exception c m) = refl
  is_retryable-is_transient (http_error n m) = refl
  is_retryable-is_transient (other_error n m) = refl
  is_retryable-is_transient cancelled_error = refl

  -- What an attempt that is known to end in `r` and `w'` says of the receiver and the posts.
  attempt_inv :
      (k : ℕ) (w w' : World) (r : Result (Unit {0}))
      → post sys retrying settings url payload k w ≡ (r, w')
      → (answer (post_fault sys (length w.posts)) ≡ r)
        × (w'.posts ≡ w.posts ++ one k ∷ [])
        × (w'.sleeps ≡ w.sleeps)
  attempt_inv k w w' r h =
      let e = sym (post_lem k w) ∙ h in
      (ap (λ q. q.0) e, sym (ap (λ q. q.1.posts) e), sym (ap (λ q. q.1.sleeps) e))

  answer_ok : (o : Option Exc) → answer o ≡ ok tt → o ≡ none
  answer_ok none h = refl
  answer_ok (some e) h = cc

  answer_err : (o : Option Exc) (e : Exc) → answer o ≡ err e → o ≡ some e
  answer_err none e h = cc
  answer_err (some x) e h =
      ap (λ (r : Result (Unit {0})). elim r [ ok a ↦ some x | err y ↦ some y ]) h

  pub record Trail (k : ℕ) (w : World) (q : Result (Unit {0}) × World) (d : ℕ × Ending)
      : Type 0 where
    pub ended : Ended d.1 q.0
    pub posts : q.1.posts ≡ w.posts ++ numbered settings.timeout url payload k d.0
    pub sleeps : q.1.sleeps ≡ w.sleeps ++ waits settings.retry_base_delay k d.0

  abbrev pub expected : ℕ → World → ℕ × Ending
  expected k w = delivery (post_fault sys) (settings.max_attempts - k) (length w.posts)

  pub Tried-Trail :
      {k : ℕ} {w : World} {q : Result (Unit {0}) × World}
      → Tried is_retryable settings.max_attempts settings.retry_base_delay
          (post sys retrying settings url payload)
          k
          w
          q
      → Trail k w q (expected k w)
  Tried-Trail (returned k w w' h) =
      let (a, p, z) = attempt_inv k w w' (ok tt) h in
      let d =
        delivery_answered (post_fault sys) (settings.max_attempts - k) (length w.posts)
          (answer_ok _ a) in
      subst (Trail k w (ok tt, w')) (sym d)
        (record { ended = refl; posts = p; sleeps = z ∙ sym (append_nil w.sleeps) })
  Tried-Trail (raised k w w' e h c) =
      let (a, p, z) = attempt_inv k w w' (err e) h in
      let d =
        delivery_broken (post_fault sys) (settings.max_attempts - k) (length w.posts)
          (answer_err _ e a) (sym (is_retryable-is_transient e) ∙ c) in
      subst (Trail k w (err e, w')) (sym d)
        (record { ended = refl; posts = p; sleeps = z ∙ sym (append_nil w.sleeps) })
  Tried-Trail (stopped k w w' e message h c l) =
      let (a, p, z) = attempt_inv k w w' (err e) h in
      let d =
        delivery_exhausted (post_fault sys) (settings.max_attempts - k) (length w.posts)
          (answer_err _ e a) (sym (is_retryable-is_transient e) ∙ c) (omega arith) in
      subst (Trail k w (err (retry_error message), w')) (sym d)
        (record { ended = (message, refl); posts = p; sleeps = z ∙ sym (append_nil w.sleeps) })
  Tried-Trail (again k w w' e q h c l rest) =
      let (a, p, z) = attempt_inv k w w' (err e) h in
      let t = Tried-Trail rest in
      let size : length w'.posts ≡ length w.posts + 1 =
        ap length p ∙ length-append w.posts (one k ∷ []) in
      let count : ℕ =
        (delivery (post_fault sys) (settings.max_attempts - (k + 1)) (length w'.posts)).0 in
      let pauses : List ℕ = waits settings.retry_base_delay (k + 1) count in
      let later =
        numbered settings.timeout url payload (k + 1)
          (delivery (post_fault sys) (settings.max_attempts - (k + 1)) (length w'.posts)).0 in
      let d =
        delivery_again (post_fault sys) (settings.max_attempts - k)
          (settings.max_attempts - (k + 1)) (length w.posts) (answer_err _ e a)
          (sym (is_retryable-is_transient e) ∙ c) (omega arith) in
      let d' =
        subst
          (λ i. expected k w ≡ (
            suc (delivery (post_fault sys) (settings.max_attempts - (k + 1)) i).0,
            (delivery (post_fault sys) (settings.max_attempts - (k + 1)) i).1,
          ))
          (sym size) d in
      subst (Trail k w q) (sym d') (record {
        ended = t.ended;
        posts = t.posts ∙ (ap (λ ps. ps ++ later) p ∙ append_one w.posts (one k) later);
        sleeps =
            t.sleeps
            ∙ (ap (λ zs. (zs ++ settings.retry_base_delay * 2 ^ (k - 1) ∷ []) ++ pauses) z
                ∙ append_one w.sleeps (settings.retry_base_delay * 2 ^ (k - 1)) pauses
                ∙ ap (λ zs. w.sleeps ++ zs)
                    (sym (
                      waits_again settings.retry_base_delay k count (
                        delivery_pos (post_fault sys) (settings.max_attempts - (k + 1))
                          (length w'.posts)))));
      })
