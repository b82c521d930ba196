-- ===== src/Domain/Values/Checks.antt =====
-- app/domain/payment/values.py: which values the constructors accept.
use secunda_test.Base.{
  ◌≤◌, ◌≡◌, refl, ◌↔◌, ◌⊎◌, inl, inr, true, false, [], ◌∷◌, arith, Text, lit, text_eq_sound,
  text_eq_refl, length, All, ok, >>=-eq-ok, Bool-cases, ap, ◌∙◌, ◌≢◌,
}
use secunda_test.Py.Strings.{is_space, is_empty, strip, strip-empty, empty-strip}
use secunda_test.Py.Decimal.{Decimal, is_finite, is_negative, decimal_places}
use secunda_test.Py.Url.{ParseResult, urlparse}
use secunda_test.Py.Json.{PyValue, decimal, string}
use secunda_test.Domain.Values.{
  Amount, IdempotencyKey, WebhookUrl, make_amount, make_idempotency_key, make_webhook_url,
  is_allowed_scheme, check_parsed,
}

-- A finite number, not below zero, with at most two decimal places.
pub record IsAmount (d : Decimal) : Type 0 where
  pub finite : is_finite d ≡ true
  pub not_negative : is_negative d ≡ false
  pub places : decimal_places d ≤ 2

-- `Amount` accepts exactly the decimals that are finite, not negative and have at most two places.
pub make_amount_iff :
    (v : PyValue) (a : Amount) → (make_amount v ≡ ok a) ↔ ((v ≡ decimal a.value) × IsAmount a.value)
unfolding make_amount
make_amount_iff (decimal d) a = (λ h. ground arith, λ h. ground arith)
make_amount_iff v a = (λ h. cc, λ h. cc (h.0))

-- Not blank, and no longer than the column.
pub record IsIdempotencyKey (s : Text) : Type 0 where
  pub not_blank : ¬ All (λ c. is_space c ≡ true) s
  pub short : length s ≤ 255

not_blank→strip :
    (s : Text) → ¬ All (λ c. is_space c ≡ true) s → is_empty (strip is_space s) ≡ false
not_blank→strip s h = elim (Bool-cases (is_empty (strip is_space s))) [
  | inl e ↦ absurd (h (strip-empty is_space s e))
  | inr e ↦ e
]

strip→not_blank :
    (s : Text) → is_empty (strip is_space s) ≡ false → ¬ All (λ c. is_space c ≡ true) s
strip→not_blank s e all = cc (empty-strip is_space s all)

-- `IdempotencyKey` accepts exactly the texts that are not blank and have at most 255 characters.
pub make_idempotency_key_iff :
    (v : PyValue) (k : IdempotencyKey)
    → (make_idempotency_key v ≡ ok k) ↔ ((v ≡ string k.value) × IsIdempotencyKey k.value)
unfolding make_idempotency_key
make_idempotency_key_iff (string s) k = (
  λ h.
      let e : s ≡ k.value = ground arith in
      let f : is_empty (strip is_space s) ≡ false = ground arith in
      (ap string e, rw (← e) (record { not_blank = strip→not_blank s f; short = ground arith })),
  λ h.
      let e : s ≡ k.value = cc (h.0) in
      let short : length s ≤ 255 = rw e h.1.short in
      let f : is_empty (strip is_space s) ≡ false = rw e (not_blank→strip k.value h.1.not_blank) in
      rw f (ground arith),
)
make_idempotency_key_iff v k = (λ h. cc, λ h. cc (h.0))

-- A parsed URL that the service may post to.
pub record IsWebhook (parsed : ParseResult) : Type 0 where
  pub scheme : (parsed.scheme ≡ lit "http") ⊎ (parsed.scheme ≡ lit "https")
  pub host : parsed.netloc ≢ []

allowed→scheme : (s : Text) → is_allowed_scheme s ≡ true → (s ≡ lit "http") ⊎ (s ≡ lit "https")
unfolding is_allowed_scheme
allowed→scheme s h = ground (arith, text_eq_sound s (lit "http"), text_eq_sound s (lit "https"))

scheme→allowed : (s : Text) → (s ≡ lit "http") ⊎ (s ≡ lit "https") → is_allowed_scheme s ≡ true
unfolding is_allowed_scheme
scheme→allowed s (inl e) = rw e (ground (arith, text_eq_refl (lit "http")))
scheme→allowed s (inr e) = rw e (ground (arith, text_eq_refl (lit "https")))

empty→nil : (s : Text) → is_empty s ≡ false → s ≢ []
empty→nil [] h e = cc
empty→nil (c ∷ s) h e = cc

nil→empty : (s : Text) → s ≢ [] → is_empty s ≡ false
nil→empty [] h = absurd (h refl)
nil→empty (c ∷ s) h = refl

check_parsed→IsWebhook :
    (s : Text) (parsed : ParseResult) (u : WebhookUrl)
    → check_parsed s parsed ≡ ok u
    → (s ≡ u.value) × IsWebhook parsed
unfolding check_parsed
check_parsed→IsWebhook s parsed u h =
    let good : is_allowed_scheme parsed.scheme ≡ true = ground arith in
    let host : is_empty parsed.netloc ≡ false = ground arith in
    (
      ground arith,
      record { scheme = allowed→scheme parsed.scheme good; host = empty→nil parsed.netloc host },
    )

check_parsed-ok :
    (s : Text) (parsed : ParseResult)
    → IsWebhook parsed
    → check_parsed s parsed ≡ ok (record { value = s })
unfolding check_parsed
check_parsed-ok s parsed w =
    rw (scheme→allowed parsed.scheme w.scheme, nil→empty parsed.netloc w.host)

-- `WebhookUrl` accepts exactly the texts that parse to an http or https URL with a host.
pub make_webhook_url_iff :
    (v : PyValue) (u : WebhookUrl)
    → (make_webhook_url v ≡ ok u) ↔ (
        (v ≡ string u.value)
        × ((parsed : ParseResult) × (urlparse u.value ≡ ok parsed) × IsWebhook parsed))
unfolding make_webhook_url
make_webhook_url_iff (string s) u = (
  λ h.
      let (parsed, e, c) = >>=-eq-ok (urlparse s) (λ p. check_parsed s p) h in
      let (same, w) = check_parsed→IsWebhook s parsed u c in
      (ap string same, (parsed, rw (← same) e, w)),
  λ h.
      let same : s ≡ u.value = cc (h.0) in
      let parsed : ParseResult = h.1.0 in
      let e : urlparse s ≡ ok parsed = rw same h.1.1 in
      rw e (check_parsed-ok s parsed h.1.2 ∙ ap (λ v. ok (record { value = v })) same),
)
make_webhook_url_iff v u = (λ h. cc, λ h. cc (h.0))
