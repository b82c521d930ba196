-- ===== src/Base/Errors.antt =====
-- The exceptions that the service raises or catches (app/domain/common/exceptions.py,
-- app/application/common/exceptions.py, app/application/payment/interfaces.py), and a value that may
-- be one.
use Prim.Native.Nat.{ℕ}
use mathlib.Core.Path.{◌≡◌, refl}
use mathlib.Core.Logic.{◌⊎◌, inl, inr}
use mathlib.Core.Bool.{Bool, true, false}
use secunda_test.Base.Texts.{Text, lit}

-- Each with its message. `http_error` is a subclass of httpx's `HTTPError` or `StreamError`, and
-- `other_error` any other class, both by class name; `asyncio.CancelledError` is no `Exception`.
pub data Exc : Type 0 where
  domain_error invalid_status_transition_error : Text → Exc
  payment_not_found_error idempotency_conflict_error : Text → Exc
  duplicate_idempotency_key_error webhook_delivery_error : Text → Exc
  integrity_error retry_error : Text → Exc
  http_exception : ℕ → Text → Exc
  http_error other_error : Text → Text → Exc
  cancelled_error : Exc

-- `except DomainError`: the class and its subclass.
abbrev pub is_domain_error : Exc → Bool
is_domain_error (domain_error _) = true
is_domain_error (invalid_status_transition_error _) = true
is_domain_error _ = false

-- `except Exception`.
abbrev pub is_exception : Exc → Bool
is_exception cancelled_error = false
is_exception _ = true

-- `type(error).__name__`
unfoldable pub class_name : Exc → Text
class_name (domain_error _) = lit "DomainError"
class_name (invalid_status_transition_error _) = lit "InvalidStatusTransitionError"
class_name (payment_not_found_error _) = lit "PaymentNotFoundError"
class_name (idempotency_conflict_error _) = lit "IdempotencyConflictError"
class_name (duplicate_idempotency_key_error _) = lit "DuplicateIdempotencyKeyError"
class_name (webhook_delivery_error _) = lit "WebhookDeliveryError"
class_name (integrity_error _) = lit "IntegrityError"
class_name (http_error name _) = name
class_name (retry_error _) = lit "RetryError"
class_name (http_exception _ _) = lit "HTTPException"
class_name (other_error name _) = name
class_name cancelled_error = lit "CancelledError"

-- `str(error)`
unfoldable pub message_of : Exc → Text
message_of (domain_error m) = m
message_of (invalid_status_transition_error m) = m
message_of (payment_not_found_error m) = m
message_of (idempotency_conflict_error m) = m
message_of (duplicate_idempotency_key_error m) = m
message_of (webhook_delivery_error m) = m
message_of (integrity_error m) = m
message_of (http_error _ m) = m
message_of (retry_error m) = m
message_of (http_exception _ m) = m
message_of (other_error _ m) = m
message_of cancelled_error = lit ""

-- What a call returns or raises.
pub data Result {ℓ} (A : Type ℓ) : Type ℓ where
  err : Exc → Result A
  ok : A → Result A

-- `if test: raise e`
abbrev pub raise_if : Bool → Exc → Result (Unit {0})
raise_if false e = ok tt
raise_if true e = err e

pub Result-cases {ℓ} :
    {A : Type ℓ} (r : Result A) → ((a : A) × (r ≡ ok a)) ⊎ ((e : Exc) × (r ≡ err e))
Result-cases (ok a) = inl (a, refl)
Result-cases (err e) = inr (e, refl)

-- The chain of a pure computation that may raise.
infixl 5 ◌>>=◌ ◌>>◌
abbrev pub ◌>>=◌ {κ ℓ} : {A : Type κ} {B : Type ℓ} → Result A → (A → Result B) → Result B
err e >>= next = err e
ok a >>= next = next a

abbrev pub ◌>>◌ {ℓ} : {B : Type ℓ} → Result (Unit {0}) → Result B → Result B
err e >> rest = err e
ok u >> rest = rest

-- A chain that returns has a first step that returns.
pub >>=-eq-ok {κ ℓ} :
    {A : Type κ} {B : Type ℓ} (r : Result A) (next : A → Result B) {b : B}
    → (r >>= next) ≡ ok b
    → (a : A) × (r ≡ ok a) × (next a ≡ ok b)
>>=-eq-ok (err e) next h = cc
>>=-eq-ok (ok a) next h = (a, refl, h)
