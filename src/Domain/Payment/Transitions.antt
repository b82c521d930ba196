-- ===== src/Domain/Payment/Transitions.antt =====
-- app/domain/payment/entities.py: what a sequence of transitions does to a payment.
use secunda_test.Base.{
  ◌≡◌, refl, Bool, true, false, Option, some, List, [], ◌∷◌, Result, ok, err, All,
  invalid_status_transition_error, Bool-cases, inl, inr,
}
use secunda_test.Py.Datetime.{Instant, Datetime, in_utc}
use secunda_test.Py.Json.{PyValue}
use secunda_test.Domain.Enums.{PaymentStatus, succeeded, failed, is_pending}
use secunda_test.Domain.Payment.{
  Payment, check_processed_at, or_else, settle, transition_to, mark_succeeded, mark_failed,
}

-- A call of `mark_succeeded` or `mark_failed`: whether it is the first, the time that is given and
-- the reading of the clock.
pub record Mark : Type 0 where
  pub success : Bool
  pub processed_at : PyValue
  pub now : Instant

abbrev pub result_status : Bool → PaymentStatus
result_status true = succeeded
result_status false = failed

unfoldable pub call : Mark → Payment → Result (Unit {0}) × Payment
call m p = elim m.success [
  | true ↦ mark_succeeded m.processed_at m.now p
  | false ↦ mark_failed m.processed_at m.now p
]

-- The calls one after the other, each caught: the outcomes, and the payment in the end.
unfoldable pub call_all : List Mark → Payment → List (Result (Unit {0})) × Payment
call_all [] p = ([], p)
call_all (m ∷ ms) p = let (r, p') = call m p in let (rs, q) = call_all ms p' in (r ∷ rs, q)

-- The call is refused because the payment is settled.
abbrev pub IsRefused : Result (Unit {0}) → Type 0
IsRefused (err (invalid_status_transition_error m)) = Unit {0}
IsRefused _ = ⊥

abbrev pub time_of : Mark → Result (Option Datetime)
time_of m = check_processed_at m.processed_at

abbrev settled : Mark → Option Datetime → Payment → Payment
settled m given p = record p {
  status = result_status m.success;
  processed_at = some (or_else given (in_utc m.now));
}

abbrev accepted : Mark → Result (Option Datetime) → Payment → Payment → Payment
accepted m (err e) p later = later
accepted m (ok given) p later = settled m given p

-- The payment that the first call with an acceptable time leaves, if there is such a call.
unfoldable pub first_accepted : List Mark → Payment → Payment
first_accepted [] p = p
first_accepted (m ∷ ms) p = accepted m (time_of m) p (first_accepted ms p)

call_lem :
    (m : Mark) (p : Payment)
    → call m p ≡ transition_to (result_status m.success) m.processed_at m.now p
unfolding call mark_succeeded mark_failed
call_lem m p = elim (Bool-cases m.success) [ inl e ↦ rw e | inr e ↦ rw e ]

result-not_pending : (b : Bool) → is_pending (result_status b) ≡ false
result-not_pending true = refl
result-not_pending false = refl

call_settled :
    (m : Mark) (p : Payment)
    → is_pending p.status ≡ false
    → IsRefused (call m p).0 × ((call m p).1 ≡ p)
unfolding transition_to
call_settled m p h = rw (call_lem m p, h) (tt, refl)

-- A payment that is not pending refuses every later transition and stays as it is.
pub settled_absorbs :
    (ms : List Mark) (p : Payment)
    → is_pending p.status ≡ false
    → All IsRefused (call_all ms p).0 × ((call_all ms p).1 ≡ p)
unfolding call_all
settled_absorbs [] p h = (tt, refl)
settled_absorbs (m ∷ ms) p h =
    let (refused, same) = call_settled m p h in
    let (rest, last) = settled_absorbs ms p h in rw same ((refused, rest), last)

call_pending :
    (m : Mark) (p : Payment)
    → is_pending p.status ≡ true
    → (call m p).1 ≡ (settle (result_status m.success) (time_of m) m.now p).1
unfolding transition_to
call_pending m p h = rw (call_lem m p, h)

first_step :
    (m : Mark) (ms : List Mark) (p : Payment) (r : Result (Option Datetime))
    → (call_all ms p).1 ≡ first_accepted ms p
    → (call_all ms (settle (result_status m.success) r m.now p).1).1
      ≡ accepted m r p (first_accepted ms p)
unfolding settle
first_step m ms p (err e) ih = ih
first_step m ms p (ok given) ih =
    (settled_absorbs ms (settled m given p) (result-not_pending m.success)).1

-- Of any sequence of transitions of a pending payment, the first one with an acceptable time
-- decides: it settles the payment, and every other call leaves it alone.
pub first_transition_wins :
    (ms : List Mark) (p : Payment)
    → is_pending p.status ≡ true
    → (call_all ms p).1 ≡ first_accepted ms p
unfolding call_all first_accepted
first_transition_wins [] p h = refl
first_transition_wins (m ∷ ms) p h =
    rw (call_pending m p h) (first_step m ms p (time_of m) (first_transition_wins ms p h))
