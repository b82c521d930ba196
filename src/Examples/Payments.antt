-- ===== src/Examples/Payments.antt =====
-- The payment and its storage at concrete inputs.
use secunda_test.Base.{◌≡◌, refl, false, true, some, none, List, [], ◌∷◌, lit, ok, All}
use secunda_test.Py.Json.{string, dict, end, none_value}
use secunda_test.Domain.Enums.{succeeded, rub}
use secunda_test.Domain.Payment.{Payment, is_processed, transition_to}
use secunda_test.Domain.Payment.Invariant.{
  IsPayment, create-IsPayment, create_lem, transition_to-IsPayment,
}
use secunda_test.Domain.Payment.Transitions.{
  Mark, call_all, first_accepted, IsRefused, settled_absorbs, first_transition_wins,
}
use secunda_test.Infrastructure.Mappers.{payment_to_model, payment_from_model}
use secunda_test.Infrastructure.Mappers.RoundTrip.{
  payment_from_model-payment_to_model, payment_to_model-payment_from_model,
}
use secunda_test.Examples.Memory.{start_of_2026}
use secunda_test.Py.Datetime.{in_utc}
use secunda_test.Examples.Data.{
  payment, row, ten_fifty, key_one, hook, amount-is_accepted, key-is_accepted, hook-is_accepted,
  payment-IsPayment,
}

create-IsPayment_example : IsPayment payment × (is_processed payment ≡ false)
create-IsPayment_example =
    create-IsPayment (record { value = ten_fifty }) rub (record { value = key_one })
      (record { value = hook }) (string (lit "book")) (dict end) none none_value 1 start_of_2026
      amount-is_accepted key-is_accepted hook-is_accepted
      (create_lem (record { value = ten_fifty }) rub (record { value = key_one })
        (record { value = hook }) (lit "book") end 1 start_of_2026)

transition_to-IsPayment_example :
    IsPayment (transition_to succeeded none_value start_of_2026 payment).1
transition_to-IsPayment_example =
    transition_to-IsPayment succeeded none_value start_of_2026 payment refl payment-IsPayment

abbrev two_marks : List Mark
two_marks =
    record { success = true; processed_at = none_value; now = start_of_2026 }
    ∷ record { success = false; processed_at = none_value; now = start_of_2026 }
    ∷ []

abbrev paid : Payment
paid = record payment { status = succeeded; processed_at = some (in_utc start_of_2026) }

settled_absorbs_example :
    All IsRefused (call_all two_marks paid).0 × ((call_all two_marks paid).1 ≡ paid)
settled_absorbs_example = settled_absorbs two_marks paid refl

first_transition_wins_example : (call_all two_marks payment).1 ≡ first_accepted two_marks payment
first_transition_wins_example = first_transition_wins two_marks payment refl

payment_from_model-payment_to_model_example :
    payment_from_model (payment_to_model payment (lit "5f")) ≡ ok payment
payment_from_model-payment_to_model_example =
    payment_from_model-payment_to_model payment (lit "5f") payment-IsPayment

payment_to_model-payment_from_model_example : payment_to_model payment row.request_hash ≡ row
payment_to_model-payment_from_model_example =
    payment_to_model-payment_from_model row payment
      (payment_from_model-payment_to_model payment (lit "5f") payment-IsPayment)
