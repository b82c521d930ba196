-- ===== src/Presentation/Api/Hashing.antt =====
-- app/presentation/api/v1/schemas.py: the hash of a request. pydantic's `model_dump(mode="json")` and
-- sha256, with the encoding and the hexadecimal digits, are outside.
use secunda_test.Base.{◌≡◌, sym, ap, ◌∙◌, Text, lit}
use secunda_test.Py.Decimal.{Decimal}
use secunda_test.Py.Json.{str, obj, Fields, end, field}
use secunda_test.Py.Json.Dumps.{dumps}
use secunda_test.Py.Json.Sorting.{Reordered, keep, inside, dumps-Reordered}
use secunda_test.Domain.Enums.{currency_value}
use secunda_test.Presentation.Api.{CreatePaymentRequest}

-- `CreatePaymentRequest.request_hash()`
unfoldable pub request_hash :
    (CreatePaymentRequest → Fields) → (Text → Text) → CreatePaymentRequest → Text
request_hash model_dump sha256 body = sha256 (dumps (obj (model_dump body)))

-- The dump has the fields in the order of the class: the amount by some text of it, the currency by
-- its value and the metadata as they are.
pub record IsModelDump (model_dump : CreatePaymentRequest → Fields) : Type 0 where
  pub amount_text : Decimal → Text
  pub fields :
      (body : CreatePaymentRequest)
      → model_dump body
        ≡ field (lit "amount") (str (amount_text body.amount)) (
            field (lit "currency") (str (currency_value body.currency)) (
              field (lit "description") (str body.description) (
                field
                  (lit "metadata")
                  (obj body.metadata)
                  (field (lit "webhook_url") (str body.webhook_url) end))))

-- Two requests that differ only in the order of the keys of their metadata, at any depth of objects,
-- have the same hash, so that the second one is no conflict.
pub request_hash-Reordered :
    (model_dump : CreatePaymentRequest → Fields) (sha256 : Text → Text)
    → IsModelDump model_dump
    → (body : CreatePaymentRequest) (metadata : Fields) → Reordered body.metadata metadata
    → request_hash model_dump sha256 (record body { metadata = metadata })
      ≡ request_hash model_dump sha256 body
unfolding request_hash
request_hash-Reordered model_dump sha256 dump body metadata r =
    let other : CreatePaymentRequest = record body { metadata = metadata } in
    let moved = keep (lit "amount") _ _ _ (
      keep (lit "currency") _ _ _ (
        keep (lit "description") _ _ _ (
          inside (lit "metadata") body.metadata metadata
            (field (lit "webhook_url") (str body.webhook_url) end) r))) in
    ap (λ fs. sha256 (dumps (obj fs))) (dump.fields other)
    ∙ (ap sha256 (sym (dumps-Reordered moved))
        ∙ ap (λ fs. sha256 (dumps (obj fs))) (sym (dump.fields body)))
