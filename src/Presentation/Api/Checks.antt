-- ===== src/Presentation/Api/Checks.antt =====
-- app/presentation/api/dependencies.py: whom the key check lets pass.
use secunda_test.Base.{
  ◌≡◌, ◌↔◌, false, Option, none, some, Text, text_eq_sound, text_eq_refl, ok, any, leb, arith, ap,
}
use secunda_test.Presentation.Api.{require_api_key}

-- A request passes exactly if its header is the expected key and that key is ASCII.
pub require_api_key_iff :
    (expected : Text) (key : Option Text)
    → require_api_key expected key ≡ ok tt
      ↔ (key ≡ some expected) × (any (leb 128) expected ≡ false)
unfolding require_api_key
require_api_key_iff expected none = (λ e. cc e, λ h. cc h.0)
require_api_key_iff expected (some k) = (
  λ e. (ap some (text_eq_sound k expected (ground arith)), ground arith),
  λ h. ground (arith, h.0, h.1, text_eq_refl expected),
)
