-- ===== src/Base.antt =====
-- The names that the other modules share: the libraries', passed on, and those of the children.
mod Tests
mod Lists
mod Texts
pub mod Errors
pub use Tests.*
pub use Lists.*
pub use Texts.{Text, text_eq, text_eq_sound, text_eq_refl, text_eq_complete}
unfoldable pub use Texts.{lit}
pub use Errors.{
  Exc, domain_error, invalid_status_transition_error, payment_not_found_error,
  idempotency_conflict_error, duplicate_idempotency_key_error, webhook_delivery_error,
  integrity_error, retry_error, http_error, http_exception, other_error, cancelled_error,
  is_domain_error, is_exception, Result, ok, err, raise_if, >>=-eq-ok, Result-cases,
}
unfoldable pub use Errors.{class_name, message_of}
pub use Prim.Native.Nat.{ℕ, zero, suc, ◌+◌, ◌-◌, ◌*◌, ◌/◌, ◌%◌, ◌^◌, ◌≤◌, ◌<◌, max}
pub use Prim.Native.String.{String}
pub use mathlib.Core.Path.{◌≡◌, refl, sym, ap, ◌∙◌, fun_ext}
pub use mathlib.Core.Logic.{◌≢◌, ◌↔◌, ◌⊎◌, inl, inr}
pub use mathlib.Core.Bool.{Bool, true, false, not, ◌&&◌, ◌||◌}
pub use mathlib.Core.Option.{Option, none, some}
pub use mathlib.Core.List.{List, [], ◌∷◌, ◌++◌, map}
pub use native.Mathlib.Omega.{arith}
