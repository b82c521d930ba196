-- ===== src/Domain.antt =====
-- app/domain: the payment entity, its value objects and its enumerations.
pub mod Enums
pub mod Values
pub mod Payment
