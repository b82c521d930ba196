-- ===== src/Application.antt =====
-- app/application: the use cases and the interfaces that they are written against.
pub mod Dto
pub mod Interfaces
pub mod Events
pub mod CreatePayment
pub mod GetPayment
pub mod ProcessPayment
