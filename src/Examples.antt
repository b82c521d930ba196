-- ===== src/Examples.antt =====
-- The theorems at concrete inputs, and a system in memory that behaves as they suppose.
pub mod Memory
pub mod Sorted
pub mod Lawful
pub mod Data
pub mod Configured
mod Values
mod Payments
pub mod Creation
mod Schema
pub mod Sending
pub mod Telling
mod Running
mod Posting
mod Requests
mod Delivery
