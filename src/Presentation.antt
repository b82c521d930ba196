-- ===== src/Presentation.antt =====
-- app/presentation: the consumer of the broker's messages and the HTTP API.
pub mod Retry
pub mod Consumer
pub mod Api
pub mod Running
