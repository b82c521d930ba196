-- ===== src/Infrastructure.antt =====
-- app/infrastructure: the tables and their access, the broker's topology, the gateway and the webhook
-- sender.
pub mod Models
pub mod Schema
pub mod Mappers
pub mod Topology
pub mod Invariant
pub mod Platform
pub mod Session
pub mod Repositories
pub mod Relay
pub mod Webhook
pub mod Gateway
pub mod Config
pub mod Settings
