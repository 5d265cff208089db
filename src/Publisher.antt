-- ===== src/Publisher.antt =====
-- The publisher web client (publisher_client/src).
pub mod Ct
pub mod Message
pub mod Brokers
pub mod Selection
pub mod Uuid
pub mod Hook
pub mod Panel
pub mod Camera
mod Tests
