-- ===== src/Client.antt =====
-- The monitoring web client (client/src).
mod Tests
pub mod Collation
pub mod Endpoint
pub mod EventText
pub mod EventView
pub mod Failover
pub mod Snapshots
pub mod Drawing
pub mod Graph
pub mod Hook
pub mod Page
pub mod Parsers
pub mod Presentation
pub mod Transitions
pub mod Visibility
