-- ===== src/Client/Hook.antt =====
-- client/src/hooks/useMqtt.js: the hook that keeps the monitor's state, as a state machine. Each
-- function takes the clock readings that its source function makes.
pub mod State
pub mod Updates
pub mod Messages
pub mod Step
pub mod Failover
pub mod Feed
pub mod Moves
pub mod LastWill
pub mod Redelivery
pub mod Versions
pub mod View
