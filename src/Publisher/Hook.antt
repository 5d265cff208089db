-- ===== src/Publisher/Hook.antt =====
-- publisher_client/src/hooks/usePublisher.js: the publisher hook as a state machine.
pub mod State
pub mod Queue
pub mod Connection
pub mod Delivery
pub mod Return
pub mod Step
pub mod Frame
pub mod Log
pub mod Tidy
pub mod Liveness
pub mod Offline
pub mod Steps
pub mod TidySteps
