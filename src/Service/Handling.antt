-- ===== src/Service/Handling.antt =====
-- What holds of `Handle` of internal/service/service.go: of its events, and of its end.
pub mod Rules
pub mod Trace
pub mod Windows
pub mod Devices
pub mod Entered
pub mod Attempts
pub mod Sessions
pub mod Delivered
pub mod Delivery
pub mod Requests
pub mod Patience
pub mod Halting
pub mod Ending
pub mod Rounds
pub mod Completion
pub mod Counts
pub mod Keeping
