-- ===== src/Devices.antt =====
-- The simple devices, each behind its command handler and its task.
pub mod Json
pub mod Relay
pub mod Trigger
pub mod Edges
pub mod Scanner
pub mod Wiegand
pub mod Led
pub mod Display
pub mod Turns
pub mod SharedLine
mod LineTests
pub mod Sample
mod Tests
mod Reader
