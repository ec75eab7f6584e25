-- ===== src/Server.antt =====
-- main/main.c: the WebSocket server: handshakes, frames, broadcasts and the two watch tasks.
pub mod Uri
pub mod Defs
pub mod Handler
pub mod Commands
pub mod Session
pub mod Broadcast
pub mod Watchdog
pub mod Camera
pub mod Async
pub mod Invariant
pub mod Tidy
pub mod Live
pub mod Capacity
pub mod Start
pub mod Sample
mod Tests
