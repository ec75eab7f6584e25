-- ===== src/Board.antt =====
-- The whole gateway: the server with its devices, whose commands, callbacks and tasks act on it.
mod Machine
mod Ends
mod Calls
mod Own
mod Session
mod Impulse
mod Start
mod Up
mod StartTests
mod Tests
