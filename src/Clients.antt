-- ===== src/Clients.antt =====
-- main/main.c: the tables of connected clients, one for each device.
pub mod Defs
pub mod Register
pub mod Close
pub mod Held
pub mod Sample
pub mod Total
