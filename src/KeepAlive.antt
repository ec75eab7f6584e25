-- ===== src/KeepAlive.antt =====
-- main/keep_alive.c: the table of clients that the server pings, the task that owns it, and the
-- calls that queue actions for the task. The FreeRTOS queue and `esp_timer_get_time` are parameters:
-- a reading of the timer is `esp_timer n`, with the number of readings taken so far passed along.
pub mod Defs
pub mod Table
pub mod Delay
pub mod Timer
pub mod Unique
pub mod Round
pub mod Passed
pub mod Pass
pub mod Engine
pub mod Refine
pub mod Task
pub mod Slots
pub mod Life
pub mod Silent
pub mod Sizes
mod Tests
