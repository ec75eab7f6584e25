-- ===== src/Camera.antt =====
-- main/camera/usb_camera.c: the camera's stream, its USB host, and its tasks.
mod Stream
mod Received
mod Sent
mod Drain
pub mod Usb
mod Loop
mod Handle
pub mod Start
mod ListRing
mod Tests
