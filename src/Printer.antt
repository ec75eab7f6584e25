-- ===== src/Printer.antt =====
-- The receipt printer: the transfer buffer, the commands written to it, and the handler of its jobs.
pub mod Buffer
pub mod Commands
pub mod Text
pub mod Mode
pub mod Image
pub mod Barcode
pub mod Status
pub mod Startup
pub mod Usb
pub mod Descriptors
pub mod Lending
pub mod Asking
pub mod Job
pub mod Lines
pub mod Receipt
pub mod Overrun
pub mod Reader
pub mod Shows
pub mod Ticket
pub mod Decode
pub mod Handler
pub mod Semaphores
pub mod Exclusion
pub mod Sample
mod TicketTests
mod UsbTests
mod Tests
