-- ===== src/Examples.antt =====
-- Concrete frames, rings and sessions.
pub mod Capturing
pub mod Checking
pub mod Choosing
pub mod Closing
pub mod Commands
pub mod Configuring
pub mod Decoding
pub mod Hashing
pub mod Joining
pub mod Names
pub mod Playing
pub mod Pressing
pub mod Queueing
pub mod Showing
pub mod Wiring
pub mod Written
pub mod Sizing
pub mod Reporting
