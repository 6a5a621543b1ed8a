-- ===== src/Uring.antt =====
-- code/c/server/io_uring: the memory tracker, the rings and the server on top of them.
pub mod Loop
pub mod Main
pub mod Measured
pub mod Ring
pub mod Server
pub mod Setup
pub mod Tracker
