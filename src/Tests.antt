-- ===== src/Tests.antt =====
-- The theorems applied to concrete inputs of the program.
pub mod Client
pub mod Epoll
pub mod Net
pub mod Poll
pub mod Pollfd
pub mod Measuring
pub mod Time
pub mod Uring
