-- ===== src/Main.antt =====
-- main.go: the options, the files, and how the parts are put together.
pub mod Options
pub mod Wordlist
pub mod Entries
pub mod Saved
pub mod Restart
pub mod NilMaps
pub mod RequestLog
pub mod Handover
pub mod Routes
pub mod Concurrent
pub mod Client
pub mod Usage
pub mod Startup
pub mod Periodic
mod Tests
