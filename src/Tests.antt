-- ===== src/Tests.antt =====
-- The theorems at concrete inputs, a file for each part of the program.
pub mod Timers
pub mod Fibers
pub mod Executing
pub mod Running
pub mod Pool
pub mod Descriptors
pub mod Events
pub mod Rounds
pub mod Waiting
pub mod Serving
pub mod Hooks
pub mod Manager
