-- ===== src/Examples.antt =====
-- The theorems at concrete inputs.
mod Macros
mod Wire
mod Streams
mod Threads
mod Clients
mod Calls
mod Errors
mod Servers
mod Restart
mod Pools
