-- ===== src/Tests.antt =====
-- Concrete instances of what the library takes as parameters, and runs of the theorems on them.
mod Assoc
mod World
mod Accounts
mod Contest
mod Disk
mod Writes
mod Login
mod Heaps
mod Requests
mod Streams
mod Startup
mod Reopening
mod Traffic
mod Storage
mod Shelf
