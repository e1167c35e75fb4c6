-- ===== src/Tests.antt =====
-- The theorems at concrete inputs, and the file system that they run against.
mod Disk
mod Settings
mod Storing
mod Commands
mod Bmc
mod Polling
mod Directing
mod Chains
mod Booting
mod Plans
mod Hosts
mod Shelf
mod Reading
mod Executing
mod Copying
mod Pulls
mod Sites
mod Boxes
