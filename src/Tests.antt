-- ===== src/Tests.antt =====
-- Runs of the definitions on small inputs, and the theorems at concrete ones.
mod Text
mod Blocks
mod Heap
mod Kernel
mod Paging
mod Devices
mod Files
mod Tokens
mod Start
mod Buses
mod Sections
mod Screens
mod Calls
mod Booting
mod Disk
