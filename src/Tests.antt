-- ===== src/Tests.antt =====
-- The theorems at concrete inputs, and runs of the code.
mod Lifecycle
mod Networks
mod Filter
mod Tunnel
mod Wifi
mod Routing
mod Removal
mod Sequences
mod Process
mod Visit
mod World
mod Helpers
mod Loop
mod Packet
mod Desk
mod Startup
mod Address
mod Kernel
mod Uplink
