-- ===== src/Network.antt =====
-- internal/network/network.go: one interface, its DHCP lease, and the loop that keeps it alive.
pub mod Config
pub mod Timers
pub mod Renew
pub mod Link
pub mod Maintain
