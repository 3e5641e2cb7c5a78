-- ===== src/Baetyl.antt =====
-- baetyl-bacnet and main.go: the slaves and the workers of the baetyl framework.
pub mod Config
pub mod Slave
pub mod Worker
pub mod Delta
pub mod Service
pub mod Setup
pub mod Driver
