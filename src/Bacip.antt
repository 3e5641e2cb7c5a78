-- ===== src/Bacip.antt =====
-- The package bacip: services, network packets, transactions and the client.
pub mod Services
pub mod Apdu
pub mod Npdu
pub mod Bvlc
pub mod Transaction
pub mod Client
pub mod Names
