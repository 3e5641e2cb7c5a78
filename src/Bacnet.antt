-- ===== src/Bacnet.antt =====
-- The package bacnet: object identifiers, addresses, values and devices.
pub mod ObjectId
pub mod Address
pub mod Value
pub mod Device
pub mod Names
