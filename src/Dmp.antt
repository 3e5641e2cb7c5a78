-- ===== src/Dmp.antt =====
-- dmp: the names and the values of a device's model, and of the BACnet properties behind them.
pub mod Framework
pub mod Adapter
