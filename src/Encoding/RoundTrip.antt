-- ===== src/Encoding/RoundTrip.antt =====
-- The decoder's methods read back what the encoder's methods write.
pub mod Unsigned
pub mod Signed
pub mod Context
pub mod AppData
pub mod Answers
pub mod Abstract
