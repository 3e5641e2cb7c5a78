-- ===== src/Encoding.antt =====
-- The package internal/encoding: the byte buffers, the tags, the encoder and the decoder.
pub mod Bytes
pub mod Buffer
pub mod Tag
pub mod Encoder
pub mod Decoder
pub mod RoundTrip
