-- ===== src/Bindings.antt =====
-- The runtime of the Go bindings, go/src/fidl/bindings: the archive format's encoder and decoder.
pub mod Util
pub mod State
pub mod Encoder
pub mod Decoder
pub mod Words
pub mod AfterBool
mod Tests
pub mod Message
