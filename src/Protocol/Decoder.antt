-- ===== src/Protocol/Decoder.antt =====
-- protocol/decode.go: the decoder, from the registered parsers and the signal to the packets.
pub mod Config
pub mod Search
pub mod Slice
pub mod Filter
pub mod Receive
pub mod FanOut
pub mod Air
pub mod Tests
