-- ===== src/Rtlamrscan.antt =====
-- cmd/rtlamrscan: the program that starts a decoder for each dongle and writes what they decode.
pub mod Doubles
pub mod Columns
pub mod Gps
pub mod Stats
pub mod Sink
pub mod Run
pub mod Tests
