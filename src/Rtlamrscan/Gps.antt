-- ===== src/Rtlamrscan/Gps.antt =====
-- cmd/rtlamrscan/gps.go: the sentences of a GPS receiver and the state kept of them.
pub mod Nmea
pub mod Sentence
pub mod Reader
pub mod Detect
pub mod Tests
