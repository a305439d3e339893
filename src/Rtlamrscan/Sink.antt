-- ===== src/Rtlamrscan/Sink.antt =====
-- The files that cmd/rtlamrscan/main.go writes: csvSink, prefixWriter and surveyMapper.
pub mod Lines
pub mod Prefix
pub mod Survey
