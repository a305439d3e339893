-- ===== src/Rtlamrscan/Run.antt =====
-- cmd/rtlamrscan/main.go: the dongles, the frequencies, the decoders and their restarts.
pub mod Plan
pub mod Dongles
pub mod Instances
pub mod Restart
