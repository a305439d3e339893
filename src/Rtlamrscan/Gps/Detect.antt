-- ===== src/Rtlamrscan/Gps/Detect.antt =====
-- The search for a baud rate: detectGPSPort, over what the reads of the port return.
pub mod Laws
use rtlamr.Base.{
  ℕ, ◌-◌, List, [], ◌∷◌, ◌++◌, Bool, true, false, ltb, if◌then◌else◌, Option, none, some, length,
  drop,
}
use rtlamr.Base.Text.{Bytes}
use rtlamr.Rtlamrscan.Gps.Nmea.{contains_valid_nmea}

-- `gpsBaudCandidates`.
abbrev pub gps_baud_candidates : List ℕ
gps_baud_candidates = 460800 ∷ 9600 ∷ 115200 ∷ 38400 ∷ 57600 ∷ 4800 ∷ []

-- The window is cut to its last 1024 bytes when it exceeds 8192.
unfoldable pub bound : Bytes → Bytes
bound window = if ltb 8192 (length window) then drop (length window - 1024) window else window

-- The reads at one baud rate until the deadline; `none` is an error of a read.
unfoldable pub read_window : Bytes → List (Option Bytes) → Bool
read_window window [] = false
read_window window (none ∷ reads) = false
read_window window (some p ∷ reads) =
    let rest = read_window (bound (window ++ p)) reads in
    if contains_valid_nmea (window ++ p) then true else rest

-- What the port gives at a baud rate: `none` if the rate cannot be set.
unfoldable pub detect : (ℕ → Option (List (Option Bytes))) → List ℕ → Option ℕ
detect port [] = none
detect port (baud ∷ bauds) =
    let rest = detect port bauds in
    elim (port baud) [ none ↦ rest | some reads ↦ if read_window [] reads then some baud else rest ]

-- The rates to try: a forced one alone.
unfoldable pub candidates : ℕ → List ℕ
candidates forced = if ltb 0 forced then forced ∷ [] else gps_baud_candidates

-- `detectGPSPort` for a port that opens: the rate found, or `none` for its error.
unfoldable pub detect_gps_port : (ℕ → Option (List (Option Bytes))) → ℕ → Option ℕ
detect_gps_port port forced = detect port (candidates forced)
