-- ===== src/Rtlamrscan/Gps/Detect/Laws.antt =====
-- When a baud rate is found.
use rtlamr.Base.{
  ℕ, List, [], ◌∷◌, ◌++◌, append_assoc, append-nil, map, true, false, ltb, Option, some, length,
  length-append, ◌≡◌, refl, sym, ap, ◌∙◌, ◌≤◌, inl, inr, Bool-cases, Option-cases, arith, flatten,
}
use rtlamr.Base.Text.{Bytes}
use rtlamr.Base.Text.Trim.{Lacks}
use rtlamr.Rtlamrscan.Gps.Nmea.{contains_valid_nmea}
use rtlamr.Rtlamrscan.Gps.Nmea.Laws.{AreBytes, sealed_line, contains_valid_nmea-line}
use rtlamr.Rtlamrscan.Gps.Detect.{bound, read_window, detect, candidates, detect_gps_port}

bound-small : (window : Bytes) → length window ≤ 8192 → bound window ≡ window
unfolding bound
bound-small window h = let e : ltb 8192 (length window) ≡ false = ground arith in rw e refl

-- Reads that make up a text with a sentence, and no more than a window holds, are enough.
read_window-found :
    (window p : Bytes) (chunks : List Bytes) (later : List (Option Bytes))
    → length (window ++ flatten (p ∷ chunks)) ≤ 8192
    → contains_valid_nmea (window ++ flatten (p ∷ chunks)) ≡ true
    → read_window window (map some (p ∷ chunks) ++ later) ≡ true
unfolding read_window
read_window-found window p [] later le h =
    let e : contains_valid_nmea (window ++ p) ≡ true =
      ap (λ s. contains_valid_nmea (window ++ s)) (sym (append-nil p)) ∙ h in
    rw e refl
read_window-found window p (q ∷ chunks) later le h =
    elim (Bool-cases (contains_valid_nmea (window ++ p))) [
      | inl e ↦ rw (read_window, e) refl
      | inr e ↦
          let same : (window ++ p) ++ flatten (q ∷ chunks) ≡ window ++ flatten (p ∷ q ∷ chunks) =
            append_assoc window p (flatten (q ∷ chunks)) in
          let small : length (window ++ p) ≤ 8192 =
            omega (arith, le, ap length same, length-append (window ++ p) (flatten (q ∷ chunks))) in
          rw (read_window, e, bound-small (window ++ p) small)
            (read_window-found (window ++ p) q chunks later (rw same le)
              (ap contains_valid_nmea same ∙ h))
    ]

detect-found :
    (port : ℕ → Option (List (Option Bytes))) (before after : List ℕ) (baud : ℕ)
    (reads : List (Option Bytes))
    → port baud ≡ some reads
    → read_window [] reads ≡ true
    → (b : ℕ) × (detect port (before ++ baud ∷ after) ≡ some b)
unfolding detect
detect-found port [] after baud reads e h = (baud, rw (detect, e, h) refl)
detect-found port (b ∷ before) after baud reads e h =
    let (c, found) = detect-found port before after baud reads e h in
    elim (Option-cases (port b)) [
      | inl k ↦ (c, rw (detect, k) found)
      | inr (rs, k) ↦ elim (Bool-cases (read_window [] rs)) [
        | inl hit ↦ (b, rw (detect, k, hit) refl)
        | inr miss ↦ (c, rw (detect, k, miss) found)
      ]
    ]

-- A baud rate is found if at one of the rates to try the reads, however they are cut, begin with at
-- most 8192 bytes in which a sealed sentence of bytes stands on a line of its own.
pub detect_gps_port-sentence :
    (port : ℕ → Option (List (Option Bytes))) (forced baud : ℕ) (before after : List ℕ)
    (payload noise rest p : Bytes) (chunks : List Bytes) (later : List (Option Bytes))
    → AreBytes payload
    → Lacks b'\n' payload
    → candidates forced ≡ before ++ baud ∷ after
    → port baud ≡ some (map some (p ∷ chunks) ++ later)
    → flatten (p ∷ chunks) ≡ noise ++ b'\n' ∷ (sealed_line payload ++ b'\n' ∷ rest)
    → length (flatten (p ∷ chunks)) ≤ 8192
    → (b : ℕ) × (detect_gps_port port forced ≡ some b)
unfolding detect_gps_port
detect_gps_port-sentence port forced baud before after payload noise rest p chunks later h one_line
      tried reads text small =
    rw tried (
      detect-found port before after baud (map some (p ∷ chunks) ++ later) reads (
        read_window-found [] p chunks later small
          (ap contains_valid_nmea text ∙ contains_valid_nmea-line payload h one_line noise rest)))
