-- ===== src/Rtlamrscan/Run/Dongles.antt =====
-- The loop of main that starts rtl_tcp for each dongle.
pub mod Laws
use rtlamr.Base.{
  ℕ, zero, suc, ◌+◌, ◌≤◌, ◌<◌, Bool, true, false, ltb, not, ◌&&◌, ◌==◌, if◌then◌else◌, Option, none,
  some, ◌≡◌, ◌⊎◌, refl, ap, ◌∙◌, inl, inr, Bool-cases, arith,
}

abbrev pub max_dongles : ℕ
max_dongles = 3

pub data Mode : Type 0 where
  survey : Mode
  water : Mode
  mixed : Mode

-- How many dongles to look for; 0 stands for detection.
unfoldable pub wanted : Mode → ℕ → ℕ
wanted survey dongles = if dongles == 0 then max_dongles else dongles
wanted mode dongles =
    let want = if dongles == 0 then max_dongles else dongles in if ltb 2 want then 2 else want

-- The loop from `device` on, with `left` devices still to try and `found` started; `start` tells
-- whether `startRtlTCP` on a device and a port succeeds, and `none` is the fatal error.
unfoldable pub start_from : (ℕ → ℕ → Bool) → ℕ → Bool → ℕ → ℕ → ℕ → Option ℕ
start_from start base_port detect zero device found = some found
start_from start base_port detect (suc left) device found =
    let rest = start_from start base_port detect left (suc device) (suc found) in
    if start device (base_port + device)
    then rest
    else if detect && ltb 0 device
    then some found
    else none

unfoldable pub start_dongles : (ℕ → ℕ → Bool) → ℕ → Mode → ℕ → Option ℕ
start_dongles start base_port mode dongles =
    start_from start base_port (dongles == 0) (wanted mode dongles) 0 0

-- The test of the flag `-dongles`, of which a negative value is refused as well.
unfoldable pub valid_dongles : ℕ → Bool
valid_dongles dongles = not (ltb max_dongles dongles)
