-- ===== src/Rtlamrscan/Run/Instances.antt =====
-- The decoders that main starts: their devices, ports, arguments, labels and files.
pub mod Laws
use rtlamr.Base.{
  ℕ, zero, suc, ◌+◌, ◌<◌, List, [], ◌∷◌, ◌++◌, Bool, true, false, ltb, leb, not, ◌||◌, ◌==◌,
  if◌then◌else◌, Option, none, some, get_elem?, ◌>>=◌,
}
use rtlamr.Base.Text.{Bytes, codes, bytes_eq, format_uint}
use rtlamr.Rtlamrscan.Run.Dongles.{Mode, survey, water, mixed, start_dongles, valid_dongles}
use rtlamr.Rtlamrscan.Run.Plan.{FreqPlan, planned, invalid, too_few, freq_plan}

-- `*mode`; `none` is the fatal error.
unfoldable pub mode_of : Bytes → Option Mode
mode_of s =
    if bytes_eq s (codes "survey")
    then some survey
    else if bytes_eq s (codes "water")
    then some water
    else if bytes_eq s (codes "mixed")
    then some mixed
    else none

-- What an instance's lines go to: a mapper with its radio and frequency, or the file.
pub data Rows : Type 0 where
  mapped : (radio freq_hz : ℕ) → Rows
  written : Rows

-- An `instance`, with the frequency that `wrap` shows on the dashboard.
pub record Instance : Type 0 where
  pub device : ℕ
  pub port : ℕ
  pub args : List Bytes
  pub label : Bytes
  pub rows : Rows
  pub display_freq : ℕ
  pub out_path : Bytes

unfoldable pub freq_args : ℕ → List Bytes
freq_args freq = if freq == 0 then [] else codes "-centerfreq" ∷ format_uint freq 10 ∷ []

-- `wrap` and the survey show the default center in place of 0.
unfoldable pub shown_freq : ℕ → ℕ
shown_freq freq = if freq == 0 then 912380000 else freq

-- How the loops over the dongles go on: an index out of range is a panic.
unfoldable pub each_device : (ℕ → ℕ → Instance) → List ℕ → ℕ → ℕ → Option (List Instance)
each_device make plan device zero = some []
each_device make plan device (suc left) = elim (get_elem? plan device) [
  | none ↦ none
  | some freq ↦ elim (each_device make plan (suc device) left) [
    | none ↦ none
    | some rest ↦ some (make device freq ∷ rest)
  ]
]

-- What main comes to before it waits: a fatal error, a panic, the end of a test of the GPS, or the
-- decoders that it starts.
pub data Launch : Type 0 where
  fatal : Launch
  panic : Launch
  tested : Launch
  launched : List Instance → Launch

-- The flags that main goes by; an empty port is none.
pub record Flags : Type 0 where
  pub mode : Bytes
  pub dongles : ℕ
  pub freqs : Bytes
  pub gain_flag : Bool
  pub gps_port : Bytes
  pub gps_test : Bool

-- Whether the calls that main makes of the system succeed: `findBinary`, `startGPS`, `startRtlTCP` on
-- a device and a port, and `newCSVSink`.
pub record System : Type 0 where
  pub find_binary : Bytes → Bool
  pub start_gps : Bytes → Bool
  pub start_rtl_tcp : ℕ → ℕ → Bool
  pub create : Bytes → Bool

-- The part of main about the GPS: `none` goes on to the dongles.
unfoldable pub gps_first : System → Flags → Option Launch
gps_first sys flags =
    let test : Option Launch = if flags.gps_test then some tested else none in
    if bytes_eq flags.gps_port []
    then (if flags.gps_test then some fatal else none)
    else if sys.start_gps flags.gps_port
    then test
    else some fatal

-- `gainSet`: in a survey, or with the flag.
unfoldable pub gain_set_of : Mode → Bool → Bool
gain_set_of survey flag = true
gain_set_of water flag = flag
gain_set_of mixed flag = flag

-- The calls of `newCSVSink`; the first that fails is fatal.
unfoldable pub all_created : (Bytes → Bool) → List Bytes → Bool
all_created create [] = true
all_created create (path ∷ paths) =
    let rest = all_created create paths in if create path then rest else false

-- `gain` is the text of the tuner gain, `in_dir` joins a file's name to the directory, and `time` is
-- the timestamp.
module _ (base_port : ℕ) (gain : Bytes) (in_dir : Bytes → Bytes) (time : Bytes) where
  unfoldable pub gain_args : Bool → List Bytes
  gain_args gain_set = if gain_set then codes "-tunergain" ∷ gain ∷ [] else []

  unfoldable pub survey_instance : Bool → ℕ → ℕ → Instance
  survey_instance gain_set device freq = record {
    device = device;
    port = base_port + device;
    args = codes "-msgtype" ∷ codes "r900" ∷ [] ++ freq_args freq ++ gain_args gain_set;
    label = codes "[radio" ++ format_uint device 10 ++ codes "]";
    rows = mapped device (shown_freq freq);
    display_freq = shown_freq freq;
    out_path = in_dir (codes "survey_" ++ time ++ codes ".csv");
  }

  unfoldable pub water_instance : Bool → ℕ → ℕ → Instance
  water_instance gain_set device freq = record {
    device = device;
    port = base_port + device;
    args =
        codes "-msgtype" ∷ codes "r900" ∷ codes "-unique" ∷ codes "true" ∷ []
        ++ freq_args freq
        ++ gain_args gain_set;
    label = codes "[r900-" ++ format_uint device 10 ++ codes "]";
    rows = written;
    display_freq = shown_freq freq;
    out_path = in_dir (codes "r900_" ++ time ++ codes ".csv");
  }

  unfoldable pub mixed_instances : Bool → ℕ → List Instance
  mixed_instances gain_set found =
      let first : Instance = record {
        device = 0;
        port = base_port;
        args =
            codes "-msgtype" ∷ codes "r900" ∷ codes "-unique" ∷ codes "true" ∷ []
            ++ gain_args gain_set;
        label = codes "[r900]";
        rows = written;
        display_freq = 912380000;
        out_path = in_dir (codes "r900_" ++ time ++ codes ".csv");
      } in
      let second : Instance = record {
        device = 1;
        port = base_port + 1;
        args =
            codes "-msgtype" ∷ codes "scm,scm+,idm" ∷ codes "-unique" ∷ codes "true" ∷ []
            ++ gain_args gain_set;
        label = codes "[ert]";
        rows = written;
        display_freq = 912600155;
        out_path = in_dir (codes "ert_" ++ time ++ codes ".csv");
      } in
      if leb 2 found then first ∷ second ∷ [] else first ∷ []

  -- The `switch` over the modes.
  unfoldable pub instances : Bool → Mode → List ℕ → ℕ → Option (List Instance)
  instances gain_set survey plan found = each_device (survey_instance gain_set) plan 0 found
  instances gain_set water plan found = each_device (water_instance gain_set) plan 0 found
  instances gain_set mixed plan found = some (mixed_instances gain_set found)

  -- The files that are created, in their order.
  unfoldable pub out_paths : Mode → ℕ → List Bytes
  out_paths survey found = in_dir (codes "survey_" ++ time ++ codes ".csv") ∷ []
  out_paths water found = in_dir (codes "r900_" ++ time ++ codes ".csv") ∷ []
  out_paths mixed found =
      in_dir (codes "r900_" ++ time ++ codes ".csv")
      ∷ (if leb 2 found then in_dir (codes "ert_" ++ time ++ codes ".csv") ∷ [] else [])

  unfoldable pub plan_instances : Bool → Bytes → Mode → ℕ → Launch
  plan_instances gain_set freqs mode found =
      let start : List ℕ → Launch =
        λ plan. elim (instances gain_set mode plan found) [ none ↦ panic | some l ↦ launched l ] in
      let listed : Launch = elim (freq_plan freqs found) [
        | planned plan ↦ start plan
        | invalid s ↦ fatal
        | too_few n ↦ fatal
      ] in
      elim mode [ survey ↦ listed | water ↦ listed | mixed ↦ start [] ]

  -- The part of main from the search for dongles on.
  unfoldable pub launch_dongles : System → Flags → Mode → Launch
  launch_dongles sys flags m = elim (start_dongles sys.start_rtl_tcp base_port m flags.dongles) [
    | none ↦ fatal
    | some found ↦
        if all_created sys.create (out_paths m found)
        then plan_instances (gain_set_of m flags.gain_flag) flags.freqs m found
        else fatal
  ]

  -- The part of main from the flags to the decoders.
  unfoldable pub launch : System → Flags → Launch
  launch sys flags = elim (mode_of flags.mode) [
    | none ↦ fatal
    | some m ↦
        let go : Launch = elim (gps_first sys flags) [
          | some ended ↦ ended
          | none ↦ launch_dongles sys flags m
        ] in
        if not (valid_dongles flags.dongles)
        then fatal
        else if not (sys.find_binary (codes "rtl_tcp"))
        then fatal
        else if not (sys.find_binary (codes "rtlamr"))
        then fatal
        else go
  ]
