-- ===== src/Rtlamrscan/Run/Instances/Laws.antt =====
-- The decoders that main starts, one for each of the first devices.
use rtlamr.Base.{
  ℕ, zero, suc, ◌+◌, ◌≤◌, ◌<◌, List, [], ◌∷◌, Bool, true, false, leb, Option, none, some, length,
  get_elem?, All, ◌≡◌, refl, ap, ap₂, ◌∙◌, ◌⊎◌, inl, inr, Bool-cases, Option-cases, arith,
}
use rtlamr.Base.Text.{Bytes, codes, bytes_eq}
use rtlamr.Rtlamrscan.Run.Dongles.{
  max_dongles, Mode, survey, water, mixed, start_dongles, valid_dongles,
}
use rtlamr.Rtlamrscan.Run.Dongles.Laws.{start_dongles-found}
use rtlamr.Rtlamrscan.Run.Instances.{
  mode_of, Instance, Flags, System, Launch, fatal, panic, tested, launched, gps_first, all_created,
  out_paths, launch_dongles, gain_set_of, each_device, survey_instance, water_instance,
  mixed_instances, instances, plan_instances, launch,
}
use rtlamr.Rtlamrscan.Run.Plan.{FreqPlan, planned, invalid, too_few, freq_plan}
use rtlamr.Rtlamrscan.Run.Plan.Laws.{freq_plan-length}

get_elem?-some : (l : List ℕ) (i : ℕ) → i < length l → (n : ℕ) × (get_elem? l i ≡ some n)
get_elem?-some [] i h = absurd (omega arith)
get_elem?-some (x ∷ l) zero h = (x, refl)
get_elem?-some (x ∷ l) (suc i) h = get_elem?-some l i (omega arith)

gps_first_cases :
    (sys : System) (flags : Flags)
    → ((gps_first sys flags ≡ none) × (flags.gps_test ≡ false))
      ⊎ (gps_first sys flags ≡ some fatal)
      ⊎ ((gps_first sys flags ≡ some tested)
          × (flags.gps_test ≡ true)
          × (sys.start_gps flags.gps_port ≡ true))
unfolding gps_first
gps_first_cases sys flags = elim (Bool-cases (bytes_eq flags.gps_port [])) [
  | inl no_port ↦ elim (Bool-cases flags.gps_test) [
    | inl test ↦ rw (gps_first, no_port, test) (inr (inl refl))
    | inr scan ↦ inl (rw (gps_first, no_port, scan) refl, scan)
  ]
  | inr port ↦ elim (Bool-cases (sys.start_gps flags.gps_port)) [
    | inr closed ↦ inr (inl (rw (gps_first, port, closed) refl))
    | inl opened ↦ elim (Bool-cases flags.gps_test) [
      | inl test ↦ inr (inr (rw (gps_first, port, opened, test) refl, test, opened))
      | inr scan ↦ inl (rw (gps_first, port, opened, scan) refl, scan)
    ]
  ]
]

module _ (base_port : ℕ) where
  -- Instances of consecutive devices, each on its own port.
  abbrev pub InOrder : ℕ → List Instance → Type 0
  InOrder d [] = Unit
  InOrder d (i ∷ l) = (i.device ≡ d) × (i.port ≡ base_port + d) × InOrder (suc d) l

  each_device-InOrder :
      (make : ℕ → ℕ → Instance) (plan : List ℕ) (d left : ℕ)
      → ((d freq : ℕ) → ((make d freq).device ≡ d) × ((make d freq).port ≡ base_port + d))
      → d + left ≤ length plan
      → (l : List Instance) × (each_device make plan d left ≡ some l)
        × (length l ≡ left)
        × InOrder d l
  unfolding each_device
  each_device-InOrder make plan d zero h le = ([], refl, refl, tt)
  each_device-InOrder make plan d (suc left) h le =
      let (freq, there) = get_elem?-some plan d (omega (arith, le)) in
      let (l, made, size, order) =
        each_device-InOrder make plan (suc d) left h (omega (arith, le)) in
      (
        make d freq ∷ l,
        rw (each_device, there, made) refl,
        ap suc size,
        ((h d freq).0, (h d freq).1, order),
      )

  InOrder-started :
      (start : ℕ → ℕ → Bool) (n d : ℕ) (l : List Instance)
      → InOrder d l
      → d + length l ≤ n
      → ((k : ℕ) → k < n → start k (base_port + k) ≡ true)
      → All (λ i. start i.device i.port ≡ true) l
  InOrder-started start n d [] order le up = tt
  InOrder-started start n d (i ∷ l) (device, port, order) le up = (
    ap₂ start device port ∙ up d (omega (arith, le)),
    InOrder-started start n (suc d) l order (omega (arith, le)) up,
  )

  module _ (gain : Bytes) (in_dir : Bytes → Bytes) (time : Bytes) where
    -- Some instances, at most as many as there are dongles.
    abbrev Made : ℕ → Option (List Instance) → Type 0
    Made found result =
        (l : List Instance) × (result ≡ some l) × (0 < length l) × (length l ≤ found) × InOrder 0 l

    mixed-Made :
        (gain_set : Bool) (found : ℕ)
        → 0 < found
        → Made found (some (mixed_instances base_port gain in_dir time gain_set found))
    unfolding mixed_instances
    mixed-Made gain_set found pos = elim (Bool-cases (leb 2 found)) [
      | inl two ↦
          rw two (_, refl, omega arith, ground arith, (refl, omega arith, (refl, omega arith, tt)))
      | inr one ↦ rw one (_, refl, omega arith, omega arith, (refl, omega arith, tt))
    ]

    each-Made :
        (make : ℕ → ℕ → Instance) (plan : List ℕ) (found : ℕ)
        → ((d freq : ℕ) → ((make d freq).device ≡ d) × ((make d freq).port ≡ base_port + d))
        → 0 < found
        → length plan ≡ found
        → Made found (each_device make plan 0 found)
    each-Made make plan found h pos e =
        let (l, made, size, order) = each_device-InOrder make plan 0 found h (omega (arith, e)) in
        (l, made, omega (arith, size), omega (arith, size), order)

    -- Either a fatal error, or instances that are made.
    abbrev Outcome : ℕ → Launch → Type 0
    Outcome found result =
        (result ≡ fatal)
        ⊎ ((l : List Instance) × (result ≡ launched l)
            × (0 < length l)
            × (length l ≤ found)
            × InOrder 0 l)

    listed-Outcome :
        (gain_set : Bool) (mode : Mode) (freqs : Bytes) (found : ℕ) (p : FreqPlan)
        → 0 < found
        → found ≤ max_dongles
        → freq_plan freqs found ≡ p
        → ((plan : List ℕ)
            → length plan ≡ found
            → Made found (instances base_port gain in_dir time gain_set mode plan found))
        → Outcome found (elim p [
          | planned plan ↦ elim (instances base_port gain in_dir time gain_set mode plan found) [
            | none ↦ panic
            | some l ↦ launched l
          ]
          | invalid s ↦ fatal
          | too_few n ↦ fatal
        ])
    listed-Outcome gain_set mode freqs found (invalid s) pos le e make = inl refl
    listed-Outcome gain_set mode freqs found (too_few n) pos le e make = inl refl
    listed-Outcome gain_set mode freqs found (planned plan) pos le e make =
        let (l, made, some_made, size, order) =
          make plan (freq_plan-length freqs found plan pos le e) in
        inr (l, rw made refl, some_made, size, order)

    plan_instances-Outcome :
        (gain_set : Bool) (freqs : Bytes) (mode : Mode) (found : ℕ)
        → 0 < found
        → found ≤ max_dongles
        → Outcome found (plan_instances base_port gain in_dir time gain_set freqs mode found)
    unfolding plan_instances instances survey_instance water_instance
    plan_instances-Outcome gain_set freqs survey found pos le =
        listed-Outcome gain_set survey freqs found (freq_plan freqs found) pos le refl
          (λ plan size. each-Made _ plan found (λ d freq. (refl, refl)) pos size)
    plan_instances-Outcome gain_set freqs water found pos le =
        listed-Outcome gain_set water freqs found (freq_plan freqs found) pos le refl
          (λ plan size. each-Made _ plan found (λ d freq. (refl, refl)) pos size)
    plan_instances-Outcome gain_set freqs mixed found pos le =
        let (l, made, some_made, size, order) = mixed-Made gain_set found pos in
        let same : mixed_instances base_port gain in_dir time gain_set found ≡ l = cc in
        inr (l, ap launched same, some_made, size, order)

    -- What main comes to with its flags: an error, the end of the GPS test, or decoders.
    abbrev Launches : System → Flags → Launch → Type 0
    Launches sys flags result =
        (result ≡ fatal)
        ⊎ ((result ≡ tested) × (flags.gps_test ≡ true) × (sys.start_gps flags.gps_port ≡ true))
        ⊎ ((flags.gps_test ≡ false)
            × ((l : List Instance) × (result ≡ launched l)
                × (0 < length l)
                × (length l ≤ max_dongles)
                × InOrder 0 l
                × All (λ i. sys.start_rtl_tcp i.device i.port ≡ true) l))

    launch_dongles-Launches :
        (sys : System) (flags : Flags) (m : Mode)
        → valid_dongles flags.dongles ≡ true
        → flags.gps_test ≡ false
        → Launches sys flags (launch_dongles base_port gain in_dir time sys flags m)
    unfolding launch_dongles
    launch_dongles-Launches sys flags m valid scan =
        elim (Option-cases (start_dongles sys.start_rtl_tcp base_port m flags.dongles)) [
          | inl k ↦ rw (launch_dongles, k) (inl refl)
          | inr (n, k) ↦
              elim (Bool-cases
                (all_created sys.create (out_paths base_port gain in_dir time m n))) [
                  | inr bad ↦ rw (launch_dongles, k, bad) (inl refl)
                  | inl made ↦
                      let (pos, cap, _, up, _) =
                        start_dongles-found sys.start_rtl_tcp base_port m flags.dongles n valid k in
                      rw (launch_dongles, k, made)
                        (elim (plan_instances-Outcome (gain_set_of m flags.gain_flag) flags.freqs m
                          n pos cap) [
                            | inl f ↦ inl f
                            | inr (l, runs, some_made, size, order) ↦ inr (
                                inr (
                                  scan,
                                  (
                                    l,
                                    runs,
                                    some_made,
                                    omega (arith, size, cap),
                                    order,
                                    InOrder-started sys.start_rtl_tcp n 0 l order
                                        (omega (arith, size)) up,
                                  ),
                                ))
                          ])
                ]
        ]

    gps_first-Launches :
        (sys : System) (flags : Flags) (m : Mode)
        → valid_dongles flags.dongles ≡ true
        → Launches sys flags (elim (gps_first sys flags) [
          | some ended ↦ ended
          | none ↦ launch_dongles base_port gain in_dir time sys flags m
        ])
    gps_first-Launches sys flags m valid = elim (gps_first_cases sys flags) [
      | inl (on, scan) ↦ rw on (launch_dongles-Launches sys flags m valid scan)
      | inr (inl stop) ↦ rw stop (inl refl)
      | inr (inr (ended, test, opened)) ↦ rw ended (inr (inl (refl, test, opened)))
    ]

    -- Whatever the flags say, whichever dongles there are and whatever else fails, main does not index
    -- a plan out of range: it ends with a fatal error; or it ends the test of a GPS that it could open,
    -- which only the flag -gpstest asks for; or, without that flag, it starts between one and three
    -- decoders, for the first devices in their order, each on the port behind the base port that
    -- rtl_tcp was started on for its device, which succeeded for each of them.
    pub launch-InOrder :
        (sys : System) (flags : Flags)
        → let result = launch base_port gain in_dir time sys flags in
          (result ≡ fatal)
          ⊎ ((result ≡ tested) × (flags.gps_test ≡ true) × (sys.start_gps flags.gps_port ≡ true))
          ⊎ ((flags.gps_test ≡ false)
              × ((l : List Instance) × (result ≡ launched l)
                  × (0 < length l)
                  × (length l ≤ max_dongles)
                  × InOrder 0 l
                  × All (λ i. sys.start_rtl_tcp i.device i.port ≡ true) l))
    unfolding launch
    launch-InOrder sys flags = elim (Option-cases (mode_of flags.mode)) [
      | inl e ↦ rw (launch, e) (inl refl)
      | inr (m, e) ↦ elim (Bool-cases (valid_dongles flags.dongles)) [
        | inr bad ↦ rw (launch, e, bad) (inl refl)
        | inl valid ↦ elim (Bool-cases (sys.find_binary (codes "rtl_tcp"))) [
          | inr absent ↦ rw (launch, e, valid, absent) (inl refl)
          | inl tcp ↦ elim (Bool-cases (sys.find_binary (codes "rtlamr"))) [
            | inr absent ↦ rw (launch, e, valid, tcp, absent) (inl refl)
            | inl amr ↦ rw (launch, e, valid, tcp, amr) (gps_first-Launches sys flags m valid)
          ]
        ]
      ]
    ]
