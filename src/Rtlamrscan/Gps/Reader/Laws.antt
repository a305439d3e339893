-- ===== src/Rtlamrscan/Gps/Reader/Laws.antt =====
-- What the reader's state says of all the sentences that it has handled.
use mathlib.Core.Path.{subst}
use rtlamr.Base.{
  ℕ, ◌-◌, List, [], ◌∷◌, Bool, true, false, ◌&&◌, ◌||◌, ltb, leb, if◌then◌else◌, Option, none, some,
  length, slice, get_or, drop, ◌≡◌, refl, sym, ap, ◌∙◌, inl, inr, Bool-cases, Option-cases, arith,
  ◌<◌,
}
use rtlamr.Base.Text.{Bytes, codes, bytes_eq, bytes_eq_iff, split}
use rtlamr.Rtlamrscan.Doubles.{Doubles}
use rtlamr.Rtlamrscan.Gps.Nmea.{nmea_checksum_ok}
use rtlamr.Rtlamrscan.Gps.Sentence.{Fix, zero_fix, is_type, parse_gga, parse_rmc}
use rtlamr.Rtlamrscan.Gps.Reader.{
  GpsReader, GpsStatus, since, new_reader, handle_sentence, current, handle_all, status_snapshot,
}

-- The result of the last element that has one, and of the first.
abbrev pub last_some {ℓ κ} : {A : Type ℓ} {B : Type κ} → (A → Option B) → List A → Option B
last_some f [] = none
last_some f (x ∷ xs) = elim (last_some f xs) [ some b ↦ some b | none ↦ f x ]

abbrev pub first_some {ℓ κ} : {A : Type ℓ} {B : Type κ} → (A → Option B) → List A → Option B
first_some f [] = none
first_some f (x ∷ xs) = elim (f x) [ some b ↦ some b | none ↦ first_some f xs ]

abbrev pub or_else {ℓ} : {A : Type ℓ} → Option A → A → A
or_else none d = d
or_else (some a) d = a

or_else-last_some :
    {A B : Type 0} (f : A → Option B) (x : A) (xs : List A) (d : B)
    → or_else (last_some f xs) (or_else (f x) d) ≡ or_else (last_some f (x ∷ xs)) d
or_else-last_some {B = B} f x xs d = go (last_some f xs)
  where
    go :
        (o : Option B)
        → or_else o (or_else (f x) d) ≡ or_else (elim o [ some b ↦ some b | none ↦ f x ]) d
    go none = refl
    go (some b) = refl

type_name :
    (name : Bytes) (fields : List Bytes)
    → is_type name fields ≡ true
    → drop 2 (get_or fields 0 []) ≡ name
unfolding is_type
type_name name fields h = ground (arith, bytes_eq_iff (drop 2 (get_or fields 0 [])) name)

not_both :
    (fields : List Bytes)
    → is_type (codes "GGA") fields ≡ true
    → is_type (codes "RMC") fields ≡ false
not_both fields h = elim (Bool-cases (is_type (codes "RMC") fields)) [
  | inr e ↦ e
  | inl e ↦
      let same : bytes_eq (codes "GGA") (codes "RMC") ≡ true =
        (bytes_eq_iff (codes "GGA") (codes "RMC")).1
          (sym (type_name (codes "GGA") fields h) ∙ type_name (codes "RMC") fields e) in
      absurd (unfold bytes_eq in (let bad : false ≡ true = same in cc))
]

long_enough : (s payload : Bytes) → nmea_checksum_ok s ≡ some payload → 3 < length s
unfolding nmea_checksum_ok
long_enough s payload h = elim (Bool-cases (ltb (length s) 4)) [
  | inl e ↦ absurd (let bad : none ≡ some payload = rw e at h in cc)
  | inr e ↦ ground arith
]

two_letters : (s : Bytes) → 2 < length s → bytes_eq (slice s 1 3) [] ≡ false
unfolding bytes_eq
two_letters [] h = absurd (omega arith)
two_letters (x ∷ []) h = absurd (omega arith)
two_letters (x ∷ y ∷ s) h = refl

module _ (fl : Doubles) where
  open fl use {D}

  -- The fix that a sentence reports, if it is a GGA sentence, and whether it is usable.
  abbrev pub gga_of : ℕ × Bytes → Option (Fix D × Bool)
  gga_of (now, s) =
      let (fix, valid, ok) = parse_gga fl s in
      if ok then some (record fix { when = now }, valid) else none

  abbrev pub talker_of : ℕ × Bytes → Option Bytes
  talker_of (now, s) =
      let (fix, valid, ok) = parse_gga fl s in if ok then some (slice s 1 3) else none

  -- Speed and course with their time, if a sentence is an RMC sentence that is usable.
  abbrev pub motion_of : ℕ × Bytes → Option (D × D × Option ℕ)
  motion_of (now, s) =
      let (speed_kmh, course, valid, ok) = parse_rmc fl s in
      if ok && valid then some (speed_kmh, course, some now) else none

  abbrev pub any_fix : List (ℕ × Bytes) → Bool
  any_fix [] = false
  any_fix ((now, s) ∷ log) = let (fix, valid, ok) = parse_gga fl s in (ok && valid) || any_fix log

  -- A sentence that is GGA is long enough for a talker, and is not RMC.
  gga_only : (s : Bytes) → (parse_gga fl s).2 ≡ true → (2 < length s) × ((parse_rmc fl s).3 ≡ false)
  unfolding parse_gga parse_rmc
  gga_only s h = elim (Option-cases (nmea_checksum_ok s)) [
    | inl e ↦ absurd (let bad : false ≡ true = rw (parse_gga, e) at h in cc)
    | inr (payload, e) ↦ elim (Bool-cases (is_type (codes "GGA") (split payload b','))) [
      | inr k ↦ absurd (let bad : false ≡ true = rw (parse_gga, e, k) at h in cc)
      | inl k ↦ (omega (arith, long_enough s payload e), rw (parse_rmc, e, not_both _ k) refl)
    ]
  ]

  module _ (now : ℕ) (s : Bytes) (g : GpsReader D) where
    abbrev g' : GpsReader D
    g' = handle_sentence fl now s g

    step_fix : (g'.fix, g'.valid) ≡ or_else (gga_of (now, s)) (g.fix, g.valid)
    unfolding handle_sentence
    step_fix = elim (Bool-cases ((parse_gga fl s).2)) [
      | inl ok ↦ rw (handle_sentence, ok) refl
      | inr ok ↦ elim (Bool-cases ((parse_rmc fl s).3 && (parse_rmc fl s).2)) [
        | inl rmc ↦ rw (handle_sentence, ok, rmc) refl
        | inr rmc ↦ rw (handle_sentence, ok, rmc) refl
      ]
    ]

    step_motion :
        (g'.speed_kmh, g'.course, g'.motion_when)
        ≡ or_else (motion_of (now, s)) (g.speed_kmh, g.course, g.motion_when)
    unfolding handle_sentence
    step_motion = elim (Bool-cases ((parse_gga fl s).2)) [
      | inl ok ↦ let (_, no_rmc) = gga_only s ok in rw (handle_sentence, ok, no_rmc) refl
      | inr ok ↦ elim (Bool-cases ((parse_rmc fl s).3 && (parse_rmc fl s).2)) [
        | inl rmc ↦ rw (handle_sentence, ok, rmc) refl
        | inr rmc ↦ rw (handle_sentence, ok, rmc) refl
      ]
    ]

    step_had_fix : g'.had_fix ≡ g.had_fix || ((parse_gga fl s).2 && (parse_gga fl s).1)
    unfolding handle_sentence
    step_had_fix = ground arith

    step_talker :
        g'.talker ≡ (if bytes_eq g.talker [] then or_else (talker_of (now, s)) [] else g.talker)
    unfolding handle_sentence
    step_talker = elim (Bool-cases ((parse_gga fl s).2)) [
      | inl ok ↦
          let long : leb 3 (length s) ≡ true = ground (arith, gga_only s ok) in
          elim (Bool-cases (bytes_eq g.talker [])) [
            | inl e ↦ rw (handle_sentence, ok, long, e) refl
            | inr e ↦ rw (handle_sentence, ok, long, e) refl
          ]
      | inr ok ↦ ground (arith, bytes_eq_iff g.talker [])
    ]

  all_fix :
      (log : List (ℕ × Bytes)) (g : GpsReader D)
      → let g' = handle_all fl log g in
        (g'.fix, g'.valid) ≡ or_else (last_some gga_of log) (g.fix, g.valid)
  unfolding handle_all
  all_fix [] g = refl
  all_fix ((now, s) ∷ log) g =
      all_fix log (handle_sentence fl now s g)
      ∙ ap (or_else (last_some gga_of log)) (step_fix now s g)
      ∙ or_else-last_some gga_of (now, s) log (g.fix, g.valid)

  all_motion :
      (log : List (ℕ × Bytes)) (g : GpsReader D)
      → let g' = handle_all fl log g in
        (g'.speed_kmh, g'.course, g'.motion_when)
        ≡ or_else (last_some motion_of log) (g.speed_kmh, g.course, g.motion_when)
  unfolding handle_all
  all_motion [] g = refl
  all_motion ((now, s) ∷ log) g =
      all_motion log (handle_sentence fl now s g)
      ∙ ap (or_else (last_some motion_of log)) (step_motion now s g)
      ∙ or_else-last_some motion_of (now, s) log (g.speed_kmh, g.course, g.motion_when)

  all_had_fix :
      (log : List (ℕ × Bytes)) (g : GpsReader D)
      → (handle_all fl log g).had_fix ≡ g.had_fix || any_fix log
  unfolding handle_all
  all_had_fix [] g = ground arith
  all_had_fix ((now, s) ∷ log) g =
      ground (arith, all_had_fix log (handle_sentence fl now s g), step_had_fix now s g)

  talker_kept :
      (log : List (ℕ × Bytes)) (g : GpsReader D)
      → bytes_eq g.talker [] ≡ false
      → (handle_all fl log g).talker ≡ g.talker
  unfolding handle_all
  talker_kept [] g h = refl
  talker_kept ((now, s) ∷ log) g h =
      let same : (handle_sentence fl now s g).talker ≡ g.talker = step_talker now s g ∙ rw h refl in
      talker_kept log (handle_sentence fl now s g) (rw same h) ∙ same

  all_talker :
      (log : List (ℕ × Bytes)) (g : GpsReader D)
      → g.talker ≡ []
      → (handle_all fl log g).talker ≡ or_else (first_some talker_of log) []
  unfolding handle_all bytes_eq
  all_talker [] g h = h
  all_talker ((now, s) ∷ log) g h = elim (Bool-cases ((parse_gga fl s).2)) [
    | inr ok ↦
        let same : (handle_sentence fl now s g).talker ≡ [] =
          step_talker now s g ∙ rw (h, ok) refl in
        all_talker log (handle_sentence fl now s g) same ∙ rw (first_some, ok) refl
    | inl ok ↦
        let set : (handle_sentence fl now s g).talker ≡ slice s 1 3 =
          step_talker now s g ∙ rw (h, ok) refl in
        let two : bytes_eq (slice s 1 3) [] ≡ false = two_letters s (gga_only s ok).0 in
        talker_kept log (handle_sentence fl now s g) (rw set two) ∙ set ∙ rw (or_else, ok) refl
  ]

  -- After any log of sentences, each with the time at which it was handled: the fix and its
  -- validity are those of the last GGA sentence in the log; a fix was ever had exactly if some GGA
  -- sentence of the log is usable; the talker is the one of the first GGA sentence, and never
  -- changes; and speed and course are those of the last usable RMC sentence.
  pub handle_all-view :
      (log : List (ℕ × Bytes))
      → let g = handle_all fl log (new_reader fl) in
        ((g.fix, g.valid) ≡ or_else (last_some gga_of log) (zero_fix fl, false))
        × (g.had_fix ≡ any_fix log)
        × (g.talker ≡ or_else (first_some talker_of log) [])
        × ((g.speed_kmh, g.course, g.motion_when)
            ≡ or_else (last_some motion_of log) (fl.zero_d, fl.zero_d, none))
  unfolding new_reader
  handle_all-view log = (
    all_fix log (new_reader fl),
    all_had_fix log (new_reader fl),
    all_talker log (new_reader fl) refl,
    all_motion log (new_reader fl),
  )

  -- A fix that is usable and not older than the age allowed.
  abbrev pub fresh_fix : ℕ → ℕ → Option (Fix D × Bool) → Option (Fix D)
  fresh_fix now max_age none = none
  fresh_fix now max_age (some (fix, valid)) =
      if valid && leb (now - fix.when) max_age then some fix else none

  -- The dashboard shows a position exactly if there is one, and then that one.
  abbrev pub Shows : GpsStatus D → Option (Fix D) → Type 0
  Shows st none = st.has_fix ≡ false
  Shows st (some fix) = (st.has_fix ≡ true) × (st.lat ≡ fix.lat) × (st.lon ≡ fix.lon)

  current-fresh_fix :
      (now max_age : ℕ) (g : GpsReader D)
      → current fl now max_age g ≡ fresh_fix now max_age (some (g.fix, g.valid))
  unfolding current since
  current-fresh_fix now max_age g = ground arith

  status_snapshot-Shows :
      (now max_age : ℕ) (g : GpsReader D)
      → Shows (status_snapshot fl now max_age g) (fresh_fix now max_age (some (g.fix, g.valid)))
  unfolding status_snapshot since
  status_snapshot-Shows now max_age g =
      elim (Bool-cases (g.valid && leb (now - g.fix.when) max_age)) [
        | inl e ↦ rw e (refl, refl, refl)
        | inr e ↦ rw e refl
      ]

  -- After any log of sentences, `current` gives a fix exactly if the last GGA sentence in the log is
  -- usable and not older than the age allowed, and then the fix of that sentence; and the dashboard
  -- has a fix exactly if `current` gives one, with the same position.
  pub current-latest :
      (log : List (ℕ × Bytes)) (now max_age : ℕ)
      → let g = handle_all fl log (new_reader fl) in
        let latest = fresh_fix now max_age (last_some gga_of log) in
        (current fl now max_age g ≡ latest) × Shows (status_snapshot fl now max_age g) latest
  unfolding new_reader
  current-latest log now max_age = (
    current-fresh_fix now max_age g ∙ same,
    subst (Shows (status_snapshot fl now max_age g)) same (status_snapshot-Shows now max_age g),
  )
    where
      g : GpsReader D
      g = handle_all fl log (new_reader fl)

      same :
          fresh_fix now max_age (some (g.fix, g.valid))
          ≡ fresh_fix now max_age (last_some gga_of log)
      same =
          ap (λ f. fresh_fix now max_age (some f)) (all_fix log (new_reader fl))
          ∙ go (last_some gga_of log)
        where
          go :
              (o : Option (Fix D × Bool))
              → fresh_fix now max_age (some (or_else o (zero_fix fl, false)))
                ≡ fresh_fix now max_age o
          go none = refl
          go (some f) = refl
