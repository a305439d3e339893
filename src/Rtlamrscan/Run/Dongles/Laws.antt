-- ===== src/Rtlamrscan/Run/Dongles/Laws.antt =====
-- The dongles that are found.
use rtlamr.Base.{
  ℕ, zero, suc, ◌+◌, ◌≤◌, ◌<◌, Bool, true, false, ltb, ◌&&◌, ◌==◌, none, some, ◌≡◌, sym, ap, ◌∙◌,
  inl, inr, Bool-cases, arith,
}
use rtlamr.Rtlamrscan.Run.Dongles.{
  max_dongles, Mode, survey, water, mixed, wanted, start_from, start_dongles, valid_dongles,
}

-- What `n` dongles found from device `d` on tell of the devices, with `left` to try.
abbrev Found : (ℕ → ℕ → Bool) → ℕ → Bool → ℕ → ℕ → ℕ → Type 0
Found start base_port detect left d n =
    (d ≤ n)
    × (n ≤ d + left)
    × ((k : ℕ) → d ≤ k → k < n → start k (base_port + k) ≡ true)
    × (n < d + left → (detect ≡ true) × (start n (base_port + n) ≡ false) × (0 < n))

start_from-Found :
    (start : ℕ → ℕ → Bool) (base_port : ℕ) (detect : Bool) (left d n : ℕ)
    → start_from start base_port detect left d d ≡ some n
    → Found start base_port detect left d n
unfolding start_from
start_from-Found start base_port detect zero d n h =
    let same : d ≡ n = ground arith in
    (omega arith, omega arith, λ k lo hi. absurd (omega arith), λ lt. absurd (omega arith))
start_from-Found start base_port detect (suc left) d n h =
    elim (Bool-cases (start d (base_port + d))) [
      | inl up ↦
          let (ge, le, started, stopped) =
            start_from-Found start base_port detect left (suc d) n (rw up at h) in
          (
            omega (arith, ge),
            omega (arith, le),
            λ k lo hi. elim (Bool-cases (k == d)) [
              | inl e ↦
                  let same : k ≡ d = ground arith in ap (λ d. start d (base_port + d)) same ∙ up
              | inr e ↦ started k (ground arith) hi
            ],
            λ lt. stopped (omega arith),
          )
      | inr down ↦ elim (Bool-cases (detect && ltb 0 d)) [
        | inr e ↦ absurd (let bad : none ≡ some n = rw (down, e) at h in cc)
        | inl e ↦
            let kept : some d ≡ some n = rw (down, e) at h in
            let same : d ≡ n = ground arith in
            (
              omega arith,
              omega arith,
              λ k lo hi. absurd (omega arith),
              λ lt.
                  (ground arith, ap (λ d. start d (base_port + d)) (sym same) ∙ down, ground arith),
            )
      ]
    ]

wanted-bounds :
    (mode : Mode) (dongles : ℕ)
    → valid_dongles dongles ≡ true
    → (0 < wanted mode dongles) × (wanted mode dongles ≤ max_dongles)
unfolding wanted valid_dongles
wanted-bounds survey dongles h = ground arith
wanted-bounds water dongles h = ground arith
wanted-bounds mixed dongles h = ground arith

-- If the flag is valid and the search for dongles ends without a fatal error, between one and three
-- are found, no more than are wanted, and rtl_tcp is up for each of the first devices, on the port
-- behind the base port; fewer than wanted are found only in detection, and then the next device does
-- not start.
pub start_dongles-found :
    (start : ℕ → ℕ → Bool) (base_port : ℕ) (mode : Mode) (dongles n : ℕ)
    → valid_dongles dongles ≡ true
    → start_dongles start base_port mode dongles ≡ some n
    → (0 < n)
      × (n ≤ max_dongles)
      × (n ≤ wanted mode dongles)
      × ((k : ℕ) → k < n → start k (base_port + k) ≡ true)
      × (n < wanted mode dongles → (dongles ≡ 0) × (start n (base_port + n) ≡ false))
unfolding start_dongles
start_dongles-found start base_port mode dongles n valid h =
    let (pos, cap) = wanted-bounds mode dongles valid in
    let (_, le, started, stopped) =
      start_from-Found start base_port (dongles == 0) (wanted mode dongles) 0 n h in
    (
      elim (Bool-cases (ltb n (wanted mode dongles))) [
        | inl less ↦ (stopped (ground arith)).2
        | inr all ↦ ground (arith, pos)
      ],
      omega (arith, le, cap),
      omega (arith, le),
      λ k lt. started k (omega arith) lt,
      λ less. let (zero_flag, down, _) = stopped (omega arith) in (ground arith, down),
    )
