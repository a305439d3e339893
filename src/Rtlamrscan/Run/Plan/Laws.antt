-- ===== src/Rtlamrscan/Run/Plan/Laws.antt =====
-- Which frequencies a plan holds, and which errors stop it.
use mathlib.Core.Path.{subst}
use rtlamr.Base.{
  ℕ, ◌≤◌, ◌<◌, List, [], ◌∷◌, ◌++◌, append_assoc, append-nil, false, ltb, ◌==◌, Option, none, some,
  map, length, length-take, drop, take-append-drop, suc, ◌≡◌, refl, sym, ap, ◌∙◌, inl, inr,
  Bool-cases, Option-cases, arith,
}
use rtlamr.Base.Text.{Bytes, split, bytes_eq}
use rtlamr.Base.Text.Parse.{parse_uint}
use rtlamr.Base.Text.Trim.{trim_space}
use rtlamr.Rtlamrscan.Run.Plan.{FreqPlan, planned, invalid, too_few, cut_plan, read_plan, freq_plan}

-- The first value that is not a number of 32 bits.
abbrev pub first_bad : List Bytes → Option Bytes
first_bad [] = none
first_bad (s ∷ values) = elim (parse_uint (trim_space s) 10 32).1 [
  | some e ↦ some s
  | none ↦ first_bad values
]

abbrev pub frequencies : List Bytes → List ℕ
frequencies = map (λ s. (parse_uint (trim_space s) 10 32).0)

-- What a plan, or a refusal, says of the number of dongles and of the values: the first bad value,
-- or too few of them, or as many of their numbers as there are dongles, from the first on.
abbrev pub Plans : ℕ → List Bytes → FreqPlan → Type 0
Plans count values (invalid s) = first_bad values ≡ some s
Plans count values (too_few n) = (first_bad values ≡ none) × (n ≡ length values) × (n < count)
Plans count values (planned plan) =
    (first_bad values ≡ none)
    × (length plan ≡ count)
    × ((rest : List ℕ) × (frequencies values ≡ plan ++ rest))

read_plan-front :
    (count : ℕ) (plan : List ℕ) (values : List Bytes)
    → read_plan count plan values ≡ elim (first_bad values) [
      | some s ↦ invalid s
      | none ↦ cut_plan count (plan ++ frequencies values)
    ]
unfolding read_plan
read_plan-front count plan [] = ap (cut_plan count) (sym (append-nil plan))
read_plan-front count plan (s ∷ values) = elim (Option-cases (parse_uint (trim_space s) 10 32).1) [
  | inr (e, h) ↦ rw (read_plan, first_bad, h) refl
  | inl h ↦
      rw (read_plan, first_bad, h)
        (read_plan-front count (plan ++ (parse_uint (trim_space s) 10 32).0 ∷ []) values
          ∙ ap
              (λ (l : List ℕ). elim (first_bad values) [
                | some s ↦ invalid s
                | none ↦ cut_plan count l
              ])
              (append_assoc plan ((parse_uint (trim_space s) 10 32).0 ∷ []) (frequencies values)))
]

length-frequencies : (values : List Bytes) → length (frequencies values) ≡ length values
length-frequencies [] = refl
length-frequencies (s ∷ values) = ap suc (length-frequencies values)

cut_plan-Plans :
    (count : ℕ) (values : List Bytes)
    → first_bad values ≡ none
    → Plans count values (cut_plan count (frequencies values))
unfolding cut_plan
cut_plan-Plans count values good = elim (Bool-cases (ltb (length (frequencies values)) count)) [
  | inl less ↦ rw less (good, length-frequencies values, ground arith)
  | inr enough ↦ rw enough (
    good,
    ground (arith, length-take count (frequencies values)),
    (drop count (frequencies values), sym (take-append-drop count (frequencies values))),
  )
]

-- A list of frequencies is refused at its first value that is not a decimal number of 32 bits, with
-- spaces around it allowed, and if all of them are then it is refused exactly if there are fewer
-- than dongles; otherwise the plan is that of the values in their order, as many as there are dongles.
pub freq_plan-Plans :
    (freqs : Bytes) (count : ℕ)
    → bytes_eq freqs [] ≡ false
    → Plans count (split freqs b',') (freq_plan freqs count)
unfolding freq_plan
freq_plan-Plans freqs count ne =
    rw (ne, read_plan-front count [] (split freqs b',')) (go (first_bad (split freqs b',')) refl)
  where
    go :
        (o : Option Bytes)
        → first_bad (split freqs b',') ≡ o
        → Plans count
            (split freqs b',')
            (elim o [ some s ↦ invalid s | none ↦ cut_plan count (frequencies (split freqs b',')) ])
    go (some s) e = e
    go none e = cut_plan-Plans count (split freqs b',') e

Plans-length :
    (count : ℕ) (values : List Bytes) (p : FreqPlan) (plan : List ℕ)
    → Plans count values p
    → p ≡ planned plan
    → length plan ≡ count
Plans-length count values p plan h e =
    let made : Plans count values (planned plan) = subst (Plans count values) e h in made.1

-- A plan for one to three dongles holds a frequency for each, listed or not.
pub freq_plan-length :
    (freqs : Bytes) (count : ℕ) (plan : List ℕ)
    → 0 < count
    → count ≤ 3
    → freq_plan freqs count ≡ planned plan
    → length plan ≡ count
unfolding freq_plan
freq_plan-length freqs count plan pos le h = elim (Bool-cases (bytes_eq freqs [])) [
  | inr e ↦
      Plans-length count (split freqs b',') (freq_plan freqs count) plan
        (freq_plan-Plans freqs count e) h
  | inl e ↦ elim (Bool-cases (count == 1)) [
    | inl one ↦
        let same : planned (0 ∷ []) ≡ planned plan = rw (e, one) at h in
        let kept : 0 ∷ [] ≡ plan = cc in ground (arith, ap length kept)
    | inr more ↦ elim (Bool-cases (count == 2)) [
      | inl two ↦
          let same : planned (911200000 ∷ 913560000 ∷ []) ≡ planned plan = rw (e, more, two) at h in
          let kept : 911200000 ∷ 913560000 ∷ [] ≡ plan = cc in ground (arith, ap length kept)
      | inr three ↦
          let same : planned (906000000 ∷ 912380000 ∷ 918500000 ∷ []) ≡ planned plan =
            rw (e, more, three) at h in
          let kept : 906000000 ∷ 912380000 ∷ 918500000 ∷ [] ≡ plan = cc in
          ground (arith, ap length kept)
    ]
  ]
]
