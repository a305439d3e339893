-- ===== src/Base/Text/Split.antt =====
-- Splitting a text at a separator and joining its parts again.
use Prim.Native.Nat.{ℕ}
use mathlib.Core.Path.{◌≡◌, refl, ◌∙◌}
use mathlib.Core.Logic.{inl, inr}
use mathlib.Core.List.{List, [], ◌∷◌, ◌++◌}
use rtlamr.Base.Tests.{◌==◌, ==_refl, Bool-cases}
use rtlamr.Base.Lists.{All}
use rtlamr.Base.Text.{Bytes, split, join}
use rtlamr.Base.Text.Trim.{Lacks}

-- Splitting gives at least one part.
pub split-cons : (s : Bytes) (sep : ℕ) → (p : Bytes) × (ps : List Bytes) × (split s sep ≡ p ∷ ps)
unfolding split
split-cons [] sep = ([], [], refl)
split-cons (c ∷ s) sep =
    let (p, ps, e) = split-cons s sep in
    elim (Bool-cases (c == sep)) [
      | inl at_sep ↦ ([], p ∷ ps, rw (e, at_sep) refl)
      | inr inside ↦ (c ∷ p, ps, rw (e, inside) refl)
    ]

pub split_whole : (s : Bytes) (sep : ℕ) → Lacks sep s → split s sep ≡ s ∷ []
unfolding split
split_whole [] sep h = refl
split_whole (c ∷ s) sep (h, hs) = rw (split_whole s sep hs, h) refl

pub split-append : (s t : Bytes) (sep : ℕ) → split (s ++ sep ∷ t) sep ≡ split s sep ++ split t sep
unfolding split
split-append [] t sep = let (p, ps, e) = split-cons t sep in rw (e, ==_refl sep) refl
split-append (c ∷ s) t sep =
    let (p, ps, e) = split-cons s sep in
    rw (split-append s t sep, e)
      (elim (Bool-cases (c == sep)) [ inl h ↦ rw h refl | inr h ↦ rw h refl ])

-- No part holds the separator.
pub split-Lacks : (s : Bytes) (sep : ℕ) → All (Lacks sep) (split s sep)
unfolding split
split-Lacks [] sep = (tt, tt)
split-Lacks (c ∷ s) sep =
    let (p, ps, e) = split-cons s sep in
    let h : Lacks sep p × All (Lacks sep) ps = rw e at (split-Lacks s sep) in
    rw e (elim (Bool-cases (c == sep)) [
      | inl at_sep ↦ rw at_sep (tt, h)
      | inr inside ↦ rw inside ((inside, h.0), h.1)
    ])

-- Parts that do not hold the separator are what splitting their join gives.
pub split-join :
    (p : Bytes) (ps : List Bytes) (sep : ℕ)
    → All (Lacks sep) (p ∷ ps)
    → split (join (p ∷ ps) sep) sep ≡ p ∷ ps
unfolding join
split-join p [] sep (h, hs) = split_whole p sep h
split-join p (q ∷ ps) sep (h, hs) =
    split-append p (join (q ∷ ps) sep) sep ∙ rw (split_whole p sep h, split-join q ps sep hs) refl
