-- ===== src/Base/Text/Trim.antt =====
-- Go's `strings` and `bytes` functions that look for a byte and that trim.
use Prim.Native.Nat.{ℕ, suc}
use mathlib.Core.Path.{◌≡◌, refl}
use mathlib.Core.Bool.{Bool, true, false, not, ◌||◌, ◌&&◌}
use mathlib.Core.Option.{Option, none, some}
use mathlib.Core.List.{List, [], ◌∷◌, ◌++◌}
use native.Mathlib.Omega.{arith}
use rtlamr.Base.Tests.{leb, ◌==◌, ==_refl, if◌then◌else◌}
use rtlamr.Base.Lists.{length, all_of, All}
use rtlamr.Base.Text.{Bytes}

-- `strings.LastIndexByte`.
unfoldable pub last_index_byte : Bytes → ℕ → Option ℕ
last_index_byte [] c = none
last_index_byte (x ∷ xs) c = elim (last_index_byte xs c) [
  | some i ↦ some (suc i)
  | none ↦ if x == c then some 0 else none
]

-- `bytes.IndexByte`.
unfoldable pub index_byte : Bytes → ℕ → Option ℕ
index_byte [] c = none
index_byte (x ∷ xs) c =
    let rest = index_byte xs c in
    if x == c then some 0 else elim rest [ none ↦ none | some i ↦ some (suc i) ]

-- The end of a text without the bytes of a cutset.
unfoldable pub trim_right : (ℕ → Bool) → Bytes → Bytes
trim_right cut [] = []
trim_right cut (c ∷ s) = elim (trim_right cut s) [
  | [] ↦ if cut c then [] else c ∷ []
  | d ∷ ds ↦ c ∷ d ∷ ds
]

unfoldable pub trim_left : (ℕ → Bool) → Bytes → Bytes
trim_left cut [] = []
trim_left cut (c ∷ s) = let rest = trim_left cut s in if cut c then rest else c ∷ s

unfoldable pub is_space : ℕ → Bool
is_space c = c == b' ' || (leb 9 c && leb c 13)

-- `strings.TrimSpace` on ASCII text.
unfoldable pub trim_space : Bytes → Bytes
trim_space s = trim_right is_space (trim_left is_space s)

abbrev pub Lacks : ℕ → Bytes → Type 0
Lacks c = All (λ x. (x == c) ≡ false)

pub last_index_byte-Lacks : (s : Bytes) (c : ℕ) → Lacks c s → last_index_byte s c ≡ none
unfolding last_index_byte
last_index_byte-Lacks [] c h = refl
last_index_byte-Lacks (x ∷ xs) c (h, hs) = rw (last_index_byte-Lacks xs c hs, h) refl

-- The last of the separators is the one that no other follows.
pub last_index_byte-append :
    (s t : Bytes) (c : ℕ) → Lacks c t → last_index_byte (s ++ c ∷ t) c ≡ some (length s)
unfolding last_index_byte
last_index_byte-append [] t c h = rw (last_index_byte-Lacks t c h, ==_refl c) refl
last_index_byte-append (x ∷ xs) t c h = rw (last_index_byte-append xs t c h) refl

pub index_byte-Lacks : (s : Bytes) (c : ℕ) → Lacks c s → index_byte s c ≡ none
unfolding index_byte
index_byte-Lacks [] c h = refl
index_byte-Lacks (x ∷ xs) c (h, hs) = rw (index_byte-Lacks xs c hs, h) refl

-- The first of the separators is the one that none precedes.
pub index_byte-append :
    (s t : Bytes) (c : ℕ) → Lacks c s → index_byte (s ++ c ∷ t) c ≡ some (length s)
unfolding index_byte
index_byte-append [] t c h = rw (==_refl c) refl
index_byte-append (x ∷ xs) t c (h, hs) = rw (index_byte-append xs t c hs, h) refl

pub trim_right_none :
    (cut : ℕ → Bool) (s : Bytes) (c : ℕ)
    → cut c ≡ false
    → trim_right cut (s ++ c ∷ []) ≡ s ++ c ∷ []
unfolding trim_right
trim_right_none cut [] c h = rw h refl
trim_right_none cut (x ∷ []) c h = rw (trim_right, h) refl
trim_right_none cut (x ∷ y ∷ s) c h = rw (trim_right_none cut (y ∷ s) c h) refl

pub trim_right_all :
    (cut : ℕ → Bool) (s t : Bytes)
    → All (λ x. cut x ≡ true) t
    → trim_right cut (s ++ t) ≡ trim_right cut s
unfolding trim_right
trim_right_all cut [] [] h = refl
trim_right_all cut [] (c ∷ t) (h, hs) = rw (trim_right_all cut [] t hs, h) refl
trim_right_all cut (x ∷ s) t h = rw (trim_right_all cut s t h) refl

-- The same by a test, for texts that are known.
abbrev pub lacks : ℕ → Bytes → Bool
lacks c = all_of (λ x. not (x == c))

pub lacks-Lacks : (c : ℕ) (s : Bytes) → lacks c s ≡ true → Lacks c s
lacks-Lacks c [] h = tt
lacks-Lacks c (x ∷ s) h = (ground arith, lacks-Lacks c s (ground arith))

pub lacks-All : (c : ℕ) (ss : List Bytes) → all_of (lacks c) ss ≡ true → All (Lacks c) ss
lacks-All c [] h = tt
lacks-All c (s ∷ ss) h = (lacks-Lacks c s (ground arith), lacks-All c ss (ground arith))
