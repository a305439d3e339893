-- ===== src/Rtlamrscan/Columns.antt =====
-- The columns of the decoder's CSV rows, which stats.go and main.go of cmd/rtlamrscan find by the
-- names in the header row.
pub mod R900
use rtlamr.Base.{
  ℕ, zero, suc, ◌+◌, List, [], ◌∷◌, Bool, true, false, not, if◌then◌else◌, Option, none, some,
  length, get_or, All, ◌≡◌, refl, sym, ap, ◌∙◌, inl, inr, arith, Bool-cases, ◌<◌,
}
use rtlamr.Base.Text.{Bytes, codes, bytes_eq, bytes_eq_iff}
use rtlamr.Base.Text.Trim.{Lacks}

-- `colIdx`: the names with their indexes. A later entry hides an earlier one of its name.
abbrev pub ColIdx : Type 0
ColIdx = List (Bytes × ℕ)

-- The loop over the fields of a header row.
unfoldable pub index_from : ℕ → List Bytes → ColIdx → ColIdx
index_from idx [] m = m
index_from idx (name ∷ names) m = index_from (suc idx) names ((name, idx) ∷ m)

unfoldable pub index_names : List Bytes → ColIdx
index_names names = index_from 0 names []

-- `m.colIdx[name]`.
unfoldable pub index_of : ColIdx → Bytes → Option ℕ
index_of [] name = none
index_of ((k, idx) ∷ m) name =
    let rest = index_of m name in if bytes_eq k name then some idx else rest

-- The test for a header row.
unfoldable pub is_header : List Bytes → Bool
is_header [] = false
is_header (f ∷ fields) = bytes_eq f (codes "Time")

-- `get`: the field of a column, empty if the row or the header has none.
unfoldable pub get : ColIdx → List Bytes → Bytes → Bytes
get m fields name = elim (index_of m name) [ none ↦ [] | some idx ↦ get_or fields idx [] ]

get_or-Lacks :
    (c : ℕ) (fields : List Bytes) (idx : ℕ) → All (Lacks c) fields → Lacks c (get_or fields idx [])
get_or-Lacks c [] idx h = tt
get_or-Lacks c (f ∷ fields) zero (h, hs) = h
get_or-Lacks c (f ∷ fields) (suc idx) (h, hs) = get_or-Lacks c fields idx hs

-- A field of a split row holds no separator.
pub get-Lacks :
    (c : ℕ) (m : ColIdx) (fields : List Bytes) (name : Bytes)
    → All (Lacks c) fields
    → Lacks c (get m fields name)
unfolding get
get-Lacks c m fields name h = go (index_of m name)
  where
    go : (o : Option ℕ) → Lacks c (elim o [ none ↦ [] | some idx ↦ get_or fields idx [] ])
    go none = tt
    go (some idx) = get_or-Lacks c fields idx h
