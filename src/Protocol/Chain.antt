-- ===== src/Protocol/Chain.antt =====
-- `FilterChain` of protocol/parse.go, over any kind of filter. A filter may change a state that
-- it keeps, as `UniqueFilter` does.
use rtlamr.Base.{List, [], ◌∷◌, ◌++◌, Bool, true, false, if◌then◌else◌}

module _ {ℓ κ} {F : Type ℓ} {M S : Type κ} (run : F → M → S → Bool × S) where
  -- `Match`: the filters after the first that refuses are not run.
  unfoldable pub match_chain : List F → M → S → Bool × S
  match_chain [] msg s = (true, s)
  match_chain (f ∷ fc) msg s =
      let (passed, s') = run f msg s in
      let rest = match_chain fc msg s' in if passed then rest else (false, s')

-- `Add`.
pub add_filter {ℓ} : {F : Type ℓ} → List F → F → List F
add_filter fc f = fc ++ f ∷ []
