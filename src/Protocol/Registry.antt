-- ===== src/Protocol/Registry.antt =====
-- `RegisterParser` and `NewParser` of protocol/parse.go. The mutex makes each call one step.
use rtlamr.Base.{
  ℕ, List, [], ◌∷◌, false, Option, none, some, ◌≡◌, ◌≢◌, refl, arith, if◌then◌else◌, inl, inr,
  Bool-cases, sym,
}
use rtlamr.Base.Text.{Bytes, bytes_eq, bytes_eq_iff}

module _ {ℓ} {P : Type ℓ} where
  -- The map `parsers` as an association list from names to constructors of parsers.
  unfoldable pub find : Bytes → List (Bytes × (ℕ → P)) → Option (ℕ → P)
  find name [] = none
  find name ((k, f) ∷ m) = if bytes_eq k name then some f else find name m

  -- `none` is the panic on a nil constructor or a name that is taken.
  unfoldable pub register_parser :
      Bytes → Option (ℕ → P) → List (Bytes × (ℕ → P)) → Option (List (Bytes × (ℕ → P)))
  register_parser name none parsers = none
  register_parser name (some f) parsers = elim (find name parsers) [
    | some g ↦ none
    | none ↦ some ((name, f) ∷ parsers)
  ]

  -- `none` is the error "invalid message type".
  unfoldable pub new_parser : Bytes → ℕ → List (Bytes × (ℕ → P)) → Option P
  new_parser name symbol_length parsers = elim (find name parsers) [
    | some f ↦ some (f symbol_length)
    | none ↦ none
  ]

module _ {ℓ} {P : Type ℓ} where
  registered :
      (name : Bytes) (f : ℕ → P) (parsers after : List (Bytes × (ℕ → P)))
      → register_parser name (some f) parsers ≡ some after
      → (find name parsers ≡ none) × (after ≡ (name, f) ∷ parsers)
  unfolding register_parser
  registered name f parsers after h = ground arith

  find_new :
      (name other : Bytes) (f : ℕ → P) (parsers : List (Bytes × (ℕ → P)))
      → (find name ((name, f) ∷ parsers) ≡ some f)
        × (other ≢ name → find other ((name, f) ∷ parsers) ≡ find other parsers)
  unfolding find
  find_new name other f parsers = (rw ((bytes_eq_iff name name).1 refl), λ ne. rw (unequal ne))
    where
      unequal : other ≢ name → bytes_eq name other ≡ false
      unequal ne = elim (Bool-cases (bytes_eq name other)) [
        | inl e ↦ absurd (ne (sym ((bytes_eq_iff name other).0 e)))
        | inr e ↦ e
      ]

  -- A registration that does not panic makes exactly its name known: it was unknown before, it
  -- gives the new parser, a different name gives what it gave before, and registering the name
  -- again panics whatever the constructor.
  pub new_parser-register_parser :
      (name other : Bytes) (f : ℕ → P) (len : ℕ) (parsers after : List (Bytes × (ℕ → P)))
      (again : Option (ℕ → P))
      → register_parser name (some f) parsers ≡ some after
      → other ≢ name
      → (new_parser name len parsers ≡ none)
        × (new_parser name len after ≡ some (f len))
        × (new_parser other len after ≡ new_parser other len parsers)
        × (register_parser name again after ≡ none)
  unfolding register_parser new_parser
  new_parser-register_parser name other f len parsers after again h ne =
      let (unknown, shape) = registered name f parsers after h in
      let (known, others) = find_new name other f parsers in
      (
        rw (unknown, new_parser) refl,
        rw (shape, known, new_parser) refl,
        rw (shape, others ne, new_parser) refl,
        rw shape (taken again known),
      )
    where
      taken :
          (g : Option (ℕ → P))
          → find name ((name, f) ∷ parsers) ≡ some f
          → register_parser name g ((name, f) ∷ parsers) ≡ none
      taken none e = refl
      taken (some g) e = rw (e, register_parser) refl
