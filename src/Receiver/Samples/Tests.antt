-- ===== src/Receiver/Samples/Tests.antt =====
-- Reading blocks of samples at concrete inputs.
use rtlamr.Base.{
  ℕ, ◌≤◌, ◌<◌, List, [], ◌∷◌, ◌++◌, Option, none, some, length, ◌≡◌, ◌⊎◌, refl, sym, ap, arith,
}
use rtlamr.Base.Text.{Bytes}
use rtlamr.Receiver.Samples.{
  failed, full, fill, read_block, discard, add_block, add_blocks, IsReader,
}
use rtlamr.Receiver.Samples.Laws.{read_block-ends, add_blocks-newest}

-- A connection that gives one byte at a time until it has none.
abbrev one_byte : Bytes → ℕ → Option (Bytes × Bytes)
one_byte [] room = none
one_byte (b ∷ bs) room = some (b ∷ [], bs)

one_byte-IsReader : IsReader one_byte
one_byte-IsReader [] room p s' e h = absurd (cc)
one_byte-IsReader (b ∷ bs) room p s' e h =
    let one : length p ≡ 1 =
      sym (ap (λ (o : Option (Bytes × Bytes)). elim o [ none ↦ 1 | some (p, s) ↦ length p ]) e) in
    omega (arith, one, h)

read_block-ends_example :
    (read_block one_byte 2 (7 ∷ 8 ∷ 9 ∷ []) ≡ failed)
    ⊎ ((block : Bytes) × (s' : Bytes) × (read_block one_byte 2 (7 ∷ 8 ∷ 9 ∷ []) ≡ full block s')
        × (length block ≡ 2))
read_block-ends_example = read_block-ends one_byte one_byte-IsReader 2 (7 ∷ 8 ∷ 9 ∷ [])

two_read : read_block one_byte 2 (7 ∷ 8 ∷ 9 ∷ []) ≡ full (7 ∷ 8 ∷ []) (9 ∷ [])
unfolding read_block fill
two_read = refl

none_left : read_block one_byte 2 (7 ∷ []) ≡ failed
unfolding read_block fill
none_left = refl

abbrev three_blocks : List Bytes
three_blocks = (1 ∷ 2 ∷ []) ∷ (3 ∷ 4 ∷ []) ∷ (5 ∷ 6 ∷ []) ∷ []

add_blocks-newest_example :
    (old : Bytes) × (1 ∷ 2 ∷ 3 ∷ 4 ∷ 5 ∷ 6 ∷ [] ≡ old ++ add_blocks 1 [] three_blocks)
    × (length (add_blocks 1 [] three_blocks) ≤ 4)
    × ((old ≡ []) ⊎ (2 < length (add_blocks 1 [] three_blocks)))
add_blocks-newest_example = add_blocks-newest 1 2 three_blocks (refl, (refl, (refl, tt)))

oldest_discarded : add_blocks 1 [] three_blocks ≡ 3 ∷ 4 ∷ 5 ∷ 6 ∷ []
unfolding add_blocks add_block discard
oldest_discarded = refl
