-- ===== src/Receiver/Samples/Laws.antt =====
-- The loop that fills a block ends, and the buffer of samples holds the newest ones.
use rtlamr.Base.{
  ℕ, zero, suc, ◌+◌, ◌-◌, ◌*◌, ◌≤◌, ◌<◌, List, [], ◌∷◌, ◌++◌, append_assoc, append-nil, ltb, ◌==◌,
  Option, length, length-append, length-drop, take, drop, take-append-drop, flatten, All,
  Bool-cases, Option-cases, inl, inr, ◌≡◌, ◌⊎◌, refl, sym, ap, ◌∙◌, arith,
}
use rtlamr.Base.Text.{Bytes}
use rtlamr.Receiver.Samples.{
  Filled, full, failed, fill, read_block, discard, add_block, add_blocks, IsReader,
}

module _ {S : Type 0} (read : S → ℕ → Option (Bytes × S)) (reads : IsReader read) where
  -- An error of a read, or a block of the size asked for.
  abbrev Full : ℕ → Filled S → Type 0
  Full size result =
      (result ≡ failed)
      ⊎ ((block : Bytes) × (s : S) × (result ≡ full block s) × (length block ≡ size))

  fill-Full :
      (fuel room : ℕ) (block : Bytes) (s : S)
      → room < fuel
      → Full (length block + room) (fill read fuel room block s)
  unfolding fill
  fill-Full zero room block s h = absurd (omega arith)
  fill-Full (suc fuel) room block s h = elim (Bool-cases (room == 0)) [
    | inl e ↦
        let none_left : room ≡ 0 = ground arith in
        rw (fill, e) (inr (block, s, refl, omega (arith, none_left)))
    | inr e ↦ elim (Option-cases (read s room)) [
      | inl k ↦ rw (fill, e, k) (inl refl)
      | inr ((p, s'), k) ↦
          let (some_read, fits) = reads s room p s' k (ground arith) in
          let same : length (block ++ p) + (room - length p) ≡ length block + room =
            omega (arith, length-append block p, fits) in
          rw (fill, e, k, ← same)
            (fill-Full fuel (room - length p) (block ++ p) s' (omega (arith, some_read, h, fits)))
    ]
  ]

  -- Whatever the connection delivers, if a read gives no more than there is room for and something
  -- if there is room, the loop that fills a block ends: with a block of exactly the size of a block,
  -- or because a read fails.
  pub read_block-ends :
      (size : ℕ) (s : S)
      → (read_block read size s ≡ failed)
        ⊎ ((block : Bytes) × (s' : S) × (read_block read size s ≡ full block s')
            × (length block ≡ size))
  unfolding read_block
  read_block-ends size s =
      let whole : length {A = ℕ} [] + size ≡ size = omega arith in
      rw whole at (fill-Full (suc size) size [] s (omega arith))

-- What the buffer is of all the bytes: their end, with a bound above, and below if any are missing.
record IsNewest (buffer_length size : ℕ) (all samples : Bytes) : Type 0 where
  old : Bytes
  splits : all ≡ old ++ samples
  bounded : length samples ≤ buffer_length * 2 + size
  enough : (old ≡ []) ⊎ (buffer_length * 2 < length samples)

regroup : (a b c d : Bytes) → (a ++ (b ++ c)) ++ d ≡ (a ++ b) ++ (c ++ d)
regroup a b c d = ap (λ s. s ++ d) (sym (append_assoc a b c)) ∙ append_assoc (a ++ b) c d

module _ (buffer_length size : ℕ) where
  add_block-IsNewest :
      (all samples block : Bytes)
      → length block ≡ size
      → IsNewest buffer_length size all samples
      → IsNewest buffer_length size (all ++ block) (add_block buffer_length samples block)
  unfolding add_block discard
  add_block-IsNewest all samples block e n =
      elim (Bool-cases (ltb (buffer_length * 2) (length samples))) [
        | inl over ↦ rw (over) (record {
          old = n.old ++ take (length block) samples;
          splits =
              ap (λ s. s ++ block)
                (n.splits ∙ ap (◌++◌ n.old) (sym (take-append-drop (length block) samples)))
              ∙ regroup n.old (take (length block) samples) (drop (length block) samples) block;
          bounded = omega (
            arith,
            length-append (drop (length block) samples) block,
            length-drop (length block) samples,
            e,
            n.bounded,
          );
          enough = inr (
              ground (
                arith,
                length-append (drop (length block) samples) block,
                length-drop (length block) samples,
              ));
        })
        | inr fits ↦ rw (fits) (record {
          old = n.old;
          splits = ap (λ s. s ++ block) n.splits ∙ append_assoc n.old samples block;
          bounded = ground (arith, length-append samples block);
          enough = elim n.enough [ inl all ↦ inl all | inr over ↦ absurd (ground arith) ];
        })
      ]

  add_blocks-IsNewest :
      (blocks : List Bytes) (all samples : Bytes)
      → All (λ block. length block ≡ size) blocks
      → IsNewest buffer_length size all samples
      → IsNewest buffer_length size
          (all ++ flatten blocks)
          (add_blocks buffer_length samples blocks)
  unfolding add_blocks
  add_blocks-IsNewest [] all samples sizes n = rw (append-nil all) n
  add_blocks-IsNewest (block ∷ blocks) all samples (e, sizes) n =
      rw (← append_assoc all block (flatten blocks)) (
        add_blocks-IsNewest blocks (all ++ block) (add_block buffer_length samples block) sizes
          (add_block-IsNewest all samples block e n))

  -- After any blocks of one size, the buffer of samples holds the end of all the bytes that came: it
  -- never exceeds twice the length of the decoder's buffer and one block, and as soon as any byte
  -- has been discarded it holds more than twice the length of the decoder's buffer.
  pub add_blocks-newest :
      (blocks : List Bytes)
      → All (λ block. length block ≡ size) blocks
      → let samples = add_blocks buffer_length [] blocks in
        (old : Bytes) × (flatten blocks ≡ old ++ samples)
        × (length samples ≤ buffer_length * 2 + size)
        × ((old ≡ []) ⊎ (buffer_length * 2 < length samples))
  add_blocks-newest blocks sizes =
      let n =
        add_blocks-IsNewest blocks [] [] sizes
          (record { old = []; splits = refl; bounded = omega arith; enough = inl refl }) in
      (n.old, n.splits, n.bounded, n.enough)
