-- ===== src/Receiver/Samples.antt =====
-- main.go: reading blocks of samples, and the buffer of raw samples for the sample file.
pub mod Laws
pub mod Tests
use rtlamr.Base.{
  ℕ, zero, suc, ◌+◌, ◌-◌, ◌*◌, ◌≤◌, ◌<◌, List, [], ◌∷◌, ◌++◌, append_assoc, append-nil, Bool, true,
  false, ltb, ◌==◌, if◌then◌else◌, Option, none, some, length, length-append, length-drop, take,
  drop, take-append-drop, drop-append_left, flatten, All, Bool-cases, Option-cases, inl, inr, ◌≡◌,
  ◌⊎◌, refl, sym, ap, ◌∙◌, arith,
}
use rtlamr.Base.Text.{Bytes}

-- What the loop that fills a block comes to: a full block, an error of a read, or no end yet.
pub data Filled (S : Type 0) : Type 0 where
  full : Bytes → S → Filled S
  failed : Filled S
  unfinished : Filled S

-- `read` is the connection's `Read`, given how much room there is.
module _ {S : Type 0} (read : S → ℕ → Option (Bytes × S)) where
  unfoldable pub fill : ℕ → ℕ → Bytes → S → Filled S
  fill zero room block s = unfinished
  fill (suc fuel) room block s =
      let more : Filled S = elim (read s room) [
        | none ↦ failed
        | some (p, s') ↦ fill fuel (room - length p) (block ++ p) s'
      ] in
      if room == 0 then full block s else more

  -- The loop over one block of `size` bytes, with a round for each byte and one to see the end.
  unfoldable pub read_block : ℕ → S → Filled S
  read_block size s = fill (suc size) size [] s

-- The buffer of samples before a block is written to it, and after.
unfoldable pub discard : ℕ → ℕ → Bytes → Bytes
discard buffer_length size samples =
    if ltb (buffer_length * 2) (length samples) then drop size samples else samples

unfoldable pub add_block : ℕ → Bytes → Bytes → Bytes
add_block buffer_length samples block = discard buffer_length (length block) samples ++ block

unfoldable pub add_blocks : ℕ → Bytes → List Bytes → Bytes
add_blocks buffer_length samples [] = samples
add_blocks buffer_length samples (block ∷ blocks) =
    add_blocks buffer_length (add_block buffer_length samples block) blocks

-- `Read` as it is documented: no more than there is room for, and something if there is room.
abbrev pub IsReader : {S : Type 0} → (S → ℕ → Option (Bytes × S)) → Type 0
IsReader {S} read =
    (s : S) (room : ℕ) (p : Bytes) (s' : S)
    → read s room ≡ some (p, s')
    → 0 < room
    → (0 < length p) × (length p ≤ room)
