-- ===== src/Crc.antt =====
-- crc/crc.go: cyclic redundancy checks of 16 bits, by a table of 256 entries.
pub mod Linear
pub mod Serial
pub mod Residue
pub mod Detect
pub mod Tests
use rtlamr.Base.{
  ℕ, zero, suc, ◌*◌, ◌/◌, ◌%◌, ◌^◌, bit_and, bit_xor, List, [], ◌∷◌, Bool, not, ◌==◌, get_or,
  if◌then◌else◌,
}
use rtlamr.Base.Text.{Bytes}

abbrev pub Table : Type 0
Table = List ℕ

-- `x << k` on uint16.
abbrev pub shl16 : ℕ → ℕ → ℕ
shl16 x k = x * 2 ^ k % 2 ^ 16

-- One round of the inner loop of `NewTable`.
unfoldable pub shift_bit : ℕ → ℕ → ℕ
shift_bit poly crc =
    if not (bit_and crc 0x8000 == 0) then bit_xor (shl16 crc 1) poly else shl16 crc 1

-- The inner loop, with the rounds left.
unfoldable pub shift_bits : ℕ → ℕ → ℕ → ℕ
unfolding shift_bit
shift_bits poly zero crc = crc
shift_bits poly (suc rounds) crc = shift_bits poly rounds (shift_bit poly crc)

unfoldable pub entry : ℕ → ℕ → ℕ
unfolding shift_bits
entry poly t_idx = shift_bits poly 8 (shl16 t_idx 8)

-- The outer loop of `NewTable`, from index `t_idx` with `left` entries to go.
unfoldable pub entries : ℕ → ℕ → ℕ → Table
unfolding entry
entries poly zero t_idx = []
entries poly (suc left) t_idx = entry poly t_idx ∷ entries poly left (suc t_idx)

unfoldable pub new_table : ℕ → Table
unfolding entries
new_table poly = entries poly 256 0

-- One round of the loop of `Checksum`. The index is below 256 for a byte `v` and a uint16 `crc`.
unfoldable pub next_byte : Table → ℕ → ℕ → ℕ
next_byte table crc v = bit_xor (shl16 crc 8) (get_or table (bit_xor (crc / 2 ^ 8) v) 0)

unfoldable pub checksum : ℕ → Bytes → Table → ℕ
unfolding next_byte
checksum init [] table = init
checksum init (v ∷ bytes) table = checksum (next_byte table init v) bytes table

-- The `CRC` struct, without the name that only `String` prints.
pub record Crc : Type 0 where
  pub init : ℕ
  pub poly : ℕ
  pub residue : ℕ
  pub tbl : Table

unfoldable pub new_crc : ℕ → ℕ → ℕ → Crc
new_crc init poly residue = record {
  init = init;
  poly = poly;
  residue = residue;
  tbl = new_table poly;
}

-- The method `Checksum`.
unfoldable pub crc_checksum : Crc → Bytes → ℕ
crc_checksum crc bytes = checksum crc.init bytes crc.tbl
