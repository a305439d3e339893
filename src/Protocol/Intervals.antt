-- ===== src/Protocol/Intervals.antt =====
-- The loop that reads the consumption intervals of IDM and NetIDM packets.
use native.Mathlib.Nat.{le_trans, mod-lt, mod-eq_of_lt, one-le-pow, pow-le-pow_right, suc-mul}
use rtlamr.Base.{
  ℕ, zero, suc, ◌+◌, ◌*◌, ◌/◌, ◌%◌, ◌^◌, ◌≤◌, ◌<◌, List, [], ◌∷◌, length, slice, get_or, All, ◌≡◌,
  refl, ap, ◌∙◌, arith,
}
use rtlamr.Base.Text.{Bytes, be_value, format_uint}
use rtlamr.Base.Text.Parse.{parse_uint}
use rtlamr.Crc.Serial.{IsByte}
use rtlamr.Protocol.{bit_string}
use rtlamr.Protocol.BitString.{field-eq}

-- `count` fields of `width` digits each, from `offset` on, as uint16.
unfoldable pub read_intervals : ℕ → ℕ → ℕ → Bytes → List ℕ
read_intervals width zero offset bits = []
read_intervals width (suc count) offset bits =
    (parse_uint (slice bits offset (offset + width)) 2 width).0 % 2 ^ 16
    ∷ read_intervals width count (offset + width) bits

-- `Interval.Record`.
unfoldable pub interval_fields : List ℕ → List Bytes
interval_fields [] = []
interval_fields (x ∷ xs) = format_uint x 10 ∷ interval_fields xs

pub length-read_intervals :
    (width count offset : ℕ) (bits : Bytes)
    → length (read_intervals width count offset bits) ≡ count
unfolding read_intervals
length-read_intervals width zero offset bits = refl
length-read_intervals width (suc count) offset bits =
    ap suc (length-read_intervals width count (offset + width) bits)

pub length-interval_fields : (xs : List ℕ) → length (interval_fields xs) ≡ length xs
unfolding interval_fields
length-interval_fields [] = refl
length-interval_fields (x ∷ xs) = ap suc (length-interval_fields xs)

-- The interval at index j is the field of `width` digits at `offset + j * width` of the packet,
-- read as one big-endian number, and no bit is cut off.
pub read_intervals-field :
    (bytes : Bytes) (width count offset j behind : ℕ)
    → All IsByte bytes
    → 0 < width
    → width ≤ 16
    → j < count
    → offset + j * width + width + behind ≡ 8 * length bytes
    → get_or (read_intervals width count offset (bit_string bytes)) j 0
      ≡ be_value bytes / 2 ^ behind % 2 ^ width
unfolding read_intervals
read_intervals-field bytes width zero offset j behind hb pos w16 lt size = absurd (omega arith)
read_intervals-field bytes width (suc count) offset zero behind hb pos w16 lt size =
    ap (λ (t : ℕ). t % 2 ^ 16)
      (field-eq bytes offset width behind (be_value bytes / 2 ^ behind % 2 ^ width) hb (omega arith)
        pos refl)
    ∙ mod-eq_of_lt narrow
  where
    narrow : be_value bytes / 2 ^ behind % 2 ^ width < 2 ^ 16
    narrow =
        le_trans (mod-lt (be_value bytes / 2 ^ behind) (one-le-pow width 2 (omega arith)))
          (pow-le-pow_right (omega arith) w16)
read_intervals-field bytes width (suc count) offset (suc j) behind hb pos w16 lt size =
    read_intervals-field bytes width count (offset + width) j behind hb pos w16 (omega arith)
      (omega (arith, suc-mul j width))
