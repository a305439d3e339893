-- ===== src/Protocol/Decoder/Air.antt =====
-- A packet in the signal: what `Search` and `Slice` make of bytes that were sent on the air.
use mathlib.Core.List.{Memᴰ}
use rtlamr.Base.{
  ℕ, zero, suc, ◌+◌, ◌*◌, ◌/◌, ◌%◌, ◌≤◌, ◌<◌, List, [], ◌∷◌, Bool, true, ◌==◌, length, get_or, take,
  keep, All, Bool-cases, inl, inr, ◌≡◌, refl, sym, ap, ap₂, ◌∙◌, arith,
}
use rtlamr.Base.Text.{Bytes}
use rtlamr.Crc.Serial.{IsByte}
use rtlamr.Protocol.Decoder.Search.{pack_bits}
use rtlamr.Protocol.Decoder.Search.Pack.{pack_eight}
use rtlamr.Protocol.Decoder.Search.Passes.{stands}
use rtlamr.Protocol.Decoder.Search.Spec.{range}
use rtlamr.Protocol.Decoder.Slice.{sampled, packet_bytes}

-- The bits of a byte, the highest first.
abbrev pub byte_bits : ℕ → List ℕ
byte_bits b =
    b / 128 % 2
    ∷ b / 64 % 2
    ∷ b / 32 % 2
    ∷ b / 16 % 2
    ∷ b / 8 % 2
    ∷ b / 4 % 2
    ∷ b / 2 % 2
    ∷ b % 2
    ∷ []

pack_bits-byte_bits : (b : ℕ) → IsByte b → pack_bits 0 (byte_bits b) ≡ b
pack_bits-byte_bits b h =
    pack_eight 0 (b / 128 % 2) (b / 64 % 2) (b / 32 % 2) (b / 16 % 2) (b / 8 % 2) (b / 4 % 2)
      (b / 2 % 2) (b % 2) (omega arith) (omega arith) (omega arith) (omega arith) (omega arith)
      (omega arith) (omega arith) (omega arith)
    ∙ omega (arith, h)

module _ (symbol_length : ℕ) (quantized : List ℕ) (q : ℕ) where
  -- The samples one symbol apart, from the byte `k` of a packet at sample `q` on, are the bits of
  -- some bytes.
  abbrev pub OnAir : ℕ → Bytes → Type 0
  OnAir k [] = Unit
  OnAir k (b ∷ bytes) =
      (sampled symbol_length quantized q (k * 8) 8 ≡ byte_bits b) × OnAir (suc k) bytes

  pub packet_bytes-OnAir :
      (n k : ℕ) (bytes : Bytes)
      → All IsByte bytes
      → OnAir k bytes
      → length bytes ≤ n
      → take (length bytes) (packet_bytes symbol_length quantized q k n) ≡ bytes
  packet_bytes-OnAir n k [] h air fits = refl
  packet_bytes-OnAir zero k (b ∷ bytes) h air fits = absurd (omega arith)
  packet_bytes-OnAir (suc n) k (b ∷ bytes) (hb, h) (e, air) fits =
      ap₂ (◌∷◌) (ap (pack_bits 0) e ∙ pack_bits-byte_bits b hb)
        (packet_bytes-OnAir n (suc k) bytes h air (omega arith))

  pub stands-sampled :
      (bits : List ℕ) (p : ℕ)
      → sampled symbol_length quantized q p (length bits) ≡ bits
      → stands symbol_length quantized p bits q ≡ true
  unfolding stands
  stands-sampled [] p e = refl
  stands-sampled (bit ∷ bits) p e =
      let first : get_or quantized (q + p * symbol_length) 0 ≡ bit = ap (λ l. get_or l 0 0) e in
      let place : p * symbol_length + q ≡ q + p * symbol_length = omega arith in
      let rest = stands-sampled bits (suc p) (ap (drop_one) e) in
      rw (place, first, rest) (ground arith)
    where
      drop_one : List ℕ → List ℕ
      drop_one [] = []
      drop_one (x ∷ xs) = xs

pub keep-Mem : (p : ℕ → Bool) (q : ℕ) (qs : List ℕ) → Memᴰ q qs → p q ≡ true → Memᴰ q (keep p qs)
keep-Mem p q [] h e = elim h [ ]
keep-Mem p q (k ∷ qs) (Memᴰ.head same) e = rw (ap p (sym same) ∙ e) (Memᴰ.head same)
keep-Mem p q (k ∷ qs) (Memᴰ.tail h) e = elim (Bool-cases (p k)) [
  | inl kept ↦ rw kept (Memᴰ.tail (keep-Mem p q qs h e))
  | inr dropped ↦ rw dropped (keep-Mem p q qs h e)
]

pub range-Mem : (q start n : ℕ) → start ≤ q → q < start + n → Memᴰ q (range start n)
range-Mem q start zero above below = absurd (omega arith)
range-Mem q start (suc n) above below = elim (Bool-cases (q == start)) [
  | inl e ↦ Memᴰ.head (let same : q ≡ start = ground arith in same)
  | inr ne ↦ Memᴰ.tail (range-Mem q (suc start) n (ground arith) (omega arith))
]
