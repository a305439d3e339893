-- ===== src/Protocol.antt =====
-- protocol/parse.go: packets, messages, their digests, the registry of parsers and the chain of
-- filters. The decoder of protocol/decode.go is below `Decoder`.
pub mod BitString
pub mod Config
pub mod Decoder
pub mod Floats
pub mod Intervals
pub mod Scan
pub mod Sealed
pub mod Registry
pub mod Chain
pub mod Tests
use rtlamr.Base.{
  ℕ, ◌+◌, List, [], ◌∷◌, ◌++◌, Bool, true, false, ◌&&◌, ◌==◌, Option, none, some, ◌≡◌, refl, ◌↔◌,
  arith, map,
}
use rtlamr.Base.Text.{Bytes, codes, bin, bytes_eq, bytes_eq_iff, format_uint}

-- `Bits` holds the digits `'0'` and `'1'`.
pub record Data : Type 0 where
  pub idx : ℕ
  pub bits : Bytes
  pub bytes : Bytes

-- Each byte is printed by the format `%08b`.
unfoldable pub bit_string : Bytes → Bytes
bit_string [] = []
bit_string (b ∷ bytes) = bin 8 b ++ bit_string bytes

unfoldable pub new_data : Bytes → Data
new_data bytes = record { idx = 0; bits = bit_string bytes; bytes = bytes }

-- A value of the interface `Message`: what its methods return. `headers` is `none` for a type
-- that does not implement `csv.HeaderRecorder`.
pub record Message : Type 0 where
  pub fields : List Bytes
  pub headers : Option (List Bytes)
  pub msg_type : Bytes
  pub meter_id : ℕ
  pub meter_type : ℕ
  pub checksum : Bytes

pub record Digest : Type 0 where
  pub msg_type : Bytes
  pub meter_type : ℕ
  pub meter_id : ℕ
  pub checksum : Bytes

unfoldable pub new_digest : Message → Digest
new_digest msg = record {
  msg_type = msg.msg_type;
  meter_type = msg.meter_type;
  meter_id = msg.meter_id;
  checksum = msg.checksum;
}

-- Equality of digests as map keys.
unfoldable pub digest_eq : Digest → Digest → Bool
digest_eq a b =
    bytes_eq a.msg_type b.msg_type
    && (a.meter_type == b.meter_type
        && (a.meter_id == b.meter_id && bytes_eq a.checksum b.checksum))

pub digest_eq_iff : (a b : Digest) → (digest_eq a b ≡ true) ↔ (a ≡ b)
unfolding digest_eq
digest_eq_iff a b =
    ground (arith, bytes_eq_iff a.msg_type b.msg_type, bytes_eq_iff a.checksum b.checksum)

-- A `LogMessage`; its time is the text that `Format` gives for it, and its offset is that of an
-- int64 that is never negative here.
pub record LogMessage : Type 0 where
  pub time : Bytes
  pub offset : ℕ
  pub length : ℕ
  pub type : Bytes
  pub message : Message

unfoldable pub log_record : LogMessage → List Bytes
log_record msg =
    msg.time ∷ format_uint msg.offset 10 ∷ format_uint msg.length 10 ∷ msg.message.fields

unfoldable pub log_headers : LogMessage → Option (List Bytes)
log_headers msg = elim msg.message.headers [
  | none ↦ none
  | some hs ↦ some (codes "Time" ∷ codes "Offset" ∷ codes "Length" ∷ hs)
]
