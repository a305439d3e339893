-- ===== src/ScmPlus/Layout.antt =====
-- The layout of an SCM+ packet, and `NewSCM` as its inverse.
use rtlamr.Base.{ℕ, ◌/◌, ◌%◌, ◌^◌, ◌<◌, [], ◌∷◌, ◌++◌, All, ◌≡◌, arith}
use rtlamr.Base.Text.{Bytes}
use rtlamr.Crc.Residue.{be16}
use rtlamr.Crc.Serial.{IsByte}
use rtlamr.Protocol.{new_data}
use rtlamr.ScmPlus.{Scm, new_scm}

-- The fields fit their integer types.
pub record InRange (m : Scm) : Type 0 where
  pub frame_sync : m.frame_sync < 2 ^ 16
  pub protocol_id : m.protocol_id < 2 ^ 8
  pub endpoint_type : m.endpoint_type < 2 ^ 8
  pub endpoint_id : m.endpoint_id < 2 ^ 32
  pub consumption : m.consumption < 2 ^ 32
  pub tamper : m.tamper < 2 ^ 16
  pub packet_crc : m.packet_crc < 2 ^ 16

pub be32 : ℕ → Bytes
be32 x = x / 2 ^ 24 % 256 ∷ x / 2 ^ 16 % 256 ∷ x / 2 ^ 8 % 256 ∷ x % 256 ∷ []

-- The bytes between the frame sync and the check.
unfoldable pub body : Scm → Bytes
unfolding be32
body m = m.protocol_id ∷ m.endpoint_type ∷ be32 m.endpoint_id ++ be32 m.consumption ++ be16 m.tamper

unfoldable pub encode : Scm → Bytes
encode m = be16 m.frame_sync ++ body m ++ be16 m.packet_crc

pub body-IsByte : (m : Scm) → InRange m → All IsByte (body m)
unfolding body
body-IsByte m h = omega arith

-- Reading the fields of an encoded message gives the message back, for every message whose
-- fields fit their integer types.
pub new_scm-encode_plus : (m : Scm) → InRange m → new_scm (new_data (encode m)) ≡ m
unfolding new_scm new_data encode body
new_scm-encode_plus m h = ground arith
