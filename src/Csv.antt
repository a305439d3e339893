-- ===== src/Csv.antt =====
-- csv/csv.go: the encoder, over the rows that it writes. The writer of the standard library is
-- taken not to fail.
pub mod Laws
pub mod Tests
use rtlamr.Base.{List, [], ◌∷◌, ◌++◌, Bool, true, false, Option, none, some, if◌then◌else◌}
use rtlamr.Base.Text.{Bytes}
use rtlamr.Protocol.{LogMessage, log_record, log_headers}

pub record Encoder : Type 0 where
  pub rows : List (List Bytes)
  pub wrote_header : Bool

unfoldable pub new_encoder : Encoder
new_encoder = record { rows = []; wrote_header = false }

-- `len(headers) > 0`; a message without column names stands for a value without the interface.
unfoldable pub header_rows : Option (List Bytes) → List (List Bytes)
header_rows none = []
header_rows (some []) = []
header_rows (some (h ∷ hs)) = (h ∷ hs) ∷ []

unfoldable pub encode : LogMessage → Encoder → Encoder
encode v enc =
    let rows = if enc.wrote_header then enc.rows else enc.rows ++ header_rows (log_headers v) in
    record { rows = rows ++ log_record v ∷ []; wrote_header = true }

unfoldable pub encode_all : List LogMessage → Encoder → Encoder
encode_all [] enc = enc
encode_all (v ∷ vs) enc = encode_all vs (encode v enc)
