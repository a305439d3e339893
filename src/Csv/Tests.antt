-- ===== src/Csv/Tests.antt =====
-- The encoder at concrete inputs.
use rtlamr.Base.{ℕ, [], ◌∷◌, ◌++◌, ◌≡◌, refl}
use rtlamr.Base.Text.{codes}
use rtlamr.Protocol.{LogMessage, log_record, log_headers}
use rtlamr.Csv.{new_encoder, header_rows, encode, encode_all}
use rtlamr.Scm

abbrev logged : ℕ → LogMessage
logged id = record {
  time = codes "now";
  offset = 0;
  length = 64;
  type = codes "SCM";
  message = Scm.message (record {
    id = id;
    type = 4;
    tamper_phy = 1;
    tamper_enc = 2;
    consumption = 9;
    checksum_val = 7;
  });
}

-- The names of the columns come once.
two_rows :
    (encode_all (logged 5 ∷ logged 6 ∷ []) new_encoder).rows
    ≡ header_rows (log_headers (logged 5)) ++ (log_record (logged 5) ∷ log_record (logged 6) ∷ [])
unfolding encode_all encode new_encoder header_rows Scm.message log_headers Scm.record_fields
two_rows = refl
