-- ===== src/Rtlamrscan/Columns/R900.antt =====
-- The header row and the rows that the decoder writes for R900 messages.
use rtlamr.Base.{List, ◌∷◌, true, All, ◌≡◌, refl, ap, ◌∙◌}
use rtlamr.Base.Text.{Bytes, codes, bytes_eq, split, join, format_uint}
use rtlamr.Base.Text.Digits.{format_uint-Lacks}
use rtlamr.Base.Text.Split.{split-join}
use rtlamr.Base.Text.Trim.{Lacks, lacks-All}
use rtlamr.Protocol.{LogMessage, log_record}
use rtlamr.Protocol.Floats.{Floats}
use rtlamr.R900.{R900, record_fields, headers, message}
use rtlamr.Rtlamrscan.Columns.{is_header}

module _ (fl : Floats) where
  -- The columns of the decoder's rows for R900 messages.
  abbrev pub r900_names : List Bytes
  r900_names = codes "Time" ∷ codes "Offset" ∷ codes "Length" ∷ headers fl

  -- The text of a row: the writer of the standard library quotes none of these names and fields.
  abbrev pub header_line : Bytes
  header_line = join r900_names b','

  abbrev pub row_line : LogMessage → Bytes
  row_line v = join (log_record v) b','

  names-Lacks : All (Lacks b',') r900_names
  unfolding headers
  names-Lacks = lacks-All b',' r900_names refl

  pub split-header_line : split header_line b',' ≡ r900_names
  split-header_line = split-join _ _ b',' names-Lacks

  pub is_header-names : is_header r900_names ≡ true
  unfolding is_header bytes_eq
  is_header-names = refl

  abbrev pub r900_fields : LogMessage → R900 fl.F → List Bytes
  r900_fields v r = v.time ∷ format_uint v.offset 10 ∷ format_uint v.length 10 ∷ record_fields fl r

  module _ (v : LogMessage) (r : R900 fl.F) (is_r900 : v.message ≡ message fl r) where
    log_record-fields : log_record v ≡ r900_fields v r
    unfolding log_record message
    log_record-fields = rw is_r900 refl

    fields-Lacks :
        Lacks b',' v.time
        → ((f : fl.F) → Lacks b',' (fl.format_f f))
        → All (Lacks b',') (r900_fields v r)
    unfolding record_fields
    fields-Lacks time floats =
        let n = format_uint-Lacks in
        (
          time,
          (
            n _,
            (
              n _,
              (n _, (n _, (n _, (n _, (n _, (n _, (n _, (n _, (floats _, (floats _, tt)))))))))),
            ),
          ),
        )

    pub split-row_line :
        Lacks b',' v.time
        → ((f : fl.F) → Lacks b',' (fl.format_f f))
        → split (row_line v) b',' ≡ r900_fields v r
    split-row_line time floats =
        ap (λ fs. split (join fs b',') b',') log_record-fields
        ∙ split-join _ _ b',' (fields-Lacks time floats)
