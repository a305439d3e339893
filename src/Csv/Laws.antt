-- ===== src/Csv/Laws.antt =====
-- The rows of a run of the encoder, and the columns of each kind of message.
use rtlamr.Base.{
  List, [], ◌∷◌, ◌++◌, append_assoc, append-nil, map, true, some, length, ◌≡◌, refl, sym, ap, ◌∙◌,
  suc,
}
use rtlamr.Base.Text.{Bytes, codes}
use rtlamr.Protocol.{LogMessage, Message, log_record, log_headers}
use rtlamr.Protocol.{Data}
use rtlamr.Protocol.Floats.{Floats}
use rtlamr.Protocol.Intervals.{read_intervals, interval_fields}
use rtlamr.Scm
use rtlamr.ScmPlus
use rtlamr.Idm
use rtlamr.NetIdm
use rtlamr.R900
use rtlamr.Csv.{Encoder, new_encoder, header_rows, encode, encode_all}

encode_all-later :
    (vs : List LogMessage) (rows : List (List Bytes))
    → encode_all vs (record { rows = rows; wrote_header = true })
      ≡ record { rows = rows ++ map log_record vs; wrote_header = true }
unfolding encode_all encode
encode_all-later [] rows =
    ap (λ r. record { rows = r; wrote_header = true }) (sym (append-nil rows))
encode_all-later (v ∷ vs) rows =
    encode_all-later vs (rows ++ log_record v ∷ [])
    ∙ ap (λ r. record { rows = r; wrote_header = true })
        (append_assoc rows (log_record v ∷ []) (map log_record vs))

-- A new encoder writes the column names of the first message once, in front of its record, and then
-- the records in order, whatever the later messages are.
pub encode_all-rows :
    (v : LogMessage) (vs : List LogMessage)
    → (encode_all (v ∷ vs) new_encoder).rows
      ≡ header_rows (log_headers v) ++ map log_record (v ∷ vs)
unfolding encode_all encode new_encoder
encode_all-rows v vs =
    ap (λ (e : Encoder). e.rows)
      (encode_all-later vs (header_rows (log_headers v) ++ log_record v ∷ []))
    ∙ append_assoc (header_rows (log_headers v)) (log_record v ∷ []) (map log_record vs)

-- The messages that the parsers send.
pub data IsParsed (fl : Floats) : Message → Type 0 where
  from_scm : (m : Scm.Scm) → IsParsed fl (Scm.message m)
  from_scmplus : (m : ScmPlus.Scm) → IsParsed fl (ScmPlus.message m)
  from_idm : (d : Data) → IsParsed fl (Idm.message (Idm.new_idm d))
  from_netidm : (d : Data) → IsParsed fl (NetIdm.message (NetIdm.new_net_idm d))
  from_r900 : (m : R900.R900 fl.F) → IsParsed fl (R900.message fl m)

columns :
    (fl : Floats) (msg : Message)
    → IsParsed fl msg
    → (hs : List Bytes) × (msg.headers ≡ some hs) × (length msg.fields ≡ length hs)
columns fl msg (from_scm m) = unfold Scm.message Scm.record_fields Scm.headers in (_, refl, refl)
columns fl msg (from_scmplus m) =
    unfold ScmPlus.message ScmPlus.record_fields ScmPlus.headers in (_, refl, refl)
columns fl msg (from_r900 m) =
    unfold R900.message R900.record_fields R900.headers in (_, refl, refl)
columns fl msg (from_idm d) =
    unfold Idm.message Idm.record_fields Idm.headers Idm.interval_headers Idm.new_idm read_intervals
      interval_fields in
    (Idm.headers, refl, refl)
columns fl msg (from_netidm d) =
    unfold NetIdm.message NetIdm.record_fields NetIdm.headers Idm.interval_headers
      NetIdm.new_net_idm read_intervals interval_fields in
    (NetIdm.headers, refl, refl)

-- A row for a message from a parser has as many columns as the row of names that its type gives.
pub log_record-log_headers :
    (fl : Floats) (v : LogMessage)
    → IsParsed fl v.message
    → (hs : List Bytes) × (log_headers v ≡ some hs) × (length (log_record v) ≡ length hs)
unfolding log_record log_headers
log_record-log_headers fl v h =
    let (hs, names, size) = columns fl v.message h in
    (
      codes "Time" ∷ codes "Offset" ∷ codes "Length" ∷ hs,
      rw (log_headers, names) refl,
      ap (λ n. suc (suc (suc n))) size,
    )
