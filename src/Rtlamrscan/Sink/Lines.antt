-- ===== src/Rtlamrscan/Sink/Lines.antt =====
-- csvSink: one header row in front, whatever the decoders repeat.
use rtlamr.Base.{
  List, [], ◌∷◌, ◌++◌, append_assoc, append-nil, Bool, true, false, not, ◌&&◌, if◌then◌else◌, keep,
  ◌≡◌, sym, ap, ◌∙◌, inl, inr, Bool-cases,
}
use rtlamr.Base.Text.{Bytes, bytes_eq}

-- A `csvSink`, with the lines of its file.
pub record CsvSink : Type 0 where
  pub file : List Bytes
  pub header_line : Bytes
  pub got_header : Bool

-- `newCSVSink` on a file that holds lines already: it opens the file to append.
unfoldable pub new_csv_sink : List Bytes → CsvSink
new_csv_sink lines = record { file = lines; header_line = []; got_header = false }

-- `writeLine`.
unfoldable pub write_line : Bytes → CsvSink → CsvSink
write_line line s =
    let header : CsvSink =
      if not s.got_header then record s { header_line = line; got_header = true } else s in
    if s.got_header && bytes_eq line s.header_line
    then s
    else record header { file = s.file ++ line ∷ [] }

unfoldable pub write_lines : List Bytes → CsvSink → CsvSink
write_lines [] s = s
write_lines (line ∷ lines) s = write_lines lines (write_line line s)

write_lines-later :
    (lines file : List Bytes) (h : Bytes)
    → write_lines lines (record { file = file; header_line = h; got_header = true }) ≡ record {
      file = file ++ keep (λ line. not (bytes_eq line h)) lines;
      header_line = h;
      got_header = true;
    }
unfolding write_lines write_line
write_lines-later [] file h =
    ap (λ f. record { file = f; header_line = h; got_header = true }) (sym (append-nil file))
write_lines-later (line ∷ lines) file h = elim (Bool-cases (bytes_eq line h)) [
  | inl e ↦ rw e (write_lines-later lines file h)
  | inr e ↦ rw e (
      write_lines-later lines (file ++ line ∷ []) h
      ∙ ap (λ f. record { file = f; header_line = h; got_header = true })
          (append_assoc file (line ∷ []) (keep (λ line. not (bytes_eq line h)) lines)))
]

-- Behind what the file held, a new sink writes the first line that it is given and then, in order,
-- every line that is not that one, whichever decoders the lines come from.
pub write_lines-header :
    (held : List Bytes) (h : Bytes) (lines : List Bytes)
    → (write_lines (h ∷ lines) (new_csv_sink held)).file
      ≡ held ++ h ∷ keep (λ line. not (bytes_eq line h)) lines
unfolding write_lines write_line new_csv_sink
write_lines-header held h lines =
    ap (λ (s : CsvSink). s.file) (write_lines-later lines (held ++ h ∷ []) h)
    ∙ append_assoc held (h ∷ []) (keep (λ line. not (bytes_eq line h)) lines)
