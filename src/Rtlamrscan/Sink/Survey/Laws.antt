-- ===== src/Rtlamrscan/Sink/Survey/Laws.antt =====
-- The rows of a survey.
use rtlamr.Base.{
  ℕ, List, [], ◌∷◌, Bool, false, Option, none, some, length, All, ◌≡◌, ◌⊎◌, refl, ap, ◌∙◌, inl, inr,
  Bool-cases, Option-cases,
}
use rtlamr.Base.Int.{ℤ, pos, negsuc, itoa}
use rtlamr.Base.Text.{Bytes, codes, bytes_eq, split, join, format_uint}
use rtlamr.Base.Text.Digits.{format_uint-Lacks}
use rtlamr.Base.Text.Split.{split-join, split-Lacks}
use rtlamr.Base.Text.Trim.{Lacks}
use rtlamr.Protocol.{LogMessage}
use rtlamr.Protocol.Floats.{Floats}
use rtlamr.R900.{R900, record_fields, headers, message}
use rtlamr.Rtlamrscan.Columns.{ColIdx, index_from, index_names, index_of, is_header, get, get-Lacks}
use rtlamr.Rtlamrscan.Columns.R900.{
  r900_names, header_line, row_line, split-header_line, is_header-names, r900_fields,
  split-row_line,
}
use rtlamr.Rtlamrscan.Doubles.{Doubles}
use rtlamr.Rtlamrscan.Gps.Reader.{GpsReader, GpsStatus, status_snapshot}
use rtlamr.Rtlamrscan.Sink.Lines.{CsvSink, write_line}
use rtlamr.Rtlamrscan.Sink.Survey.Reported.{reader_of, reported_by, position-reported_by}
use rtlamr.Rtlamrscan.Sink.Survey.{
  survey_columns, expected_names, check_names, gps_max_age, Position, SurveyMapper, print_position,
  position, survey_row, handle_line,
}

itoa-Lacks : (z : ℤ) → Lacks b',' (itoa z)
unfolding itoa
itoa-Lacks (pos n) = format_uint-Lacks n
itoa-Lacks (negsuc n) = (refl, format_uint-Lacks _)

abbrev Plain : Position → Type 0
Plain p =
    All (Lacks b',')
      (p.lat ∷ p.lon ∷ p.quality ∷ p.sats ∷ p.hdop ∷ p.alt ∷ p.speed ∷ p.course ∷ p.age ∷ [])

module _ (fl : Doubles) where
  open fl use {D, format-Lacks}

  print_position-Plain : (st : GpsStatus D) → Plain (print_position fl st)
  unfolding print_position
  print_position-Plain st = elim (Bool-cases st.has_fix) [
    | inl e ↦
        let d = format-Lacks in
        let z = itoa-Lacks in
        rw e (d _ _, (d _ _, (z _, (z _, (d _ _, (d _ _, (d _ _, (d _ _, (d _ _, tt)))))))))
    | inr e ↦ rw e (tt, (tt, (tt, (tt, (tt, (tt, (tt, (tt, (tt, tt)))))))))
  ]

  position-Plain : (now : ℕ) (gps : Option (GpsReader D)) → Plain (position fl now gps)
  unfolding position
  position-Plain now none = (tt, (tt, (tt, (tt, (tt, (tt, (tt, (tt, (tt, tt)))))))))
  position-Plain now (some g) = print_position-Plain (status_snapshot fl now gps_max_age g)

  survey_row-Lacks :
      (radio freq_hz : ℕ) (p : Position) (idx : ColIdx) (fields : List Bytes)
      → Plain p
      → All (Lacks b',') fields
      → All (Lacks b',') (survey_row fl radio freq_hz p (get idx fields))
  unfolding survey_row
  survey_row-Lacks radio freq_hz p idx fields
        (p1, (p2, (p3, (p4, (p5, (p6, (p7, (p8, (p9, _))))))))) h =
      let c : (name : Bytes) → Lacks b',' (get idx fields name) =
        λ name. get-Lacks b',' idx fields name h in
      (
        c _,
        (
          itoa-Lacks _,
          (
            p1,
            (
              p2,
              (
                p3,
                (
                  p4,
                  (
                    p5,
                    (
                      c _,
                      (
                        c _,
                        (
                          c _,
                          (
                            c _,
                            (
                              c _,
                              (
                                c _,
                                (
                                  c _,
                                  (
                                    format_uint-Lacks _,
                                    (c _, (c _, (c _, (p6, (p7, (p8, (p9, tt))))))),
                                  ),
                                ),
                              ),
                            ),
                          ),
                        ),
                      ),
                    ),
                  ),
                ),
              ),
            ),
          ),
        ),
      )

  -- What a line does to the file: nothing, or one row more.
  abbrev pub Wrote : CsvSink → CsvSink → Type 0
  Wrote sink after =
      (after ≡ sink)
      ⊎ ((row : List Bytes) × (after ≡ write_line (join row b',') sink)
          × (split (join row b',') b',' ≡ row)
          × (length row ≡ length survey_columns))

  -- Whatever line the decoder prints, the mapper either writes nothing or hands the file one row,
  -- which splits at its commas into exactly as many fields as there are survey columns.
  pub handle_line-Wrote :
      (now : ℕ) (line : Bytes) (m : SurveyMapper D) → Wrote m.sink (handle_line fl now line m).sink
  unfolding handle_line survey_row
  handle_line-Wrote now line m = elim (Bool-cases (is_header (split line b','))) [
    | inl e ↦ rw e (inl refl)
    | inr e ↦ elim (Option-cases m.col_idx) [
      | inl k ↦ rw (e, k) (inl refl)
      | inr (idx, k) ↦
          rw (e, k)
            (inr (
              _,
              refl,
              split-join _ _ b',' (
                  survey_row-Lacks m.radio m.freq_hz (position fl now m.gps) idx (split line b',')
                    (position-Plain now m.gps) (split-Lacks line b',')),
              refl,
            ))
    ]
  ]

module _ (fl : Doubles) (radio_fl : Floats) (v : LogMessage) (r : R900 radio_fl.F) where
  open fl use {D}

  -- The row of a message received by a radio, at a position.
  abbrev pub r900_row : ℕ → ℕ → Position → List Bytes
  r900_row radio freq_hz p =
      v.time
      ∷ itoa (pos radio)
      ∷ p.lat
      ∷ p.lon
      ∷ p.quality
      ∷ p.sats
      ∷ p.hdop
      ∷ radio_fl.format_f r.rssi
      ∷ radio_fl.format_f r.snr
      ∷ format_uint r.id 10
      ∷ format_uint r.back_flow 10
      ∷ format_uint r.consumption 10
      ∷ format_uint r.leak 10
      ∷ format_uint r.leak_now 10
      ∷ format_uint freq_hz 10
      ∷ format_uint r.unkn1 10
      ∷ format_uint r.no_use 10
      ∷ format_uint r.unkn3 10
      ∷ p.alt
      ∷ p.speed
      ∷ p.course
      ∷ p.age
      ∷ []

  survey_row-fields :
      (radio freq_hz : ℕ) (p : Position)
      → survey_row fl radio freq_hz p
          (get (index_names (r900_names radio_fl)) (r900_fields radio_fl v r))
        ≡ r900_row radio freq_hz p
  unfolding survey_row index_names index_from index_of get bytes_eq headers record_fields
  survey_row-fields radio freq_hz p = refl

  names_known :
      (warned : Bool)
      → check_names (index_names (r900_names radio_fl)) expected_names warned ≡ warned
  unfolding check_names index_names index_from index_of bytes_eq headers
  names_known warned = refl

  handle_line-header :
      (now : ℕ) (m : SurveyMapper D)
      → handle_line fl now (header_line radio_fl) m
        ≡ record m { col_idx = some (index_names (r900_names radio_fl)) }
  unfolding handle_line
  handle_line-header now m =
      rw (split-header_line radio_fl, is_header-names radio_fl, names_known m.warned) refl

  module _ (is_r900 : v.message ≡ message radio_fl r) (time : Lacks b',' v.time)
      (data_row : bytes_eq v.time (codes "Time") ≡ false)
      (floats : (f : radio_fl.F) → Lacks b',' (radio_fl.format_f f)) where
    handle_line-row :
        (now : ℕ) (m : SurveyMapper D)
        → m.col_idx ≡ some (index_names (r900_names radio_fl))
        → handle_line fl now (row_line radio_fl v) m ≡ record m {
          sink = write_line (join (r900_row m.radio m.freq_hz (position fl now m.gps)) b',') m.sink;
        }
    unfolding handle_line is_header
    handle_line-row now m h =
        rw
          (
            split-row_line radio_fl v r is_r900 time floats,
            data_row,
            h,
            split-row_line radio_fl v r is_r900 time floats,
            survey_row-fields m.radio m.freq_hz (position fl now m.gps),
          )
          (ap
            (λ idx. record m {
              sink =
                  write_line (join (r900_row m.radio m.freq_hz (position fl now m.gps)) b',')
                    m.sink;
              col_idx = idx;
            })
            h)

    -- After the header row of the decoder, which misses no column, the row of an R900 message is
    -- written to the survey with the message's own fields under their names, this radio's number and
    -- frequency, and the position of the last GGA sentence that the GPS receiver's log holds, with the
    -- speed and the course of its last usable RMC sentence: blank without a receiver, without a usable
    -- GGA sentence at the end, or after ten seconds, and with a speed and a course of zero if that RMC
    -- sentence is older than ten seconds; provided that the time is not the word `Time` and that
    -- neither it nor a printed float holds a comma.
    pub survey_handle_line-r900 :
        (now later : ℕ) (m : SurveyMapper D) (log : Option (List (ℕ × Bytes)))
        → m.gps ≡ reader_of fl log
        → handle_line fl later (row_line radio_fl v) (handle_line fl now (header_line radio_fl) m)
          ≡ record m {
            col_idx = some (index_names (r900_names radio_fl));
            sink =
                write_line
                  (join (r900_row m.radio m.freq_hz (reported_by fl later log)) b',')
                  m.sink;
          }
    survey_handle_line-r900 now later m log e =
        ap (handle_line fl later (row_line radio_fl v)) (handle_line-header now m)
        ∙ handle_line-row later (record m { col_idx = some (index_names (r900_names radio_fl)) })
            refl
        ∙ ap
            (λ p. record m {
              col_idx = some (index_names (r900_names radio_fl));
              sink = write_line (join (r900_row m.radio m.freq_hz p) b',') m.sink;
            })
            (ap (position fl later) e ∙ position-reported_by fl later log)
