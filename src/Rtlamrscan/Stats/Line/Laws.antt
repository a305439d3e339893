-- ===== src/Rtlamrscan/Stats/Line/Laws.antt =====
-- What the collector records of the rows that the decoder writes for R900 messages.
use rtlamr.Base.{ℕ, ◌<◌, [], false, some, ◌≡◌, refl, ap, ◌∙◌, arith}
use rtlamr.Base.Int.{pos, atoi-format_uint}
use rtlamr.Base.Text.{Bytes, codes, bytes_eq, format_uint}
use rtlamr.Base.Text.Digits.{format_uint-cons}
use rtlamr.Base.Text.Trim.{Lacks}
use rtlamr.Protocol.{LogMessage}
use rtlamr.Protocol.Floats.{Floats}
use rtlamr.R900.{R900, record_fields, headers, message}
use rtlamr.Rtlamrscan.Columns.{index_from, index_names, index_of, is_header, get}
use rtlamr.Rtlamrscan.Columns.R900.{
  r900_names, header_line, row_line, split-header_line, is_header-names, r900_fields,
  split-row_line,
}
use rtlamr.Rtlamrscan.Stats.{RecentRow, record_row}
use rtlamr.Rtlamrscan.Stats.Line.{row_id, recent_row, Tee, handle_line}

number_named : (n : ℕ) → bytes_eq (format_uint n 10) [] ≡ false
unfolding bytes_eq
number_named n = let (c, s, e, _, _) = format_uint-cons n in rw e refl

module _ (fl : Floats) (v : LogMessage) (r : R900 fl.F) where
  -- The burst of a message.
  abbrev pub r900_burst : ℕ → RecentRow
  r900_burst radio = record {
    time = v.time;
    radio = radio;
    id = format_uint r.id 10;
    rssi = fl.format_f r.rssi;
    leak = pos r.leak;
    leak_now = pos r.leak_now;
  }

  recent_row-fields :
      (radio : ℕ)
      → r.leak < 256
      → r.leak_now < 256
      → recent_row radio (index_names (r900_names fl)) (r900_fields fl v r) ≡ r900_burst radio
  unfolding recent_row row_id index_names index_from index_of get bytes_eq headers record_fields
  recent_row-fields radio leak leak_now =
      rw
        (
          recent_row,
          number_named r.id,
          atoi-format_uint r.leak (omega arith),
          atoi-format_uint r.leak_now (omega arith),
        )
        refl

  handle_line-header :
      {N : Type 0} (next : Bytes → N → N) (now : ℕ) (t : Tee N)
      → handle_line next now (header_line fl) t ≡ record t {
        col_idx = some (index_names (r900_names fl));
        rest = next (header_line fl) t.rest;
      }
  unfolding handle_line
  handle_line-header next now t = rw (split-header_line fl, is_header-names fl) refl

  module _ (is_r900 : v.message ≡ message fl r) (time : Lacks b',' v.time)
      (data_row : bytes_eq v.time (codes "Time") ≡ false)
      (floats : (f : fl.F) → Lacks b',' (fl.format_f f)) (leak : r.leak < 256)
      (leak_now : r.leak_now < 256) where
    handle_line-row :
        {N : Type 0} (next : Bytes → N → N) (now : ℕ) (t : Tee N)
        → t.col_idx ≡ some (index_names (r900_names fl))
        → handle_line next now (row_line fl v) t ≡ record t {
          stats = record_row now (r900_burst t.radio) t.stats;
          rest = next (row_line fl v) t.rest;
        }
    unfolding handle_line is_header
    handle_line-row next now t h =
        rw
          (
            split-row_line fl v r is_r900 time floats,
            data_row,
            h,
            split-row_line fl v r is_r900 time floats,
            recent_row-fields t.radio leak leak_now,
          )
          refl

    -- After the header row of the decoder, the row of an R900 message whose leak counts fit a byte is
    -- recorded once, as a burst of this radio with the message's time, id, strength and leaks, and
    -- both lines are passed on unchanged and in order; provided that the time is not the word `Time`
    -- and that neither it nor a printed float holds a comma.
    pub handle_line-r900 :
        {N : Type 0} (next : Bytes → N → N) (now later : ℕ) (t : Tee N)
        → handle_line next later (row_line fl v) (handle_line next now (header_line fl) t)
          ≡ record t {
            stats = record_row later (r900_burst t.radio) t.stats;
            col_idx = some (index_names (r900_names fl));
            rest = next (row_line fl v) (next (header_line fl) t.rest);
          }
    handle_line-r900 next now later t =
        ap (handle_line next later (row_line fl v)) (handle_line-header next now t)
        ∙ handle_line-row next later
            (record t {
              col_idx = some (index_names (r900_names fl));
              rest = next (header_line fl) t.rest;
            })
            refl
