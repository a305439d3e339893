-- ===== src/Rtlamrscan/Sink/Prefix.antt =====
-- prefixWriter: the lines of a child process, whatever pieces its output comes in.
use rtlamr.Base.{
  ℕ, zero, suc, ◌-◌, ◌≤◌, List, [], ◌∷◌, ◌++◌, append_assoc, append-nil, ◌==◌, if◌then◌else◌, none,
  some, length, length-append, take, drop, replicate, flatten, All-append, ◌≡◌, refl, sym, ap, ◌∙◌,
  inl, inr, Bool-cases, arith,
}
use rtlamr.Base.Text.{Bytes}
use rtlamr.Base.Text.Trim.{index_byte, trim_right, Lacks, index_byte-Lacks, index_byte-append}

-- A `prefixWriter`, and what has been written to the console.
pub record Writer : Type 0 where
  pub prefix : Bytes
  pub buf : Bytes
  pub console : Bytes

-- `%-10s`.
unfoldable pub pad10 : Bytes → Bytes
pad10 s = s ++ replicate (10 - length s) b' '

-- `fmt.Fprintf(consoleOut, "%-10s %s\n", w.prefix, bytes.TrimRight(line, "\r"))`.
unfoldable pub labelled : Bytes → Bytes → Bytes
labelled prefix line = pad10 prefix ++ b' ' ∷ trim_right (λ c. c == b'\r') line ++ b'\n' ∷ []

-- The loop of `Write`. A round takes a newline out of the buffer.
pub write_loop : ℕ → Writer → Writer
write_loop zero w = w
write_loop (suc fuel) w = elim (index_byte w.buf b'\n') [
  | none ↦ w
  | some idx ↦ write_loop fuel (record w {
    buf = drop (suc idx) w.buf;
    console = w.console ++ labelled w.prefix (take idx w.buf);
  })
]

-- `Write`; `length` rounds are enough.
unfoldable pub write : Bytes → Writer → Writer
unfolding write_loop
write p w = let buf = w.buf ++ p in write_loop (length buf) (record w { buf = buf })

unfoldable pub write_all : List Bytes → Writer → Writer
write_all [] w = w
write_all (p ∷ ps) w = write_all ps (write p w)

-- The output byte by byte: a newline ends the line that is held.
abbrev pub feed : Bytes → Writer → Writer
feed [] w = w
feed (c ∷ s) w =
    if c == b'\n'
    then feed s (record w { buf = []; console = w.console ++ labelled w.prefix w.buf })
    else feed s (record w { buf = w.buf ++ c ∷ [] })

abbrev IsHeld : Bytes → Type 0
IsHeld = Lacks b'\n'

drop_line : (b p : Bytes) → drop (suc (length b)) (b ++ b'\n' ∷ p) ≡ p
drop_line [] p = refl
drop_line (x ∷ b) p = drop_line b p

take_line : (b p : Bytes) → take (length b) (b ++ p) ≡ b
take_line [] p = refl
take_line (x ∷ b) p = ap (◌∷◌ x) (take_line b p)

-- A round on a buffer with a newline.
write_loop-newline :
    (fuel : ℕ) (p b prefix console : Bytes)
    → IsHeld b
    → write_loop (suc fuel) (record { prefix = prefix; buf = b ++ b'\n' ∷ p; console = console })
      ≡ write_loop fuel
          (record { prefix = prefix; buf = p; console = console ++ labelled prefix b })
unfolding write_loop
write_loop-newline fuel p b prefix console h =
    rw (write_loop, index_byte-append b p b'\n' h, drop_line b p, take_line b (b'\n' ∷ p)) refl

-- Behind a held line, the loop takes all the lines of the rest.
write_loop-feed :
    (fuel : ℕ) (p b prefix console : Bytes)
    → IsHeld b
    → length p ≤ fuel
    → write_loop fuel (record { prefix = prefix; buf = b ++ p; console = console })
      ≡ feed p (record { prefix = prefix; buf = b; console = console })
unfolding write_loop
write_loop-feed zero [] b prefix console h le = rw (append-nil b) refl
write_loop-feed (suc fuel) [] b prefix console h le =
    rw (append-nil b) (rw (write_loop, index_byte-Lacks b b'\n' h) refl)
write_loop-feed zero (c ∷ p) b prefix console h le = absurd (omega arith)
write_loop-feed (suc fuel) (c ∷ p) b prefix console h le = elim (Bool-cases (c == b'\n')) [
  | inr e ↦ rw e (
      ap (λ t. write_loop (suc fuel) (record { prefix = prefix; buf = t; console = console }))
        (sym (append_assoc b (c ∷ []) p))
      ∙ write_loop-feed (suc fuel) p (b ++ c ∷ []) prefix console
          (All-append _ b (c ∷ []) h (e, tt)) (omega arith))
  | inl e ↦
      let newline : c ≡ b'\n' = ground arith in
      rw e (
        ap
          (λ t.
            write_loop (suc fuel) (record { prefix = prefix; buf = b ++ t ∷ p; console = console }))
          newline
        ∙ write_loop-newline fuel p b prefix console h
        ∙ write_loop-feed fuel p [] prefix (console ++ labelled prefix b) tt (omega arith))
]

write-feed : (p : Bytes) (w : Writer) → IsHeld w.buf → write p w ≡ feed p w
unfolding write
write-feed p w h =
    write_loop-feed (length (w.buf ++ p)) p w.buf w.prefix w.console h
      (omega (arith, length-append w.buf p))

feed-IsHeld : (p : Bytes) (w : Writer) → IsHeld w.buf → IsHeld (feed p w).buf
feed-IsHeld [] w h = h
feed-IsHeld (c ∷ p) w h = elim (Bool-cases (c == b'\n')) [
  | inl e ↦
      rw e
        (feed-IsHeld p (record w { buf = []; console = w.console ++ labelled w.prefix w.buf }) tt)
  | inr e ↦
      rw e
        (feed-IsHeld p (record w { buf = w.buf ++ c ∷ [] }) (All-append _ w.buf (c ∷ []) h (e, tt)))
]

feed-append : (p q : Bytes) (w : Writer) → feed (p ++ q) w ≡ feed q (feed p w)
feed-append [] q w = refl
feed-append (c ∷ p) q w = elim (Bool-cases (c == b'\n')) [
  | inl e ↦ rw e (feed-append p q _)
  | inr e ↦ rw e (feed-append p q _)
]

-- However the output of a process is cut into writes, a writer whose buffer holds no newline prints
-- and keeps what it would print and keep of the same bytes one at a time; and each write ends with no
-- newline left in the buffer, so that its loop has run to its end.
pub write_all-feed :
    (ps : List Bytes) (w : Writer)
    → Lacks b'\n' w.buf
    → (write_all ps w ≡ feed (flatten ps) w) × Lacks b'\n' (write_all ps w).buf
unfolding write_all
write_all-feed [] w h = (refl, h)
write_all-feed (p ∷ ps) w h =
    let once = write-feed p w h in
    let held : Lacks b'\n' (write p w).buf = rw once (feed-IsHeld p w h) in
    let (rest, ends) = write_all-feed ps (write p w) held in
    (rest ∙ ap (feed (flatten ps)) once ∙ sym (feed-append p (flatten ps) w), ends)
