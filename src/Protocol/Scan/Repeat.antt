-- ===== src/Protocol/Scan/Repeat.antt =====
-- Packets that end in bytes of a longer protocol, and packets that the decoder finds repeatedly.
use rtlamr.Base.{
  ℕ, ◌*◌, List, [], ◌∷◌, ◌++◌, true, Option, some, ◌≡◌, refl, sym, ap, ◌∙◌, arith, length,
  length-append, take, take-append_self, map, All, ap₂,
}
use rtlamr.Base.Text.{Bytes, bin, member, bytes_eq_iff}
use rtlamr.Protocol.{Data, Message, new_data, bit_string}
use rtlamr.Protocol.Decoder.Slice.{data_at}
use rtlamr.Protocol.Scan.{scan}
use rtlamr.Protocol.Scan.Spec.{cut, distinct, accepted, IsLong, messages_of, scan-accepted}

pub bytes-new_data : (xs : Bytes) → (new_data xs).bytes ≡ xs
unfolding new_data
bytes-new_data xs = refl

bit_string-append : (xs ys : Bytes) → bit_string (xs ++ ys) ≡ bit_string xs ++ bit_string ys
unfolding bit_string
bit_string-append [] ys = refl
bit_string-append (x ∷ xs) ys = ap (λ s. bin 8 x ++ s) (bit_string-append xs ys)

length-bit_string : (xs : Bytes) → length (bit_string xs) ≡ 8 * length xs
unfolding bit_string
length-bit_string [] = refl
length-bit_string (x ∷ xs) = omega (arith, length-bit_string xs)

pub cut-new_data :
    (xs extra : Bytes) → cut (8 * length xs) (length xs) (new_data (xs ++ extra)) ≡ new_data xs
unfolding new_data
cut-new_data xs extra = λ i. record {
  idx = 0;
  bits =
      (ap (take (8 * length xs)) (bit_string-append xs extra)
          ∙ ap (λ n. take n (bit_string xs ++ bit_string extra)) (sym (length-bit_string xs))
          ∙ take-append_self (bit_string xs) (bit_string extra))
        i;
  bytes = take-append_self xs extra i;
}

pub new_data-IsLong :
    (xs extra : Bytes) → IsLong (8 * length xs) (length xs) (new_data (xs ++ extra))
unfolding new_data
new_data-IsLong xs extra = record {
  bits = omega (arith, length-bit_string (xs ++ extra), length-append xs extra);
  bytes = omega (arith, length-append xs extra);
}

member_self : (k : Bytes) (seen : List Bytes) → member k (k ∷ seen) ≡ true
unfolding member
member_self k seen = rw ((bytes_eq_iff k k).1 refl)

-- The packets that `Slice` gives for the same bytes: found at several samples, with other bytes behind
-- them each time.
abbrev pub copies : Bytes → List (ℕ × Bytes) → List Data
copies xs found = map (λ e. data_at e.0 (xs ++ e.1)) found

module _ (xs : Bytes) where
  cut-data_at :
      (e : ℕ × Bytes) → cut (8 * length xs) (length xs) (data_at e.0 (xs ++ e.1)) ≡ data_at e.0 xs
  unfolding data_at
  cut-data_at (q, extra) = ap (λ (d : Data). at_q d) (cut-new_data xs extra)
    where
      at_q : Data → Data
      at_q d = record { idx = q; bits = d.bits; bytes = d.bytes }

  cut-copies :
      (found : List (ℕ × Bytes))
      → map (cut (8 * length xs) (length xs)) (copies xs found) ≡ map (λ e. data_at e.0 xs) found
  cut-copies [] = refl
  cut-copies (e ∷ found) = ap₂ (◌∷◌) (cut-data_at e) (cut-copies found)

  copies-IsLong :
      (found : List (ℕ × Bytes)) → All (IsLong (8 * length xs) (length xs)) (copies xs found)
  unfolding data_at
  copies-IsLong [] = tt
  copies-IsLong ((q, extra) ∷ found) =
      let long = new_data-IsLong xs extra in
      (record { bits = long.bits; bytes = long.bytes }, copies-IsLong found)

  distinct-copies :
      (found : List (ℕ × Bytes)) (seen : List Bytes)
      → member xs seen ≡ true
      → distinct seen (map (λ e. data_at e.0 xs) found) ≡ []
  unfolding distinct data_at new_data
  distinct-copies [] seen h = refl
  distinct-copies (e ∷ found) seen h = rw h (distinct-copies found seen h)

  -- Bytes that are found at any samples, with any bytes behind them, are sent once.
  pub scan-copies :
      (accept : Data → Option Message) (buffer : Bytes) (m : Message) (first : ℕ × Bytes)
      (others : List (ℕ × Bytes))
      → length buffer ≡ length xs
      → ((q : ℕ) → accept (data_at q xs) ≡ some m)
      → messages_of (scan (8 * length xs) accept buffer [] (copies xs (first ∷ others)))
        ≡ some (m ∷ [])
  scan-copies accept buffer m first others e h =
      scan-accepted (8 * length xs) accept (length xs) buffer [] _ e
        (copies-IsLong (first ∷ others))
      ∙ ap (λ ds. some (accepted accept (distinct [] ds))) (cut-copies (first ∷ others))
      ∙ ap (λ ds. some (accepted accept ds)) once
      ∙ sent
    where
      once : distinct [] (map (λ e. data_at e.0 xs) (first ∷ others)) ≡ data_at first.0 xs ∷ []
      once =
          unfold distinct member data_at new_data in
          ap (◌∷◌ (data_at first.0 xs))
            (unfold member data_at new_data in distinct-copies others (xs ∷ []) (member_self xs []))

      sent : some (accepted accept (data_at first.0 xs ∷ [])) ≡ some (m ∷ [])
      sent = unfold accepted in rw (h first.0, accepted) refl
