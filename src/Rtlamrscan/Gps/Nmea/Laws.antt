-- ===== src/Rtlamrscan/Gps/Nmea/Laws.antt =====
-- Sentences that are sealed with their checksum, changed in one byte, or surrounded by noise.
use rtlamr.Base.{
  ℕ, ◌/◌, ◌%◌, ◌<◌, bit_xor, List, [], ◌∷◌, ◌++◌, append_assoc, true, false, ◌==◌, ==_refl, ==_ne,
  none, some, All, All-append, ◌≡◌, ◌≢◌, refl, sym, ap, ◌∙◌, arith, Option-cases, inl, inr,
}
use rtlamr.Base.Xor.{bit_xor-lt, bit_xor_comm, bit_xor_cancel}
use rtlamr.Base.Text.{Bytes, split, upper_digit}
use rtlamr.Base.Text.Trim.{
  trim_space, trim_left, is_space, trim_right, Lacks, trim_right_none, trim_right_all,
}
use rtlamr.Base.Text.Split.{split-append, split_whole}
use rtlamr.Rtlamrscan.Gps.Nmea.{
  xor_sum, nmea_checksum_ok, any_valid, contains_valid_nmea, sentence, nmea_checksum_ok-sentence,
}

abbrev pub AreBytes : Bytes → Type 0
AreBytes = All (λ b. b < 256)

xor_sum-lt : (sum : ℕ) (bytes : Bytes) → sum < 256 → AreBytes bytes → xor_sum sum bytes < 256
unfolding xor_sum
xor_sum-lt sum [] h hs = h
xor_sum-lt sum (b ∷ bytes) h (hb, hs) =
    xor_sum-lt (bit_xor sum b) bytes (bit_xor-lt 8 sum b h hb) hs

xor_sum-append : (sum : ℕ) (s t : Bytes) → xor_sum sum (s ++ t) ≡ xor_sum (xor_sum sum s) t
unfolding xor_sum
xor_sum-append sum [] t = refl
xor_sum-append sum (b ∷ s) t = xor_sum-append (bit_xor sum b) s t

-- Running the checksum over the same bytes from two sums keeps them apart.
xor_sum-inj : (a b : ℕ) (s : Bytes) → xor_sum a s ≡ xor_sum b s → a ≡ b
unfolding xor_sum
xor_sum-inj a b [] h = h
xor_sum-inj a b (c ∷ s) h =
    sym (bit_xor_cancel c a)
    ∙ ap (bit_xor c)
        (bit_xor_comm c a ∙ xor_sum-inj (bit_xor a c) (bit_xor b c) s h ∙ bit_xor_comm b c)
    ∙ bit_xor_cancel c b

-- A payload of bytes that is sealed with its checksum is given back, whatever it holds.
pub nmea_checksum_ok-seal :
    (payload : Bytes)
    → AreBytes payload
    → nmea_checksum_ok (sentence payload (xor_sum 0 payload)) ≡ some payload
nmea_checksum_ok-seal payload h =
    nmea_checksum_ok-sentence payload (xor_sum 0 payload) (xor_sum-lt 0 payload (omega arith) h)
    ∙ rw (==_refl (xor_sum 0 payload)) refl

-- A sealed NMEA sentence is refused after any change of one byte of its payload.
pub nmea_checksum_ok-change :
    (s t : Bytes) (x y : ℕ)
    → AreBytes (s ++ x ∷ t)
    → x ≢ y
    → nmea_checksum_ok (sentence (s ++ y ∷ t) (xor_sum 0 (s ++ x ∷ t))) ≡ none
nmea_checksum_ok-change s t x y h ne =
    nmea_checksum_ok-sentence (s ++ y ∷ t) (xor_sum 0 (s ++ x ∷ t))
      (xor_sum-lt 0 (s ++ x ∷ t) (omega arith) h)
    ∙ rw (==_ne _ _ differ) refl
  where
    differ : xor_sum 0 (s ++ x ∷ t) ≢ xor_sum 0 (s ++ y ∷ t)
    differ e =
        let sum = xor_sum 0 s in
        let tails : xor_sum (bit_xor sum x) t ≡ xor_sum (bit_xor sum y) t =
          unfold xor_sum in sym (xor_sum-append 0 s (x ∷ t)) ∙ e ∙ xor_sum-append 0 s (y ∷ t) in
        ne (
          sym (bit_xor_cancel sum x)
          ∙ ap (bit_xor sum) (xor_sum-inj (bit_xor sum x) (bit_xor sum y) t tails)
          ∙ bit_xor_cancel sum y)

any_valid-append : (ls ms : List Bytes) → any_valid ms ≡ true → any_valid (ls ++ ms) ≡ true
unfolding any_valid
any_valid-append [] ms h = h
any_valid-append (l ∷ ls) ms h = elim (Option-cases (nmea_checksum_ok (trim_space l))) [
  | inl e ↦ rw (any_valid, e) (any_valid-append ls ms h)
  | inr (p, e) ↦ rw (any_valid, e) refl
]

any_valid-found :
    (line payload : Bytes) (ls : List Bytes)
    → nmea_checksum_ok (trim_space line) ≡ some payload
    → any_valid (line ∷ ls) ≡ true
unfolding any_valid
any_valid-found line payload ls e = rw (any_valid, e) refl

digit_plain :
    (d : ℕ) → d < 16 → (is_space (upper_digit d) ≡ false) × ((upper_digit d == b'\n') ≡ false)
unfolding upper_digit is_space
digit_plain d h = ground arith

-- A payload sealed with its checksum, as a receiver sends it.
abbrev pub sealed_line : Bytes → Bytes
sealed_line payload = sentence payload (xor_sum 0 payload) ++ b'\r' ∷ []

module _ (payload : Bytes) (h : AreBytes payload) (one_line : Lacks b'\n' payload) where
  abbrev check : ℕ
  check = xor_sum 0 payload

  check-lt : check < 256
  check-lt = xor_sum-lt 0 payload (omega arith) h

  sealed_line-Lacks : Lacks b'\n' (sealed_line payload)
  sealed_line-Lacks =
      let (_, high) = digit_plain (check / 16) (omega (arith, check-lt)) in
      let (_, low) = digit_plain (check % 16) (omega arith) in
      let ends : Lacks b'\n' (b'*' ∷ upper_digit (check / 16) ∷ upper_digit (check % 16) ∷ []) =
        (refl, (high, (low, tt))) in
      All-append (λ x. (x == b'\n') ≡ false) (sentence payload check) (b'\r' ∷ [])
        (refl, All-append (λ x. (x == b'\n') ≡ false) payload _ one_line ends) (refl, tt)

  trim_space-sealed_line : trim_space (sealed_line payload) ≡ sentence payload check
  unfolding trim_space trim_left is_space
  trim_space-sealed_line =
      trim_right_all is_space (sentence payload check) (b'\r' ∷ []) (refl, tt)
      ∙ ap (trim_right is_space) shape
      ∙ trim_right_none is_space front (upper_digit (check % 16)) (digit_plain _ (omega arith)).0
      ∙ sym shape
    where
      front : Bytes
      front = b'$' ∷ payload ++ b'*' ∷ upper_digit (check / 16) ∷ []

      shape : sentence payload check ≡ front ++ upper_digit (check % 16) ∷ []
      shape = ap (◌∷◌ b'$') (
          sym (
            append_assoc payload (b'*' ∷ upper_digit (check / 16) ∷ [])
              (upper_digit (check % 16) ∷ [])))

  -- A sealed sentence of bytes that stands on a line of its own, ended by a carriage return and a
  -- newline, is found whatever comes before and behind it.
  pub contains_valid_nmea-line :
      (noise rest : Bytes)
      → contains_valid_nmea (noise ++ b'\n' ∷ (sealed_line payload ++ b'\n' ∷ rest)) ≡ true
  unfolding contains_valid_nmea
  contains_valid_nmea-line noise rest =
      rw
        (
          split-append noise (sealed_line payload ++ b'\n' ∷ rest) b'\n',
          split-append (sealed_line payload) rest b'\n',
          split_whole (sealed_line payload) b'\n' sealed_line-Lacks,
        )
        (any_valid-append (split noise b'\n') (sealed_line payload ∷ split rest b'\n') (
          any_valid-found (sealed_line payload) payload (split rest b'\n')
            (ap nmea_checksum_ok trim_space-sealed_line ∙ nmea_checksum_ok-seal payload h)))
