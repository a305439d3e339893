-- ===== src/Scm/Parse.antt =====
-- `Parse` from end to end: which packets become messages.
use mathlib.Core.Logic.{◌≢◌}
use rtlamr.Base.{
  ℕ, ◌+◌, ◌*◌, List, [], ◌∷◌, ◌++◌, none, some, slice, drop, take, take-append_self, All, length,
  length-append, ◌≡◌, refl, sym, ap, ◌∙◌, ◌⊎◌, arith, append-nil, Option-cases, inl, inr,
}
use rtlamr.Base.Text.{Bytes}
use rtlamr.Crc.{new_table, checksum, crc_checksum}
use rtlamr.Crc.Serial.{IsByte}
use rtlamr.Crc.Residue.{be16, checksum-append-checksum, crc_checksum-new_crc}
use rtlamr.Crc.Detect.{checksum-lt, checksum_burst}
use rtlamr.Protocol.{Data, Message, new_data}
use rtlamr.Protocol.Decoder.Slice.{data_at}
use rtlamr.Protocol.Scan.{scan}
use rtlamr.Protocol.Scan.Spec.{messages_of}
use rtlamr.Protocol.Scan.Repeat.{copies, scan-copies, bytes-new_data}
use rtlamr.Scm.{Scm, bch, new_scm, message, accept, parse}
use rtlamr.Scm.Layout.{InRange, body, encode, new_scm-encode}

-- The message with the check that a meter sends: the BCH code of the bytes behind the preamble.
unfoldable pub seal : Scm → Scm
seal m = record m { checksum_val = checksum 0 (drop 2 (body m)) (new_table 0x6F63) }

module _ (m : Scm) (h : InRange m) where
  tail-IsByte : All IsByte (drop 2 (body m))
  tail-IsByte = unfold body in omega arith

  pub seal-InRange : InRange (seal m)
  unfolding seal
  seal-InRange = record {
    id = h.id;
    type = h.type;
    tamper_phy = h.tamper_phy;
    tamper_enc = h.tamper_enc;
    consumption = h.consumption;
    checksum_val = checksum-lt 0x6F63 0 (drop 2 (body m)) (omega arith) (omega arith) tail-IsByte;
  }

  checked : crc_checksum bch (slice (encode (seal m)) 2 12) ≡ 0
  unfolding seal encode body
  checked =
      crc_checksum-new_crc 0 0x6F63 0 (drop 2 (body m) ++ be16 (seal m).checksum_val)
      ∙ checksum-append-checksum 0x6F63 0 (drop 2 (body m)) (omega arith) (omega arith) tail-IsByte

  pub accept-encode : m.id ≢ 0 → accept (new_data (encode (seal m))) ≡ some (message (seal m))
  unfolding accept
  accept-encode ne =
      let id_ne : (seal m).id ≢ 0 = unfold seal in ne in
      ground (
        arith,
        bytes-new_data (encode (seal m)),
        checked,
        new_scm-encode (seal m) seal-InRange,
        id_ne,
      )

pub accept-data_at : (q : ℕ) (xs : Bytes) → accept (data_at q xs) ≡ accept (new_data xs)
unfolding accept new_scm data_at
accept-data_at q xs = refl

-- A meter's message that fits its fields and has an id other than zero is sent exactly once by
-- one call, with all its fields, at whatever samples and however often the decoder found its packet
-- and whatever bytes of a longer protocol stand behind it each time.
pub parse-encode :
    (m : Scm) (buffer : Bytes) (first : ℕ × Bytes) (others : List (ℕ × Bytes))
    → InRange m
    → m.id ≢ 0
    → length buffer ≡ 12
    → messages_of (parse buffer (copies (encode (seal m)) (first ∷ others)))
      ≡ some (message (seal m) ∷ [])
unfolding parse
parse-encode m buffer first others h ne e =
    ap (λ k. messages_of (scan k accept buffer [] (copies (encode (seal m)) (first ∷ others))))
      (let e : 96 ≡ 8 * length (encode (seal m)) = unfold encode body in refl in e)
    ∙ scan-copies (encode (seal m)) accept buffer (message (seal m)) first others
        (unfold encode body in e) (λ q. accept-data_at q (encode (seal m)) ∙ accept-encode m h ne)

pub accept-checked :
    (d : Data) {msg : Message} → accept d ≡ some msg → crc_checksum bch (slice d.bytes 2 12) ≡ 0
unfolding accept
accept-checked d h = ground arith

-- The bytes that the check covers, in a packet with `v` and `w` side by side.
covered :
    (x y v w : ℕ) (before after : Bytes)
    → length before + length after ≡ 8
    → slice (x ∷ y ∷ before ++ v ∷ w ∷ after) 2 12 ≡ before ++ v ∷ w ∷ after
covered x y v w before after size =
    ap (λ n. take n word)
      (let e : 10 ≡ length word = omega (arith, length-append before (v ∷ w ∷ after)) in e)
    ∙ take_all word
  where
    word : Bytes
    word = before ++ v ∷ w ∷ after

    take_all : (xs : Bytes) → take (length xs) xs ≡ xs
    take_all xs = ap (take (length xs)) (sym (append-nil xs)) ∙ take-append_self xs []

-- If a packet of twelve bytes passes the tests, then no packet that differs from it behind the
-- preamble, in one or two adjacent bytes, passes them.
pub accept_burst :
    (d d' : Data) (msg : Message) (x y x' y' v w v' w' : ℕ) (before after : Bytes)
    → accept d ≡ some msg
    → d.bytes ≡ x ∷ y ∷ before ++ v ∷ w ∷ after
    → d'.bytes ≡ x' ∷ y' ∷ before ++ v' ∷ w' ∷ after
    → length before + length after ≡ 8
    → All IsByte before
    → All IsByte after
    → All IsByte (v ∷ w ∷ v' ∷ w' ∷ [])
    → (v ≢ v') ⊎ (w ≢ w')
    → accept d' ≡ none
accept_burst d d' msg x y x' y' v w v' w' before after h e e' size hb ha (hv, (hw, (hv', (hw', _))))
      differ =
    elim (Option-cases (accept d')) [
      | inl refused ↦ refused
      | inr (msg', h') ↦ absurd (
          checksum_burst 0x6F63 0 v w v' w' before after refl (omega arith) (omega arith) hb ha hv
            hw hv' hw' differ (sound d x y v w h e ∙ sym (sound d' x' y' v' w' h' e')))
    ]
  where
    sound :
        (p : Data) (a b r s : ℕ) {m : Message}
        → accept p ≡ some m
        → p.bytes ≡ a ∷ b ∷ before ++ r ∷ s ∷ after
        → checksum 0 (before ++ r ∷ s ∷ after) (new_table 0x6F63) ≡ 0
    sound p a b r s passes shape =
        sym (crc_checksum-new_crc 0 0x6F63 0 (before ++ r ∷ s ∷ after))
        ∙ ap (crc_checksum bch)
            (sym (ap (λ l. slice l 2 12) shape ∙ covered a b r s before after size))
        ∙ accept-checked p passes
