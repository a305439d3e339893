-- ===== src/ScmPlus/Parse.antt =====
-- `Parse` from end to end: which packets become messages.
use rtlamr.Base.{
  ℕ, ◌*◌, ◌^◌, ◌<◌, bit_xor, List, [], ◌∷◌, some, drop, length, ◌≡◌, ◌≢◌, refl, ap, ◌∙◌, arith,
}
use rtlamr.Base.Text.{Bytes}
use rtlamr.Base.Xor.{bit_xor-lt}
use rtlamr.Crc.{crc_checksum}
use rtlamr.Crc.Residue.{ccitt, crc_checksum-new_crc, ccitt-append-complement}
use rtlamr.Crc.Detect.{checksum-lt}
use rtlamr.Protocol.{Message, new_data}
use rtlamr.Protocol.Decoder.Slice.{data_at}
use rtlamr.Protocol.Scan.{scan}
use rtlamr.Protocol.Scan.Spec.{messages_of}
use rtlamr.Protocol.Scan.Repeat.{copies, scan-copies, bytes-new_data}
use rtlamr.ScmPlus.{Scm, new_scm, message, accept, parse}
use rtlamr.ScmPlus.Layout.{InRange, body, body-IsByte, encode, new_scm-encode_plus}

-- The message with the check that a meter sends: the complement of the CCITT check of the body.
unfoldable pub seal : Scm → Scm
seal m = record m { packet_crc = bit_xor (crc_checksum ccitt (body m)) 0xFFFF }

module _ (m : Scm) (h : InRange m) where
  seal-InRange : InRange (seal m)
  unfolding seal
  seal-InRange = record {
    frame_sync = h.frame_sync;
    protocol_id = h.protocol_id;
    endpoint_type = h.endpoint_type;
    endpoint_id = h.endpoint_id;
    consumption = h.consumption;
    tamper = h.tamper;
    packet_crc = bit_xor-lt 16 (crc_checksum ccitt (body m)) 0xFFFF sum-lt (omega arith);
  }
    where
      sum-lt : crc_checksum ccitt (body m) < 2 ^ 16
      sum-lt =
          rw (crc_checksum-new_crc 0xFFFF 0x1021 0x1D0F (body m))
            (checksum-lt 0x1021 0xFFFF (body m) (omega arith) (omega arith) (body-IsByte m h))

  checked : crc_checksum ccitt (drop 2 (encode (seal m))) ≡ ccitt.residue
  unfolding seal encode body
  checked = ccitt-append-complement (body m) (body-IsByte m h)

  -- A sealed packet is accepted if its endpoint and its protocol are, and only then.
  pub accept-encode :
      m.endpoint_id ≢ 0
      → m.protocol_id ≡ 0x1E
      → accept (new_data (encode (seal m))) ≡ some (message (seal m))
  unfolding accept
  accept-encode ne is_scm =
      let id_ne : (seal m).endpoint_id ≢ 0 = unfold seal in ne in
      let protocol : (seal m).protocol_id ≡ 0x1E = unfold seal in is_scm in
      ground (
        arith,
        bytes-new_data (encode (seal m)),
        checked,
        new_scm-encode_plus (seal m) seal-InRange,
        id_ne,
        protocol,
      )

accept-data_at : (q : ℕ) (xs : Bytes) → accept (data_at q xs) ≡ accept (new_data xs)
unfolding accept new_scm data_at
accept-data_at q xs = refl

-- A meter's message of the SCM+ protocol whose fields fit their types and whose endpoint is not
-- zero is sent exactly once by one call, with all its fields, at whatever samples and however often
-- the decoder found its packet and whatever bytes of a longer protocol stand behind it each time.
pub parse-encode_plus :
    (m : Scm) (buffer : Bytes) (first : ℕ × Bytes) (others : List (ℕ × Bytes))
    → InRange m
    → m.endpoint_id ≢ 0
    → m.protocol_id ≡ 0x1E
    → length buffer ≡ 16
    → messages_of (parse buffer (copies (encode (seal m)) (first ∷ others)))
      ≡ some (message (seal m) ∷ [])
unfolding parse
parse-encode_plus m buffer first others h ne is_scm e =
    ap (λ k. messages_of (scan k accept buffer [] (copies (encode (seal m)) (first ∷ others))))
      (let e : 16 * 8 ≡ 8 * length (encode (seal m)) = unfold encode body in refl in e)
    ∙ scan-copies (encode (seal m)) accept buffer (message (seal m)) first others
        (unfold encode body in e)
        (λ q. accept-data_at q (encode (seal m)) ∙ accept-encode m h ne is_scm)

-- Whatever is accepted has an endpoint, is of the SCM+ protocol and leaves the residue.
pub accept-guards :
    (bytes : Bytes) (msg : Message)
    → accept (new_data bytes) ≡ some msg
    → (msg.meter_id ≢ 0)
      × ((new_scm (new_data bytes)).protocol_id ≡ 0x1E)
      × (crc_checksum ccitt (drop 2 bytes) ≡ ccitt.residue)
      × (msg ≡ message (new_scm (new_data bytes)))
unfolding accept message
accept-guards bytes msg h = ground (arith, bytes-new_data bytes)
