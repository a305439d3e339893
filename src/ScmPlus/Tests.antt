-- ===== src/ScmPlus/Tests.antt =====
-- Runs of the parser, and the theorems at concrete inputs.
use rtlamr.Base.{[], ◌∷◌, some, replicate, ◌≡◌, refl, arith}
use rtlamr.Protocol.Scan.Repeat.{copies}
use rtlamr.Protocol.Scan.Spec.{messages_of}
use rtlamr.ScmPlus.{Scm, message, parse}
use rtlamr.ScmPlus.Layout.{InRange, encode}
use rtlamr.ScmPlus.Parse.{seal, parse-encode_plus}

abbrev meter : Scm
meter = record {
  frame_sync = 0x16A3;
  protocol_id = 0x1E;
  endpoint_type = 7;
  endpoint_id = 0x89ABCDEF;
  consumption = 70000;
  tamper = 0x1234;
  packet_crc = 0;
}

meter-InRange : InRange meter
meter-InRange = omega arith

parse-encode_plus_example :
    messages_of
      (parse (replicate 16 0) (copies (encode (seal meter)) ((5, 1 ∷ []) ∷ (6, 2 ∷ []) ∷ [])))
    ≡ some (message (seal meter) ∷ [])
parse-encode_plus_example =
    parse-encode_plus meter (replicate 16 0) (5, 1 ∷ []) ((6, 2 ∷ []) ∷ []) meter-InRange
      (omega arith) refl refl
