-- ===== src/Protocol/Tests.antt =====
-- The registry and the shared loop at concrete inputs.
use rtlamr.Base.{ℕ, [], ◌∷◌, Option, none, some, true, ◌≡◌, ◌≢◌, refl, arith}
use rtlamr.Base.Text.{codes, member, bytes_eq, bytes_eq_iff}
use rtlamr.Protocol.{Message}
use rtlamr.Protocol.{Data, bit_string, new_data}
use rtlamr.Protocol.Scan.{scan}
use rtlamr.Protocol.Scan.Spec.{distinct, accepted, messages_of, scan-accepted}

differ : codes "scm" ≢ codes "scm+"
unfolding bytes_eq
differ e =
    let same : bytes_eq (codes "scm") (codes "scm+") ≡ true =
      (bytes_eq_iff (codes "scm") (codes "scm+")).1 e in
    absurd cc

abbrev echo : Data → Option Message
echo d = some (record {
  fields = [];
  headers = none;
  msg_type = [];
  meter_id = 0;
  meter_type = 0;
  checksum = d.bytes;
})

abbrev echoed : ℕ → Message
echoed b = record {
  fields = [];
  headers = none;
  msg_type = [];
  meter_id = 0;
  meter_type = 0;
  checksum = b ∷ [];
}

-- Packets of two bytes, cut to one: the third repeats the first.
scan-accepted_example :
    messages_of (
      scan 8 echo
        (9 ∷ [])
        []
        (new_data (1 ∷ 2 ∷ []) ∷ new_data (3 ∷ []) ∷ new_data (1 ∷ 5 ∷ []) ∷ []))
    ≡ some (echoed 1 ∷ echoed 3 ∷ [])
unfolding accepted distinct new_data member bytes_eq bit_string
scan-accepted_example = scan-accepted 8 echo 1 (9 ∷ []) [] _ refl (
  record { bits = omega arith; bytes = omega arith },
  (
    record { bits = omega arith; bytes = omega arith },
    (record { bits = omega arith; bytes = omega arith }, tt),
  ),
)
