-- ===== src/Protocol/Scan/Spec.antt =====
-- What the shared loop sends: the accepted ones among the distinct packets, in order.
use mathlib.Core.Option
use rtlamr.Base.{
  ℕ, ◌≤◌, List, [], ◌∷◌, false, Option, none, some, ◌≡◌, refl, ap, ◌∙◌, arith, ltb, if◌then◌else◌,
  length, length-take, take, copy, map, All, Bool-cases, inl, inr,
}
use rtlamr.Base.Text.{Bytes, member}
use rtlamr.Protocol.{Data, Message}
use rtlamr.Protocol.Scan.{Sent, scan, cons_message}

-- A packet cut to a parser's bits and bytes.
abbrev pub cut : ℕ → ℕ → Data → Data
cut symbols size pkt = record {
  idx = pkt.idx;
  bits = take symbols pkt.bits;
  bytes = take size pkt.bytes;
}

-- The first packet of each byte string, given the strings that came before.
unfoldable pub distinct : List Bytes → List Data → List Data
distinct seen [] = []
distinct seen (d ∷ ds) =
    let old = distinct seen ds in
    let new = d ∷ distinct (d.bytes ∷ seen) ds in if member d.bytes seen then old else new

-- The messages that are accepted, in order.
unfoldable pub accepted : (Data → Option Message) → List Data → List Message
accepted accept [] = []
accepted accept (d ∷ ds) = elim (accept d) [
  | none ↦ accepted accept ds
  | some m ↦ m ∷ accepted accept ds
]

-- A packet has at least the bits and bytes that a parser reads.
pub record IsLong (symbols size : ℕ) (pkt : Data) : Type 0 where
  pub bits : symbols ≤ length pkt.bits
  pub bytes : size ≤ length pkt.bytes

abbrev pub messages_of : Option Sent → Option (List Message)
messages_of = Option.map (λ s. s.messages)

copy-take :
    (buffer bytes : Bytes)
    → length buffer ≤ length bytes
    → copy buffer bytes ≡ take (length buffer) bytes
copy-take [] bytes h = refl
copy-take (x ∷ buffer) [] h = absurd (omega arith)
copy-take (x ∷ buffer) (y ∷ bytes) h = ap (◌∷◌ y) (copy-take buffer bytes (omega arith))

messages-cons :
    (o : Option Message) (r : Option Sent) (ms : List Message)
    → messages_of r ≡ some ms
    → messages_of (cons_message o r) ≡ some (elim o [ none ↦ ms | some m ↦ m ∷ ms ])
unfolding cons_message
messages-cons none r ms e = e
messages-cons (some m) none ms e = cc
messages-cons (some m) (some r) ms e =
    ap (λ (o : Option (List Message)). Option.map (λ l. m ∷ l) o) e

module _ (symbols : ℕ) (accept : Data → Option Message) where
  -- On packets that are long enough the loop does not panic, whatever an earlier call left in
  -- the buffer, and sends exactly the accepted ones among the packets that differ in the bytes
  -- read, the first of each, in order.
  pub scan-accepted :
      (size : ℕ) (buffer : Bytes) (seen : List Bytes) (pkts : List Data)
      → length buffer ≡ size
      → All (IsLong symbols size) pkts
      → messages_of (scan symbols accept buffer seen pkts)
        ≡ some (accepted accept (distinct seen (map (cut symbols size) pkts)))
  unfolding scan accepted distinct
  scan-accepted size buffer seen [] e h = refl
  scan-accepted size buffer seen (pkt ∷ pkts) e (long, h) =
      rw (not_short, copied)
        (elim (Bool-cases (member bytes seen)) [
          | inl old ↦ rw old (scan-accepted size bytes seen pkts same h)
          | inr new ↦ rw new (
              messages-cons (accept (cut symbols size pkt)) _ _
                (scan-accepted size bytes (bytes ∷ seen) pkts same h))
        ])
    where
      bytes : Bytes
      bytes = take size pkt.bytes

      not_short : ltb (length pkt.bits) symbols ≡ false
      not_short = ground arith

      copied : copy buffer pkt.bytes ≡ bytes
      copied = copy-take buffer pkt.bytes (omega arith) ∙ ap (λ n. take n pkt.bytes) e

      same : length bytes ≡ size
      same = omega (arith, length-take size pkt.bytes)
