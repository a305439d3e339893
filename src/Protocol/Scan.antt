-- ===== src/Protocol/Scan.antt =====
-- The loop that the parsers for SCM, SCM+, IDM and NetIDM share: each packet is cut to the
-- parser's length and copied into the parser's buffer, one that was seen before is skipped, and
-- what the parser accepts is sent.
pub mod Spec
pub mod Repeat
pub mod Among
use rtlamr.Base.{
  ℕ, ◌≤◌, List, [], ◌∷◌, ◌++◌, Bool, true, false, Option, none, some, ◌≡◌, refl, arith, ltb,
  if◌then◌else◌, length, take, copy, All,
}
use rtlamr.Base.Text.{Bytes, member, bytes_eq}
use rtlamr.Protocol.{Data, Message}

-- What a call of `Parse` leaves and sends: the buffer `p.data.Bytes`, which the calls share, and
-- the messages in the order of sending.
pub record Sent : Type 0 where
  pub buffer : Bytes
  pub messages : List Message

-- `msgCh <- m` for an accepted message, in front of what the rest of the loop sends.
unfoldable pub cons_message : Option Message → Option Sent → Option Sent
cons_message none r = r
cons_message (some m) none = none
cons_message (some m) (some r) = some (record r { messages = m ∷ r.messages })

module _ (symbols : ℕ) (accept : Data → Option Message) where
  -- `none` is the panic of `pkt.Bits[0:symbols]` on a packet with fewer bits.
  unfoldable pub scan : Bytes → List Bytes → List Data → Option Sent
  scan buffer seen [] = some (record { buffer = buffer; messages = [] })
  scan buffer seen (pkt ∷ pkts) =
      let bytes = copy buffer pkt.bytes in
      let data' : Data = record { idx = pkt.idx; bits = take symbols pkt.bits; bytes = bytes } in
      let skip = scan bytes seen pkts in
      let go = cons_message (accept data') (scan bytes (bytes ∷ seen) pkts) in
      if ltb (length pkt.bits) symbols then none else if member bytes seen then skip else go
