-- ===== src/Protocol/Decoder/FanOut.antt =====
-- The loop of `Decode` over the preambles and their parsers, and the orders in which the messages of
-- its goroutines can arrive on the channel.
pub mod Arrivals
pub mod Found
pub mod Blocks
pub mod Tests
use rtlamr.Base.{
  ℕ, suc, ◌+◌, List, [], ◌∷◌, ◌++◌, replicate, Option, none, some, ◌>>=◌, flatten, ◌≡◌,
}
use rtlamr.Base.Text.{Bytes}
use rtlamr.Protocol.{Data, Message}
use rtlamr.Protocol.Config.{PacketConfig}
use rtlamr.Protocol.Decoder.Config.{Decoder}
use rtlamr.Protocol.Decoder.Filter.{Buffers, decode_block}
use rtlamr.Protocol.Decoder.Search.{search}
use rtlamr.Protocol.Decoder.Slice.{slice_packets}
use rtlamr.Protocol.Floats.{Floats}

-- `Parse` of a parser: what it sends, in its order, and the parser after the call; `none` is a panic.
module _ {P : Type 0} (parse : P → List Data → Option (List Message × P)) where
  -- The goroutines of one preamble: a queue of messages for each parser.
  unfoldable pub parse_all : List P → List Data → Option (List (List Message) × List P)
  parse_all [] pkts = some ([], [])
  parse_all (p ∷ ps) pkts = do
    (msgs, p') ← parse p pkts
    (queues, ps') ← parse_all ps pkts
    some (msgs ∷ queues, p' ∷ ps')

  -- The loop over the preambles, with the list of indices that the last `Search` left and the packet
  -- that `Slice` fills.
  unfoldable pub fan_out :
      PacketConfig
      → List ℕ
      → ℕ
      → List (Bytes × List P)
      → List ℕ
      → Bytes
      → Option (List (List Message) × List (Bytes × List P) × Bytes)
  fan_out cfg quantized packed_len [] stale pkt = some ([], [], pkt)
  fan_out cfg quantized packed_len ((preamble, ps) ∷ preambles) stale pkt = do
    indices ← search cfg quantized packed_len stale preamble
    (pkts, pkt') ← slice_packets cfg quantized indices pkt
    (queues, ps') ← parse_all ps pkts
    (more, rest, last) ← fan_out cfg quantized packed_len preambles indices pkt'
    some (queues ++ more, (preamble, ps') ∷ rest, last)

-- What a decoder keeps between blocks: its buffers, its parsers under their preambles and the last
-- packet. `Decode` works on a copy of the decoder, so that its lists of indices begin empty again.
pub record Decoding (fl : Floats) (P : Type 0) : Type 0 where
  pub buffers : Buffers fl
  pub preambles : List (Bytes × List P)
  pub pkt : Bytes

-- What `Allocate` leaves in a decoder for its first block.
unfoldable pub new_decoding : (fl : Floats) {P : Type 0} → Decoder P → Decoding fl P
new_decoding fl d =
    let size : ℕ = d.cfg.block_size + d.cfg.symbol_length in
    record {
      buffers = record {
        signal = replicate size fl.zero_f;
        csum = replicate (suc size) fl.zero_f;
        quantized = d.quantized;
      };
      preambles = d.preambles;
      pkt = d.pkt;
    }

-- `Decode`: the queues that its goroutines send, and the decoder after them. The order of
-- `preambles` stands for the order in which Go walks the map. A parser may read the decoder's signal.
unfoldable pub decode :
    (fl : Floats) {P : Type 0} (parse : List fl.F → P → List Data → Option (List Message × P))
    → PacketConfig
    → ℕ
    → List fl.F
    → Bytes
    → Decoding fl P
    → Option (List (List Message) × Decoding fl P)
decode fl parse cfg packed_len lut input d = do
  buffers ← decode_block fl cfg lut input d.buffers
  (queues, preambles, pkt) ←
      fan_out (parse buffers.signal) cfg buffers.quantized packed_len d.preambles [] d.pkt
  some (queues, record { buffers = buffers; preambles = preambles; pkt = pkt })

-- The decoder's calls on one block after the other.
unfoldable pub decode_all :
    (fl : Floats) {P : Type 0} (parse : List fl.F → P → List Data → Option (List Message × P))
    → PacketConfig
    → ℕ
    → List fl.F
    → List Bytes
    → Decoding fl P
    → Option (List (List (List Message)) × Decoding fl P)
decode_all fl parse cfg packed_len lut [] d = some ([], d)
decode_all fl parse cfg packed_len lut (input ∷ inputs) d = do
  (queues, d') ← decode fl parse cfg packed_len lut input d
  (more, last) ← decode_all fl parse cfg packed_len lut inputs d'
  some (queues ∷ more, last)

-- The queues of messages become the sequence that the channel hands on: each message is taken from
-- the front of some queue, until all are empty.
pub data Arrives {M : Type 0} : List (List M) → List M → Type 0 where
  all_sent : {queues : List (List M)} → flatten queues ≡ [] → Arrives queues []
  sends :
      {queues : List (List M)} {msg : M} {msgs : List M} (before : List (List M)) (queue : List M)
      (after : List (List M))
      → queues ≡ before ++ (msg ∷ queue) ∷ after
      → Arrives (before ++ queue ∷ after) msgs
      → Arrives queues (msg ∷ msgs)
