-- ===== src/Lib.antt =====
-- rtlamr: receiving the radio messages of utility meters.
--
-- The program reads blocks of samples from a tuner, filters each block to one bit per sample,
-- searches the bits for the preambles of the registered protocols, cuts packets out of the signal,
-- and hands them to the parsers of their protocols. A parser checks a packet's code and reads its
-- fields; the receiver filters the messages, drops those that the block before had already given,
-- and encodes the others. The launcher rtlamrscan starts one such receiver for each dongle, reads its
-- rows, puts the position of a GPS receiver to them, writes them to files and counts them for a
-- dashboard.
--
-- Files of this library, and the code that each is about:
--   Crc            crc/crc.go: table, checksum. Crc/Linear, Serial, Residue and Detect hold the
--                  algebra: the table against the bit-serial register, residues, bursts.
--   Protocol       protocol/parse.go: packets (`new_data` is NewData), messages, digests, log
--                  records; Registry (RegisterParser, NewParser), Chain (FilterChain).
--   Protocol/Decoder
--                  protocol/decode.go: Config (NewDecoder, RegisterProtocol, Allocate,
--                  NextPowerOf2), Filter (NewMagLUT, Execute, Filter, the buffers of Decode),
--                  Search (Search, searchPassByte, searchPass), Slice (Slice), FanOut (Decode and
--                  the goroutines that it starts). Receive and FanOut/Blocks put them together for
--                  a list of parsers, and Air is about a packet's bytes in the samples.
--   Protocol/Scan  the loop of Parse that the parsers for SCM, SCM+, IDM and NetIDM share.
--   Scm, ScmPlus, Idm, NetIdm
--                  scm/scm.go, scmplus/scmplus.go, idm/idm.go, netidm/netidm.go: configuration,
--                  fields (NewSCM, NewIDM, NewNetIDM), records and headers, and the tests of
--                  Parse (`accept`). The children named Layout hold an encoder of the fields, from
--                  the bit positions alone, and Protocol/Sealed the two checks of IDM and NetIDM;
--                  Scm/Air goes from the samples to the message.
--   R900           r900/r900.go: Filter (filter), Symbols (digits, symbols, the check), Parse.
--   R900/Gf        r900/gf/gf.go: the finite field and the syndromes.
--   R900Bcd        r900bcd/r900bcd.go: the conversion of the consumption.
--   Csv            csv/csv.go: the encoder.
--   Receiver       main.go and flags.go: the loop of Run over the messages of a block, the filters,
--                  the values of flags; Registration (NewReceiver up to Allocate), Samples (the loop
--                  that reads a block and the buffer of samples). Single and Waiting are about
--                  -single, Order about the order in which messages arrive.
--   Rtlamrscan     cmd/rtlamrscan. Gps is gps.go: Nmea (nmeaChecksumOK, containsValidNMEA), Sentence
--                  (parseGGA, parseRMC, parseNMEACoord), Reader (handleSentence, current,
--                  statusSnapshot), Detect (detectGPSPort). Stats is stats.go: the collector,
--                  Snapshot (snapshot), Line (statsLine), with Columns (the map of column names) and
--                  Columns/R900 (the rows that Csv makes of R900 messages). Sink and Run are main.go:
--                  Sink/Lines (csvSink), Sink/Prefix (prefixWriter), Sink/Survey (surveyMapper),
--                  Run/Plan (freqPlan), Run/Dongles and Run/Instances (main up to the decoders), Run/Restart (runDecoder).
--   Base           numbers, lists and text that the others share; Base/Text reads and prints
--                  numbers the way strconv does.
-- The Tests modules hold runs of the definitions.
--
-- How the code is modelled. An integer is a natural number, and where the code's type is narrower
-- the remainder is written out; no difference that the code takes is negative at the lengths that
-- Allocate makes. A text or a slice of bytes is a list of numbers. `none` stands for a panic of the
-- code or for an error value, as the comment at the definition says. State that the code mutates is
-- passed along: the buffer that a parser copies packets into, the buffer that Slice packs bits into,
-- the maps of digests. A map of the code is an association list, or a list of its keys. Floats
-- are an interface, Protocol/Floats and Rtlamrscan/Doubles, of which only the range of a sign bit and the
-- lack of a comma in a printed number are assumed, so that what
-- is said of the filters holds however the arithmetic rounds. A message's Go type is its values:
-- what its methods return.
--
-- Loops are structural recursion. The loops of R900/Gf that divide a number by two, and the search
-- for a power of two, run on fuel: the number itself, which halving or doubling exhausts. A table
-- of 256 entries is built by counting. `Ceil(Log2(v))` is the least exponent of a power of two that
-- is at least v, which the floating-point functions give for the lengths of buffers.
--
-- A call of Parse is one step: the messages that it sends are a list in the order of sending. The
-- goroutines that Decode starts, one for each parser, are the queues of what they send, and
-- `Arrives` is the relation of the queues to each sequence in which the channel can hand them on; the
-- parsers have nothing else in common that they write. The receiver's loop is stated for any list of
-- messages. The maps that Go walks in any order, of preambles and of message types, are lists in any
-- order.
--
-- A time is a number of nanoseconds that the caller gives; the clock is monotonic. What the operating
-- system does is a function that the definitions take: the reads of a serial port at each rate, the
-- devices and ports that rtl_tcp comes up for, the files, programs and serial ports that can be
-- opened, the lines and the exit of each decoder process. A method under a lock is one step. prefixWriter's loop runs on the length of its buffer as fuel, of which a round
-- takes a newline away, and runDecoder's on its four attempts; both are proved to be enough. The loop
-- that fills a block has a round for each byte of it and one to see the end, which is proved too.
--
-- Not modelled: the client of rtl_tcp and the process (network, signals, flags of the tuner, logs),
-- the methods String (text for people), the JSON and XML encoders (libraries), and of rtlamrscan the
-- page and its server, the text of the run's description and the processes themselves; misc/.
mod Base
pub mod Crc
pub mod Protocol
pub mod Scm
pub mod ScmPlus
pub mod Idm
pub mod NetIdm
pub mod R900
pub mod R900Bcd
pub mod Receiver
pub mod Csv
pub mod Rtlamrscan
