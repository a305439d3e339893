-- ===== src/Receiver.antt =====
-- main.go and the filters of flags.go: what the receiver does with the messages of each block.
pub mod Flags
pub mod Laws
pub mod Single
pub mod Order
pub mod Registration
pub mod Samples
pub mod Waiting
pub mod Tests
use rtlamr.Base.{
  ℕ, List, [], ◌∷◌, ◌++◌, Bool, true, false, not, ◌&&◌, ◌==◌, if◌then◌else◌, Option, none, some,
  keep,
}
use rtlamr.Base.Text.{Bytes, bytes_eq}
use rtlamr.Protocol.{Message, Digest, new_digest, digest_eq}
use rtlamr.Protocol.Chain.{match_chain}

-- The maps behind the flags: ids and types to keep, and the last checksum of each meter.
pub record Filters : Type 0 where
  pub ids : List ℕ
  pub types : List ℕ
  pub last : List (ℕ × Bytes)

pub data Filter : Type 0 where
  by_id : Filter
  by_type : Filter
  unique : Filter

unfoldable pub has : List ℕ → ℕ → Bool
has [] n = false
has (k ∷ ks) n = let rest = has ks n in if k == n then true else rest

-- `uf[mid]`.
unfoldable pub last_of : List (ℕ × Bytes) → ℕ → Option Bytes
last_of [] mid = none
last_of ((k, sum) ∷ m) mid = let rest = last_of m mid in if k == mid then some sum else rest

-- `UniqueFilter.Filter`. A new entry hides an older one of its meter.
unfoldable pub unique_filter : Message → List (ℕ × Bytes) → Bool × List (ℕ × Bytes)
unique_filter msg uf =
    let known : Bool = elim (last_of uf msg.meter_id) [
      | none ↦ false
      | some sum ↦ bytes_eq sum msg.checksum
    ] in
    if known then (false, uf) else (true, (msg.meter_id, msg.checksum) ∷ uf)

-- The `Filter` methods.
unfoldable pub run_filter : Filter → Message → Filters → Bool × Filters
run_filter by_id msg fs = (has fs.ids msg.meter_id, fs)
run_filter by_type msg fs = (has fs.types msg.meter_type, fs)
run_filter unique msg fs =
    let (passed, last) = unique_filter msg fs.last in
    (passed, record { ids = fs.ids; types = fs.types; last = last })

-- Membership in a map of digests.
unfoldable pub seen : List Digest → Digest → Bool
seen [] d = false
seen (k ∷ ks) d = let rest = seen ks d in if digest_eq k d then true else rest

abbrev pub is_nil : List ℕ → Bool
is_nil [] = true
is_nil (k ∷ ks) = false

-- What `Run` keeps between blocks, and the messages that it has encoded, in order.
pub record Run : Type 0 where
  pub filters : Filters
  pub prev : List Digest
  pub next : List Digest
  pub found : Bool
  pub encoded : List Message

-- How the loop over the messages of a block goes on. An error of the encoder cancels the receiver.
pub data Step : Type 0 where
  continue : Run → Step
  break : Run → Step
  cancel : Run → Step

module _ (chain : List Filter) (single : Bool) (encode : Message → Bool) where
  -- What follows an encoded message: with `-single` the loop ends, or the meter's id is deleted.
  unfoldable pub after_encode : Message → Run → Step
  after_encode msg r = elim r.filters.ids [
    | [] ↦ if single then break r else continue r
    | k ∷ ks ↦
        if single
        then continue (record r {
          filters = record {
            ids = keep (λ n. not (n == msg.meter_id)) r.filters.ids;
            types = r.filters.types;
            last = r.filters.last;
          };
        })
        else continue r
  ]

  -- The body of the loop over the messages of a block.
  unfoldable pub take_message : Message → Run → Step
  take_message msg r =
      let (passed, filters) = match_chain run_filter chain msg r.filters in
      let digest = new_digest msg in
      let marked : Run = record {
        filters = filters;
        prev = r.prev;
        next = digest ∷ r.next;
        found = r.found;
        encoded = r.encoded;
      } in
      if passed
      then (if seen r.prev digest
          then continue marked
          else if encode msg
          then after_encode msg (record marked { found = true; encoded = r.encoded ++ msg ∷ [] })
          else cancel marked)
      else continue (record r { filters = filters })

  unfoldable pub take_messages : List Message → Run → Step
  take_messages [] r = continue r
  take_messages (msg ∷ msgs) r = elim (take_message msg r) [
    | continue r' ↦ take_messages msgs r'
    | break r' ↦ break r'
    | cancel r' ↦ cancel r'
  ]

  -- The end of a block: with `-single` and no id left the receiver stops; otherwise the maps of
  -- digests change places.
  unfoldable pub end_block : Run → Step
  end_block r =
      if r.found && (single && is_nil r.filters.ids)
      then cancel r
      else continue (record {
        filters = r.filters;
        prev = r.next;
        next = r.prev;
        found = r.found;
        encoded = r.encoded;
      })

  -- One block, from clearing the map of the next digests on.
  unfoldable pub run_block : List Message → Run → Step
  run_block msgs r = elim (take_messages msgs (record r { next = []; found = false })) [
    | continue r' ↦ end_block r'
    | break r' ↦ end_block r'
    | cancel r' ↦ cancel r'
  ]

  unfoldable pub run_blocks : List (List Message) → Run → Step
  run_blocks [] r = continue r
  run_blocks (msgs ∷ blocks) r = elim (run_block msgs r) [
    | continue r' ↦ run_blocks blocks r'
    | break r' ↦ break r'
    | cancel r' ↦ cancel r'
  ]
