-- ===== src/Receiver/Laws.antt =====
-- What the receiver encodes of the messages of its blocks.
use rtlamr.Base.{
  ℕ, List, [], ◌∷◌, ◌++◌, append_assoc, append-nil, Bool, true, false, not, ◌==◌, if◌then◌else◌,
  none, some, keep, Bool-cases, inl, inr, ◌≡◌, ◌≢◌, refl, sym, ap, ◌∙◌, ==_refl, ==_ne,
}
use rtlamr.Base.Text.{Bytes, bytes_eq, bytes_eq_iff}
use rtlamr.Protocol.{Message, Digest, new_digest}
use rtlamr.Protocol.Chain.{match_chain}
use rtlamr.Receiver.{
  Filters, Filter, last_of, unique_filter, run_filter, seen, Run, continue, after_encode,
  take_message, take_messages, end_block, run_block,
}

-- After a message passes the filter for duplicates, the same checksum from the same meter does not
-- pass, a different one passes, and what the filter knows of any other meter has not changed.
pub unique_filter-unique_filter :
    (msg again other : Message) (uf : List (ℕ × Bytes)) (mid : ℕ)
    → (unique_filter msg uf).0 ≡ true
    → again.meter_id ≡ msg.meter_id
    → again.checksum ≡ msg.checksum
    → other.meter_id ≡ msg.meter_id
    → other.checksum ≢ msg.checksum
    → mid ≢ msg.meter_id
    → (unique_filter again (unique_filter msg uf).1 ≡ (false, (unique_filter msg uf).1))
      × ((unique_filter other (unique_filter msg uf).1).0 ≡ true)
      × (last_of (unique_filter msg uf).1 mid ≡ last_of uf mid)
unfolding unique_filter last_of
unique_filter-unique_filter msg again other uf mid fresh id sum id' sum' ne =
    elim (Bool-cases (known msg uf)) [
      | inl e ↦ absurd (let no_pass : false ≡ true = sym (ap (λ b. (pick b).0) e) ∙ fresh in cc)
      | inr e ↦ rw (e, id, id', ==_refl msg.meter_id, same, differ, hidden) (refl, refl, refl)
    ]
  where
    pick : Bool → Bool × List (ℕ × Bytes)
    pick b = if b then (false, uf) else (true, (msg.meter_id, msg.checksum) ∷ uf)

    known : Message → List (ℕ × Bytes) → Bool
    known msg uf = elim (last_of uf msg.meter_id) [
      | none ↦ false
      | some sum ↦ bytes_eq sum msg.checksum
    ]

    same : bytes_eq msg.checksum again.checksum ≡ true
    same = (bytes_eq_iff msg.checksum again.checksum).1 (sym sum)

    differ : bytes_eq msg.checksum other.checksum ≡ false
    differ = elim (Bool-cases (bytes_eq msg.checksum other.checksum)) [
      | inl e ↦ absurd (sum' (sym ((bytes_eq_iff msg.checksum other.checksum).0 e)))
      | inr e ↦ e
    ]

    hidden : (msg.meter_id == mid) ≡ false
    hidden = ==_ne msg.meter_id mid (λ e. ne (sym e))

-- The messages that the chain of filters passes, with the filters' state passed along.
unfoldable pub passed : List Filter → List Message → Filters → List Message
passed chain [] fs = []
passed chain (msg ∷ msgs) fs =
    let (ok, fs') = match_chain run_filter chain msg fs in
    let rest = passed chain msgs fs' in if ok then msg ∷ rest else rest

-- Digests put on a list, the last message's first.
unfoldable pub rev_onto : List Message → List Digest → List Digest
rev_onto [] ds = ds
rev_onto (msg ∷ msgs) ds = rev_onto msgs (new_digest msg ∷ ds)

after_encode-off :
    (chain : List Filter) (encode : Message → Bool) (msg : Message) (r : Run)
    → after_encode chain false encode msg r ≡ continue r
unfolding after_encode
after_encode-off chain encode msg r = ids r.filters.ids refl
  where
    ids : (l : List ℕ) → r.filters.ids ≡ l → after_encode chain false encode msg r ≡ continue r
    ids [] e = rw e refl
    ids (k ∷ ks) e = rw e refl

module _ (chain : List Filter) (encode : Message → Bool)
    (works : (msg : Message) → encode msg ≡ true) where
  -- Without `-single`, a step continues, and does one of three things.
  take_message-step :
      (msg : Message) (r : Run) (ok : Bool) (fs : Filters)
      → match_chain run_filter chain msg r.filters ≡ (ok, fs)
      → take_message chain false encode msg r ≡ (
          if ok
          then (if seen r.prev (new_digest msg)
              then continue (record {
                filters = fs;
                prev = r.prev;
                next = new_digest msg ∷ r.next;
                found = r.found;
                encoded = r.encoded;
              })
              else continue (record {
                filters = fs;
                prev = r.prev;
                next = new_digest msg ∷ r.next;
                found = true;
                encoded = r.encoded ++ msg ∷ [];
              }))
          else continue (record {
            filters = fs;
            prev = r.prev;
            next = r.next;
            found = r.found;
            encoded = r.encoded;
          }))
  unfolding take_message
  take_message-step msg r false fs e = rw e refl
  take_message-step msg r true fs e = rw (e, works msg, after_encode-off chain encode msg) refl

  next_step :
      (msg : Message) (msgs : List Message) (r r1 : Run)
      → take_message chain false encode msg r ≡ continue r1
      → take_messages chain false encode (msg ∷ msgs) r ≡ take_messages chain false encode msgs r1
  unfolding take_messages
  next_step msg msgs r r1 h = rw (take_messages, h) refl

  take_messages-passed :
      (msgs : List Message) (r : Run)
      → (r' : Run) × (take_messages chain false encode msgs r ≡ continue r')
        × (r'.encoded
            ≡ r.encoded
              ++ keep (λ msg. not (seen r.prev (new_digest msg))) (passed chain msgs r.filters))
        × (r'.next ≡ rev_onto (passed chain msgs r.filters) r.next)
        × (r'.prev ≡ r.prev)
  unfolding take_messages passed rev_onto
  take_messages-passed [] r = (r, refl, sym (append-nil r.encoded), refl, refl)
  take_messages-passed (msg ∷ msgs) r =
      let fs : Filters = (match_chain run_filter chain msg r.filters).1 in
      elim (Bool-cases ((match_chain run_filter chain msg r.filters).0)) [
        | inr e ↦
            let (r', runs, enc, next, prev) = take_messages-passed msgs (record {
              filters = fs;
              prev = r.prev;
              next = r.next;
              found = r.found;
              encoded = r.encoded;
            }) in
            (
              r',
              next_step msg msgs r _ (
                    rw
                      (
                        take_message-step msg r ((match_chain run_filter chain msg r.filters).0) fs
                            refl,
                        e,
                      )
                      refl)
                  ∙ runs,
              rw e enc,
              rw e next,
              prev,
            )
        | inl e ↦ elim (Bool-cases (seen r.prev (new_digest msg))) [
          | inl old ↦
              let (r', runs, enc, next, prev) = take_messages-passed msgs (record {
                filters = fs;
                prev = r.prev;
                next = new_digest msg ∷ r.next;
                found = r.found;
                encoded = r.encoded;
              }) in
              (
                r',
                next_step msg msgs r _ (
                      rw
                        (
                          take_message-step msg r ((match_chain run_filter chain msg r.filters).0)
                              fs refl,
                          e,
                          old,
                        )
                        refl)
                    ∙ runs,
                rw (e, old) enc,
                rw e next,
                prev,
              )
          | inr new ↦
              let (r', runs, enc, next, prev) = take_messages-passed msgs (record {
                filters = fs;
                prev = r.prev;
                next = new_digest msg ∷ r.next;
                found = true;
                encoded = r.encoded ++ msg ∷ [];
              }) in
              (
                r',
                next_step msg msgs r _ (
                      rw
                        (
                          take_message-step msg r ((match_chain run_filter chain msg r.filters).0)
                              fs refl,
                          e,
                          new,
                        )
                        refl)
                    ∙ runs,
                rw (e, new) (enc ∙ append_assoc r.encoded (msg ∷ []) _),
                rw e next,
                prev,
              )
        ]
      ]

  -- Without `-single`, and with an encoder that does not fail, a block goes on to the next one; it
  -- encodes, in order, exactly the messages that the chain of filters passes and whose digests were
  -- not among those of the block before, and hands the digests of all that passed to the block
  -- after it.
  pub run_block-passed :
      (msgs : List Message) (r : Run)
      → (r' : Run) × (run_block chain false encode msgs r ≡ continue r')
        × (r'.encoded
            ≡ r.encoded
              ++ keep (λ msg. not (seen r.prev (new_digest msg))) (passed chain msgs r.filters))
        × (r'.prev ≡ rev_onto (passed chain msgs r.filters) [])
  unfolding run_block end_block
  run_block-passed msgs r =
      let (r', runs, enc, next, prev) = take_messages-passed msgs (record {
        filters = r.filters;
        prev = r.prev;
        next = [];
        found = false;
        encoded = r.encoded;
      }) in
      (
        record {
          filters = r'.filters;
          prev = r'.next;
          next = r'.prev;
          found = r'.found;
          encoded = r'.encoded;
        },
        rw (run_block, runs) (ends r'),
        enc,
        next,
      )
    where
      ends :
          (r : Run)
          → end_block chain false encode r
            ≡ continue (record {
              filters = r.filters;
              prev = r.next;
              next = r.prev;
              found = r.found;
              encoded = r.encoded;
            })
      ends r = go r.found refl
        where
          go :
              (b : Bool)
              → r.found ≡ b
              → end_block chain false encode r
                ≡ continue (record {
                  filters = r.filters;
                  prev = r.next;
                  next = r.prev;
                  found = r.found;
                  encoded = r.encoded;
                })
          go true e = simp (end_block, e) refl
          go false e = simp (end_block, e) refl
