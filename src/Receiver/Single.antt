-- ===== src/Receiver/Single.antt =====
-- The receiver with `-single` and no ids to wait for.
use rtlamr.Base.{
  List, [], ◌∷◌, ◌++◌, Bool, true, false, if◌then◌else◌, Bool-cases, inl, inr, ◌⊎◌, ◌≡◌, refl, ap,
  ◌∙◌,
}
use rtlamr.Protocol.{Message, new_digest}
use rtlamr.Protocol.Chain.{match_chain}
use rtlamr.Receiver.{
  Filters, Filter, by_id, by_type, unique, run_filter, seen, Run, continue, break, cancel,
  after_encode, take_message, take_messages, end_block, run_block,
}

run_filter-ids : (f : Filter) (msg : Message) (fs : Filters) → (run_filter f msg fs).1.ids ≡ fs.ids
unfolding run_filter
run_filter-ids by_id msg fs = refl
run_filter-ids by_type msg fs = refl
run_filter-ids unique msg fs = refl

pub match_chain-ids :
    (chain : List Filter) (msg : Message) (fs : Filters)
    → (match_chain run_filter chain msg fs).1.ids ≡ fs.ids
unfolding match_chain
match_chain-ids [] msg fs = refl
match_chain-ids (f ∷ chain) msg fs = elim (Bool-cases ((run_filter f msg fs).0)) [
  | inl e ↦ rw e (match_chain-ids chain msg (run_filter f msg fs).1 ∙ run_filter-ids f msg fs)
  | inr e ↦ rw e (run_filter-ids f msg fs)
]

module _ (chain : List Filter) (encode : Message → Bool)
    (works : (msg : Message) → encode msg ≡ true) where
  -- What the loop over the messages comes to from a state on.
  Ends : List Message → Run → Type 0
  Ends msgs r =
      ((r' : Run) × (take_messages chain true encode msgs r ≡ continue r')
        × (r'.encoded ≡ r.encoded)
        × (r'.found ≡ r.found))
      ⊎ ((msg : Message) × (r' : Run) × (take_messages chain true encode msgs r ≡ break r')
          × (r'.encoded ≡ r.encoded ++ msg ∷ [])
          × (r'.found ≡ true)
          × (r'.filters.ids ≡ []))

  step_single :
      (msg : Message) (r : Run) (ok : Bool) (fs : Filters)
      → match_chain run_filter chain msg r.filters ≡ (ok, fs)
      → fs.ids ≡ []
      → take_message chain true encode msg r ≡ (
          if ok
          then (if seen r.prev (new_digest msg)
              then continue (record {
                filters = fs;
                prev = r.prev;
                next = new_digest msg ∷ r.next;
                found = r.found;
                encoded = r.encoded;
              })
              else break (record {
                filters = fs;
                prev = r.prev;
                next = new_digest msg ∷ r.next;
                found = true;
                encoded = r.encoded ++ msg ∷ [];
              }))
          else continue (record {
            filters = fs;
            prev = r.prev;
            next = r.next;
            found = r.found;
            encoded = r.encoded;
          }))
  unfolding take_message after_encode
  step_single msg r false fs e none_left = rw e refl
  step_single msg r true fs e none_left = simp (e, works msg, after_encode, none_left) refl

  continued :
      (msg : Message) (msgs : List Message) (r r1 : Run)
      → take_message chain true encode msg r ≡ continue r1
      → r1.encoded ≡ r.encoded
      → r1.found ≡ r.found
      → Ends msgs r1
      → Ends (msg ∷ msgs) r
  unfolding Ends take_messages
  continued msg msgs r r1 h same found ends = elim ends [
    | inl (r', runs, enc, f) ↦ inl (r', next ∙ runs, enc ∙ same, f ∙ found)
    | inr (m, r', runs, enc, f, ids) ↦
        inr (m, r', next ∙ runs, enc ∙ ap (λ l. l ++ m ∷ []) same, f, ids)
  ]
    where
      next :
          take_messages chain true encode (msg ∷ msgs) r ≡ take_messages chain true encode msgs r1
      next = rw (take_messages, h) refl

  stopped :
      (msg : Message) (msgs : List Message) (r r1 : Run)
      → take_message chain true encode msg r ≡ break r1
      → take_messages chain true encode (msg ∷ msgs) r ≡ break r1
  unfolding take_messages
  stopped msg msgs r r1 h = rw (take_messages, h) refl

  ends_lem : (msgs : List Message) (r : Run) → r.filters.ids ≡ [] → Ends msgs r
  unfolding Ends take_messages
  ends_lem [] r left = inl (r, refl, refl, refl)
  ends_lem (msg ∷ msgs) r left =
      let m = match_chain run_filter chain msg r.filters in
      let fs : Filters = m.1 in
      let fs_left : fs.ids ≡ [] = match_chain-ids chain msg r.filters ∙ left in
      elim (Bool-cases (m.0)) [
        | inr e ↦
            let r1 : Run = record {
              filters = fs;
              prev = r.prev;
              next = r.next;
              found = r.found;
              encoded = r.encoded;
            } in
            continued msg msgs r r1 (rw (step_single msg r (m.0) fs refl fs_left, e) refl) refl refl
              (ends_lem msgs r1 fs_left)
        | inl e ↦ elim (Bool-cases (seen r.prev (new_digest msg))) [
          | inl old ↦
              let r1 : Run = record {
                filters = fs;
                prev = r.prev;
                next = new_digest msg ∷ r.next;
                found = r.found;
                encoded = r.encoded;
              } in
              continued msg msgs r r1 (rw (step_single msg r (m.0) fs refl fs_left, e, old) refl)
                refl refl (ends_lem msgs r1 fs_left)
          | inr new ↦ inr (
            msg,
            record {
              filters = fs;
              prev = r.prev;
              next = new_digest msg ∷ r.next;
              found = true;
              encoded = r.encoded ++ msg ∷ [];
            },
            stopped msg msgs r _ (rw (step_single msg r (m.0) fs refl fs_left, e, new) refl),
            refl,
            refl,
            fs_left,
          )
        ]
      ]

  -- With `-single` and no ids to wait for, and an encoder that does not fail, a block either encodes
  -- nothing and goes on to the next one, or encodes one message and stops the receiver.
  pub run_block-single :
      (msgs : List Message) (r : Run)
      → r.filters.ids ≡ []
      → ((r' : Run) × (run_block chain true encode msgs r ≡ continue r') × (r'.encoded ≡ r.encoded))
        ⊎ ((msg : Message) × (r' : Run) × (run_block chain true encode msgs r ≡ cancel r')
            × (r'.encoded ≡ r.encoded ++ msg ∷ []))
  unfolding Ends run_block end_block
  run_block-single msgs r left = elim (ends_lem msgs start left) [
    | inl (r', runs, enc, f) ↦ inl (
      record {
        filters = r'.filters;
        prev = r'.next;
        next = r'.prev;
        found = r'.found;
        encoded = r'.encoded;
      },
      rw (run_block, runs) (goes_on r' f),
      enc,
    )
    | inr (msg, r', runs, enc, f, ids) ↦ inr (msg, r', rw (run_block, runs) (stops r' f ids), enc)
  ]
    where
      start : Run
      start = record {
        filters = r.filters;
        prev = r.prev;
        next = [];
        found = false;
        encoded = r.encoded;
      }

      goes_on :
          (r : Run)
          → r.found ≡ false
          → end_block chain true encode r
            ≡ continue (record {
              filters = r.filters;
              prev = r.next;
              next = r.prev;
              found = r.found;
              encoded = r.encoded;
            })
      goes_on r e = simp (end_block, e) refl

      stops :
          (r : Run) → r.found ≡ true → r.filters.ids ≡ [] → end_block chain true encode r ≡ cancel r
      stops r e ids = simp (end_block, e, ids) refl
