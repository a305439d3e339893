-- ===== src/Receiver/Waiting.antt =====
-- The receiver with `-single` and ids to wait for.
use rtlamr.Base.{
  ℕ, List, [], ◌∷◌, ◌++◌, Bool, true, false, not, ◌&&◌, ◌||◌, ◌==◌, keep, Bool-cases, inl, inr, ◌≡◌,
  refl, sym, ap, ◌∙◌, arith,
}
use rtlamr.Protocol.{Message, new_digest}
use rtlamr.Protocol.Chain.{match_chain}
use rtlamr.Receiver.{
  Filter, has, is_nil, run_filter, seen, Run, Step, continue, break, cancel, after_encode,
  take_message, take_messages, end_block, run_block, run_blocks,
}
use rtlamr.Receiver.Single.{match_chain-ids}

-- Whether a message of a meter is among some.
abbrev pub heard : List Message → ℕ → Bool
heard [] id = false
heard (msg ∷ msgs) id = (msg.meter_id == id) || heard msgs id

heard-append :
    (msgs : List Message) (msg : Message) (id : ℕ)
    → heard (msgs ++ msg ∷ []) id ≡ heard msgs id || (msg.meter_id == id)
heard-append [] msg id = ground arith
heard-append (m ∷ msgs) msg id = ground (arith, heard-append msgs msg id)

has-keep :
    (ids : List ℕ) (mid id : ℕ)
    → has (keep (λ n. not (n == mid)) ids) id ≡ has ids id && not (mid == id)
unfolding has
has-keep [] mid id = refl
has-keep (k ∷ ids) mid id = ground (arith, has-keep ids mid id)

-- A meter that is waited for, or has been heard.
abbrev settled : List ℕ → List Message → ℕ → Bool
settled ids encoded id = has ids id || heard encoded id

-- No meter gets lost.
abbrev Kept : List ℕ → List Message → List ℕ → List Message → Type 0
Kept ids encoded ids' encoded' =
    (id : ℕ) → settled ids encoded id ≡ true → settled ids' encoded' id ≡ true

abbrev Keeps : Run → Run → Type 0
Keeps r r' = Kept r.filters.ids r.encoded r'.filters.ids r'.encoded

abbrev run_of : Step → Run
run_of (continue r) = r
run_of (break r) = r
run_of (cancel r) = r

abbrev goes_on : Step → Bool
goes_on (cancel r) = false
goes_on (continue r) = true
goes_on (break r) = true

nil_of : (found : Bool) (ids : List ℕ) → found && is_nil ids ≡ true → ids ≡ []
nil_of true [] h = refl
nil_of true (k ∷ ks) h = absurd (cc)
nil_of false ids h = absurd (cc)

keeps_same :
    (ids ids' : List ℕ) (encoded : List Message) → ids' ≡ ids → Kept ids encoded ids' encoded
keeps_same ids ids' encoded e id h = rw e h

keeps_more :
    (msg : Message) (ids ids' : List ℕ) (encoded encoded' : List Message)
    → ids' ≡ ids
    → encoded' ≡ encoded ++ msg ∷ []
    → Kept ids encoded ids' encoded'
keeps_more msg ids ids' encoded encoded' e more id h =
    rw (e, more, heard-append encoded msg id) (ground arith)

keeps_delete :
    (msg : Message) (ids ids' : List ℕ) (encoded encoded' : List Message)
    → ids' ≡ keep (λ n. not (n == msg.meter_id)) ids
    → encoded' ≡ encoded ++ msg ∷ []
    → Kept ids encoded ids' encoded'
keeps_delete msg ids ids' encoded encoded' e more id h =
    rw (e, more, heard-append encoded msg id, has-keep ids msg.meter_id id) (ground arith)

module _ (chain : List Filter) (encode : Message → Bool)
    (works : (msg : Message) → encode msg ≡ true) where
  -- A step that does not stop for an error, and what it keeps.
  Good : Run → Step → Type 0
  Good r s = Keeps r (run_of s) × (goes_on s ≡ true)

  after_encode-Good :
      (msg : Message) (r r' : Run)
      → r'.filters.ids ≡ r.filters.ids
      → r'.encoded ≡ r.encoded ++ msg ∷ []
      → Good r (after_encode chain true encode msg r')
  unfolding after_encode Good
  after_encode-Good msg r r' ids enc = go r'.filters.ids refl
    where
      go : (l : List ℕ) → r'.filters.ids ≡ l → Good r (after_encode chain true encode msg r')
      go [] e = rw (after_encode, e) (keeps_more msg _ _ _ _ ids enc, refl)
      go (k ∷ ks) e =
          rw (after_encode, e)
            (keeps_delete msg _ _ _ _ (ap (keep (λ n. not (n == msg.meter_id))) ids) enc, refl)

  take_message-Good : (msg : Message) (r : Run) → Good r (take_message chain true encode msg r)
  unfolding take_message Good
  take_message-Good msg r =
      let same = match_chain-ids chain msg r.filters in
      elim (Bool-cases ((match_chain run_filter chain msg r.filters).0)) [
        | inr e ↦ rw (take_message, e) (keeps_same _ _ _ same, refl)
        | inl e ↦ elim (Bool-cases (seen r.prev (new_digest msg))) [
          | inl old ↦ rw (take_message, e, old) (keeps_same _ _ _ same, refl)
          | inr new ↦ rw (take_message, e, new, works msg) (after_encode-Good msg r _ same refl)
        ]
      ]

  take_messages-Good :
      (msgs : List Message) (r : Run) → Good r (take_messages chain true encode msgs r)
  unfolding take_messages Good
  take_messages-Good [] r = (λ id h. h, refl)
  take_messages-Good (msg ∷ msgs) r =
      go (take_message chain true encode msg r) refl (take_message-Good msg r)
        (λ r'. take_messages-Good msgs r')
    where
      go :
          (s : Step)
          → take_message chain true encode msg r ≡ s
          → Good r s
          → ((r' : Run) → Good r' (take_messages chain true encode msgs r'))
          → Good r (take_messages chain true encode (msg ∷ msgs) r)
      go (continue r') e (kept, on) rest =
          rw (take_messages, e) (λ id h. (rest r').0 id (kept id h), (rest r').1)
      go (break r') e good rest = rw (take_messages, e) good
      go (cancel r') e (kept, on) rest = absurd (cc)

  -- What a block comes to: it goes on, or it stops with no id left.
  Ends : Run → Step → Type 0
  Ends r s = Keeps r (run_of s) × ((r' : Run) → s ≡ cancel r' → r'.filters.ids ≡ [])

  end_block-Ends : (r : Run) → Ends r (end_block chain true encode r)
  unfolding end_block Ends
  end_block-Ends r = elim (Bool-cases (r.found && is_nil r.filters.ids)) [
    | inl stop ↦
        rw (end_block, stop)
          (
            keeps_same _ _ _ refl,
            λ r' e.
                ap (λ (s : Step). (run_of s).filters.ids) (sym e)
                ∙ nil_of r.found r.filters.ids stop,
          )
    | inr on ↦ rw (end_block, on) (keeps_same _ _ _ refl, λ r' e. absurd (cc))
  ]

  run_block-Ends : (msgs : List Message) (r : Run) → Ends r (run_block chain true encode msgs r)
  unfolding run_block Ends Good
  run_block-Ends msgs r =
      go (take_messages chain true encode msgs start) refl (take_messages-Good msgs start)
    where
      start : Run
      start = record {
        filters = r.filters;
        prev = r.prev;
        next = [];
        found = false;
        encoded = r.encoded;
      }

      end_after : (r1 : Run) → Keeps r r1 → Ends r (end_block chain true encode r1)
      end_after r1 kept =
          let e : Ends r1 (end_block chain true encode r1) = end_block-Ends r1 in
          (λ id h. e.0 id (kept id h), e.1)

      go :
          (s : Step)
          → take_messages chain true encode msgs start ≡ s
          → Good start s
          → Ends r (run_block chain true encode msgs r)
      go (continue r1) e (kept, on) = rw (run_block, e) (end_after r1 kept)
      go (break r1) e (kept, on) = rw (run_block, e) (end_after r1 kept)
      go (cancel r1) e (kept, on) = absurd (cc)

  run_blocks-Ends :
      (blocks : List (List Message)) (r : Run) → Ends r (run_blocks chain true encode blocks r)
  unfolding run_blocks Ends
  run_blocks-Ends [] r = (λ id h. h, λ r' e. absurd (cc))
  run_blocks-Ends (msgs ∷ blocks) r =
      go (run_block chain true encode msgs r) refl (run_block-Ends msgs r)
        (λ r'. run_blocks-Ends blocks r')
    where
      go :
          (s : Step)
          → run_block chain true encode msgs r ≡ s
          → Ends r s
          → ((r' : Run) → Ends r' (run_blocks chain true encode blocks r'))
          → Ends r (run_blocks chain true encode (msgs ∷ blocks) r)
      go (continue r1) e (kept, stops) rest =
          rw (run_blocks, e) (λ id h. (rest r1).0 id (kept id h), (rest r1).1)
      go (break r1) e ends rest = rw (run_blocks, e) ends
      go (cancel r1) e ends rest = rw (run_blocks, e) ends

  -- With -single and an encoder that does not fail, the receiver stops for good only when every meter
  -- that it was started to wait for has a message among the encoded ones.
  pub run_blocks-heard :
      (blocks : List (List Message)) (r r' : Run) (id : ℕ)
      → run_blocks chain true encode blocks r ≡ cancel r'
      → has r.filters.ids id ≡ true
      → heard r'.encoded id ≡ true
  unfolding Ends
  run_blocks-heard blocks r r' id stopped waited =
      let ends : Ends r (run_blocks chain true encode blocks r) = run_blocks-Ends blocks r in
      let none_left : r'.filters.ids ≡ [] = ends.1 r' stopped in
      let kept : settled r'.filters.ids r'.encoded id ≡ true =
        ap (λ (s : Step). settled (run_of s).filters.ids (run_of s).encoded id) (sym stopped)
        ∙ ends.0 id (ground arith) in
      unfold has in rw none_left at kept
