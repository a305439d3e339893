-- ===== src/Receiver/Order.antt =====
-- The receiver does not depend on the order in which the parsers' goroutines send.
use mathlib.Core.List.{Permᴰ}
use mathlib.Core.List.Permᴰ
use rtlamr.Base.{
  List, [], ◌∷◌, ◌++◌, Bool, true, false, not, if◌then◌else◌, keep, All, Bool-cases, inl, inr, ◌≡◌,
  ◌⊎◌, refl, sym, ap, ◌∙◌, arith,
}
use rtlamr.Base.Sort.{perm-keep}
use rtlamr.Protocol.{Message, Digest, new_digest, digest_eq}
use rtlamr.Protocol.Chain.{match_chain}
use rtlamr.Protocol.Decoder.FanOut.{Arrives}
use rtlamr.Protocol.Decoder.FanOut.Arrivals.{Arrives-perm}
use rtlamr.Receiver.{
  Filters, Filter, by_id, by_type, has, run_filter, seen, Run, continue, run_block,
}
use rtlamr.Receiver.Laws.{passed, rev_onto, run_block-passed}

-- A chain without the filter for duplicates.
abbrev pub IsStateless : List Filter → Type 0
IsStateless = All (λ f. (f ≡ by_id) ⊎ (f ≡ by_type))

-- What such a chain passes.
abbrev admits : List Filter → Filters → Message → Bool
admits chain fs msg = (match_chain run_filter chain msg fs).0

stateless :
    (chain : List Filter) (msg : Message) (fs : Filters)
    → IsStateless chain
    → (match_chain run_filter chain msg fs).1 ≡ fs
unfolding match_chain run_filter
stateless [] msg fs h = refl
stateless (f ∷ chain) msg fs (inl e, hs) = elim (Bool-cases (has fs.ids msg.meter_id)) [
  | inl k ↦ rw (e, k) (stateless chain msg fs hs)
  | inr k ↦ rw (e, k) refl
]
stateless (f ∷ chain) msg fs (inr e, hs) = elim (Bool-cases (has fs.types msg.meter_type)) [
  | inl k ↦ rw (e, k) (stateless chain msg fs hs)
  | inr k ↦ rw (e, k) refl
]

passed-keep :
    (chain : List Filter) (msgs : List Message) (fs : Filters)
    → IsStateless chain
    → passed chain msgs fs ≡ keep (admits chain fs) msgs
unfolding passed
passed-keep chain [] fs h = refl
passed-keep chain (msg ∷ msgs) fs h =
    rw (stateless chain msg fs h, passed-keep chain msgs fs h) refl

abbrev is_one_of : List Message → Digest → Bool
is_one_of [] d = false
is_one_of (msg ∷ msgs) d =
    let rest = is_one_of msgs d in if digest_eq (new_digest msg) d then true else rest

seen-rev_onto :
    (msgs : List Message) (ds : List Digest) (d : Digest)
    → seen (rev_onto msgs ds) d ≡ (if is_one_of msgs d then true else seen ds d)
unfolding rev_onto seen
seen-rev_onto [] ds d = refl
seen-rev_onto (msg ∷ msgs) ds d = ground (arith, seen-rev_onto msgs (new_digest msg ∷ ds) d)

is_one_of-perm : {l r : List Message} (d : Digest) → Permᴰ l r → is_one_of l d ≡ is_one_of r d
is_one_of-perm d Permᴰ.nil = refl
is_one_of-perm d (Permᴰ.cons {a = a} {b = b} e p) = rw (e, is_one_of-perm d p) refl
is_one_of-perm d (Permᴰ.swap {a = a} {b = b} {a' = a'} {b' = b'} {l = l} e e') =
    rw (← e, ← e') (ground arith)
is_one_of-perm d (Permᴰ.trans p p') = is_one_of-perm d p ∙ is_one_of-perm d p'

module _ (chain : List Filter) (encode : Message → Bool)
    (works : (msg : Message) → encode msg ≡ true) where
  -- What one order of arrival comes to.
  One : List Message → Run → Run → List Message → Type 0
  One msgs r r' new =
      (run_block chain false encode msgs r ≡ continue r')
      × (r'.encoded ≡ r.encoded ++ new)
      × (new
          ≡ keep (λ msg. not (seen r.prev (new_digest msg))) (keep (admits chain r.filters) msgs))
      × ((d : Digest) → seen r'.prev d ≡ is_one_of (keep (admits chain r.filters) msgs) d)

  one :
      (msgs : List Message) (r : Run)
      → IsStateless chain
      → (r' : Run) × (new : List Message) × One msgs r r' new
  unfolding One
  one msgs r h =
      let (r', runs, enc, prev) = run_block-passed chain encode works msgs r in
      let same = passed-keep chain msgs r.filters h in
      (
        r',
        _,
        (
          runs,
          enc,
          ap (keep (λ msg. not (seen r.prev (new_digest msg)))) same,
          λ d.
              ap (λ ds. seen ds d) prev
              ∙ seen-rev_onto (passed chain msgs r.filters) [] d
              ∙ blank (passed chain msgs r.filters) d
              ∙ ap (λ l. is_one_of l d) same,
        ),
      )
    where
      blank :
          (msgs : List Message) (d : Digest)
          → (if is_one_of msgs d then true else seen [] d) ≡ is_one_of msgs d
      blank msgs d = unfold seen in ground arith

  -- Without -single and the filter for duplicates, and with an encoder that does not fail, it makes no
  -- difference in what order the parsers' goroutines send their messages: for any two sequences in
  -- which the channel can hand on the same queues, both blocks go on, what they encode are
  -- rearrangements of the same messages, and the next block is deduplicated against the same digests.
  pub run_block-arrivals :
      (queues : List (List Message)) (msgs again : List Message) (r : Run)
      → IsStateless chain
      → Arrives queues msgs
      → Arrives queues again
      → (r1 : Run) × (r2 : Run) × (new1 : List Message) × (new2 : List Message) × (run_block chain
            false encode msgs r
          ≡ continue r1)
        × (run_block chain false encode again r ≡ continue r2)
        × (r1.encoded ≡ r.encoded ++ new1)
        × (r2.encoded ≡ r.encoded ++ new2)
        × Permᴰ new1 new2
        × ((d : Digest) → seen r1.prev d ≡ seen r2.prev d)
  unfolding One
  run_block-arrivals queues msgs again r h one_way other_way =
      let (r1, new1, (runs1, enc1, eq1, prev1)) = one msgs r h in
      let (r2, new2, (runs2, enc2, eq2, prev2)) = one again r h in
      let same : Permᴰ msgs again =
        Permᴰ.trans (Permᴰ.symm (Arrives-perm one_way)) (Arrives-perm other_way) in
      let admitted = perm-keep (admits chain r.filters) same in
      (
        r1,
        r2,
        new1,
        new2,
        runs1,
        runs2,
        enc1,
        enc2,
        rw (eq1, eq2) (perm-keep (λ msg. not (seen r.prev (new_digest msg))) admitted),
        λ d. prev1 d ∙ is_one_of-perm d admitted ∙ sym (prev2 d),
      )
