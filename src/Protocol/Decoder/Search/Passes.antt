-- ===== src/Protocol/Decoder/Search/Passes.antt =====
-- The passes over the preamble as filters.
use rtlamr.Base.{
  ℕ, suc, ◌+◌, ◌-◌, ◌*◌, ◌≤◌, ◌<◌, List, [], ◌∷◌, ◌++◌, append_assoc, append-nil, Bool, true, not,
  ◌&&◌, ◌==◌, if◌then◌else◌, some, length, get_elem?-get_or, get_or, get_or-drop, length-drop, take,
  drop, keep, keep-keep, All, Bool-cases, inl, inr, ◌≡◌, refl, sym, ap, ap₂, ◌∙◌, arith,
  length-take,
}
use rtlamr.Protocol.Config.{PacketConfig}
use rtlamr.Protocol.Decoder.Search.{
  slice?, drop?, search_pass_byte, search_pass, mask, Flow, next, stop, is_empty, byte_passes,
  sample_passes, flow_list,
}
use rtlamr.Protocol.Decoder.Search.Pack.{get_or-take}

module _ (p_bit : ℕ) (sig : List ℕ) where
  search_pass_byte-keep :
      (a b : List ℕ)
      → All (λ q. q < length sig) a
      → search_pass_byte p_bit sig a b ≡ some (b ++ keep (λ q. not (get_or sig q 0 == p_bit)) a)
  unfolding search_pass_byte
  search_pass_byte-keep [] b h = ap some (sym (append-nil b))
  search_pass_byte-keep (q ∷ a) b (lt, h) =
      rw (get_elem?-get_or sig q lt) (elim (Bool-cases (get_or sig q 0 == p_bit)) [
        | inl e ↦ rw e (search_pass_byte-keep a b h)
        | inr e ↦
            rw e (search_pass_byte-keep a (b ++ q ∷ []) h ∙ ap some (append_assoc b (q ∷ []) _))
      ])

  search_pass-keep :
      (a b : List ℕ)
      → All (λ q. q < length sig) a
      → search_pass p_bit sig a b ≡ some (b ++ keep (λ q. get_or sig q 0 == p_bit) a)
  unfolding search_pass
  search_pass-keep [] b h = ap some (sym (append-nil b))
  search_pass-keep (q ∷ a) b (lt, h) =
      rw (get_elem?-get_or sig q lt) (elim (Bool-cases (get_or sig q 0 == p_bit)) [
        | inl e ↦ rw e (search_pass-keep a (b ++ q ∷ []) h ∙ ap some (append_assoc b (q ∷ []) _))
        | inr e ↦ rw e (search_pass-keep a b h)
      ])

pub All-keep : (P : ℕ → Type 0) (p : ℕ → Bool) (xs : List ℕ) → All P xs → All P (keep p xs)
All-keep P p [] h = tt
All-keep P p (x ∷ xs) (px, h) = elim (Bool-cases (p x)) [
  | inl e ↦ rw e (px, All-keep P p xs h)
  | inr e ↦ rw e (All-keep P p xs h)
]

pub keep_ext : (p q : ℕ → Bool) (xs : List ℕ) → ((x : ℕ) → p x ≡ q x) → keep p xs ≡ keep q xs
keep_ext p q [] h = refl
keep_ext p q (x ∷ xs) h = ap₂ (λ b l. if b then x ∷ l else l) (h x) (keep_ext p q xs h)

pub All_imp : (P Q : ℕ → Type 0) (xs : List ℕ) → ((x : ℕ) → P x → Q x) → All P xs → All Q xs
All_imp P Q [] f h = tt
All_imp P Q (x ∷ xs) f (p, h) = (f x p, All_imp P Q xs f h)

empty_nil : (a : List ℕ) → is_empty a ≡ true → a ≡ []
empty_nil [] h = refl
empty_nil (x ∷ a) h = cc

pub flow_list_stop : flow_list stop ≡ []
unfolding flow_list
flow_list_stop = refl

keep-true : (xs : List ℕ) → keep (λ q. true) xs ≡ xs
keep-true [] = refl
keep-true (x ∷ xs) = ap (◌∷◌ x) (keep-true xs)

pub keep_in :
    {P : ℕ → Type 0} (p q : ℕ → Bool) (xs : List ℕ)
    → All P xs
    → ((x : ℕ) → P x → p x ≡ q x)
    → keep p xs ≡ keep q xs
keep_in p q [] h f = refl
keep_in p q (x ∷ xs) (px, h) f = ap₂ (λ b l. if b then x ∷ l else l) (f x px) (keep_in p q xs h f)

-- Whether the byte at `q` may hold the start of the preamble, by its bits from index `p` on.
unfoldable pub may_start : ℕ → List ℕ → ℕ → List ℕ → ℕ → Bool
may_start slb packed p [] q = true
may_start slb packed p (bit ∷ bits) q =
    not (get_or packed (p * slb + q) 0 == mask bit) && may_start slb packed (suc p) bits q

module _ (slb : ℕ) (packed : List ℕ) (n : ℕ) where
  abbrev byte_test : ℕ → ℕ → ℕ → Bool
  byte_test p bit q = not (get_or packed (p * slb + q) 0 == mask bit)

  byte_step :
      (bit : ℕ) (bits : List ℕ) (p : ℕ) (a : List ℕ)
      → All (λ q. q < n) a
      → p * slb + n ≤ length packed
      → byte_passes slb packed p (bit ∷ bits) a ≡ (
          if is_empty (keep (byte_test p bit) a)
          then some stop
          else byte_passes slb packed (suc p) bits (keep (byte_test p bit) a))
  byte_step bit bits p a h fits = unfold byte_passes in rw (dropped, passed) refl
    where
      dropped : drop? packed (p * slb) ≡ some (drop (p * slb) packed)
      dropped = unfold drop? in ground arith

      passed :
          search_pass_byte (mask bit) (drop (p * slb) packed) a [] ≡ some (keep (byte_test p bit) a)
      passed =
          search_pass_byte-keep (mask bit) (drop (p * slb) packed) a []
            (All_imp _ _ a (λ q lt. omega (arith, length-drop (p * slb) packed)) h)
          ∙ ap some (
              keep_ext _ _ a
                (λ q. ap (λ v. not (v == mask bit)) (get_or-drop (p * slb) packed q 0)))

  -- The passes do not fault, and leave the indices that may hold a start.
  pub byte_passes-keep :
      (bits : List ℕ) (p : ℕ) (a : List ℕ)
      → All (λ q. q < n) a
      → (p + length bits) * slb + n ≤ length packed + slb
      → (flow : Flow) × (byte_passes slb packed p bits a ≡ some flow)
        × (flow_list flow ≡ keep (may_start slb packed p bits) a)
  byte_passes-keep [] p a h fits =
      unfold byte_passes flow_list may_start in (next a, refl, sym (keep-true a))
  byte_passes-keep (bit ∷ bits) p a h fits =
      let a' = keep (byte_test p bit) a in
      let joined : keep (may_start slb packed (suc p) bits) a'
          ≡ keep (may_start slb packed p (bit ∷ bits)) a =
        merge bit bits p a in
      elim (Bool-cases (is_empty a')) [
        | inl e ↦ (
          stop,
          byte_step bit bits p a h (omega (arith, fits))
              ∙ ap (λ b. if b then some stop else byte_passes slb packed (suc p) bits a') e,
          flow_list_stop
              ∙ sym (ap (keep (may_start slb packed (suc p) bits)) (empty_nil a' e))
              ∙ joined,
        )
        | inr e ↦
            let (flow, runs, left) =
              byte_passes-keep bits (suc p) a' (All-keep (λ q. q < n) _ a h)
                (omega (arith, fits)) in
            (
              flow,
              byte_step bit bits p a h (omega (arith, fits))
                  ∙ ap (λ b. if b then some stop else byte_passes slb packed (suc p) bits a') e
                  ∙ runs,
              left ∙ joined,
            )
      ]
    where
      merge :
          (bit : ℕ) (bits : List ℕ) (p : ℕ) (a : List ℕ)
          → keep (may_start slb packed (suc p) bits) (keep (byte_test p bit) a)
            ≡ keep (may_start slb packed p (bit ∷ bits)) a
      merge bit bits p a = unfold may_start in keep-keep _ _ a

-- Whether the preamble's bits from index `p` on stand at sample `i`.
unfoldable pub stands : ℕ → List ℕ → ℕ → List ℕ → ℕ → Bool
stands symbol_length quantized p [] i = true
stands symbol_length quantized p (bit ∷ bits) i =
    get_or quantized (p * symbol_length + i) 0 == bit
    && stands symbol_length quantized (suc p) bits i

module _ (cfg : PacketConfig) (quantized : List ℕ) where
  abbrev sample_test : ℕ → ℕ → ℕ → Bool
  sample_test p bit i = get_or quantized (p * cfg.symbol_length + i) 0 == bit

  sample_step :
      (bit : ℕ) (bits : List ℕ) (p : ℕ) (a : List ℕ)
      → All (λ i. i < cfg.block_size) a
      → p * cfg.symbol_length + cfg.block_size ≤ length quantized
      → sample_passes cfg quantized p (bit ∷ bits) a ≡ (
          if is_empty (keep (sample_test p bit) a)
          then some stop
          else sample_passes cfg quantized (suc p) bits (keep (sample_test p bit) a))
  sample_step bit bits p a h fits = unfold sample_passes in rw (sliced, passed) refl
    where
      off : ℕ
      off = p * cfg.symbol_length

      block : List ℕ
      block = take (off + cfg.block_size - off) (drop off quantized)

      sliced : slice? quantized off (off + cfg.block_size) ≡ some block
      sliced = unfold slice? in ground arith

      same : (q : ℕ) → q < cfg.block_size → (get_or block q 0 == bit) ≡ sample_test p bit q
      same q lt =
          ap (λ v. v == bit)
            (get_or-take (off + cfg.block_size - off) (drop off quantized) q (omega arith)
              ∙ get_or-drop off quantized q 0)

      passed : search_pass bit block a [] ≡ some (keep (sample_test p bit) a)
      passed =
          search_pass-keep bit block a [] (
            All_imp _ _ a
              (λ q lt. omega (
                arith,
                length-take (off + cfg.block_size - off) (drop off quantized),
                length-drop off quantized,
              ))
              h)
          ∙ ap some (keep_in (λ q. get_or block q 0 == bit) (sample_test p bit) a h same)

  -- The passes do not fault, and leave the indices at which the preamble stands.
  pub sample_passes-keep :
      (bits : List ℕ) (p : ℕ) (a : List ℕ)
      → All (λ i. i < cfg.block_size) a
      → (p + length bits) * cfg.symbol_length + cfg.block_size
        ≤ length quantized + cfg.symbol_length
      → (flow : Flow) × (sample_passes cfg quantized p bits a ≡ some flow)
        × (flow_list flow ≡ keep (stands cfg.symbol_length quantized p bits) a)
  sample_passes-keep [] p a h fits =
      unfold sample_passes flow_list stands in (next a, refl, sym (keep-true a))
  sample_passes-keep (bit ∷ bits) p a h fits =
      let a' = keep (sample_test p bit) a in
      let joined : keep (stands cfg.symbol_length quantized (suc p) bits) a'
          ≡ keep (stands cfg.symbol_length quantized p (bit ∷ bits)) a =
        merge bit bits p a in
      elim (Bool-cases (is_empty a')) [
        | inl e ↦ (
          stop,
          sample_step bit bits p a h (omega (arith, fits))
              ∙ ap (λ b. if b then some stop else sample_passes cfg quantized (suc p) bits a') e,
          flow_list_stop
              ∙ sym (ap (keep (stands cfg.symbol_length quantized (suc p) bits)) (empty_nil a' e))
              ∙ joined,
        )
        | inr e ↦
            let (flow, runs, left) =
              sample_passes-keep bits (suc p) a' (All-keep (λ q. q < cfg.block_size) _ a h)
                (omega (arith, fits)) in
            (
              flow,
              sample_step bit bits p a h (omega (arith, fits))
                  ∙ ap (λ b. if b then some stop else sample_passes cfg quantized (suc p) bits a') e
                  ∙ runs,
              left ∙ joined,
            )
      ]
    where
      merge :
          (bit : ℕ) (bits : List ℕ) (p : ℕ) (a : List ℕ)
          → keep (stands cfg.symbol_length quantized (suc p) bits) (keep (sample_test p bit) a)
            ≡ keep (stands cfg.symbol_length quantized p (bit ∷ bits)) a
      merge bit bits p a = unfold stands in keep-keep _ _ a
