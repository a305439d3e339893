-- ===== src/Protocol/Decoder/Config/Parsers.antt =====
-- Which parsers the decoder of a receiver holds under a preamble.
use mathlib.Core.Option.{some_inj}
use rtlamr.Base.{
  ℕ, zero, suc, List, [], ◌∷◌, ◌++◌, append_assoc, append-nil, Bool, true, false, if◌then◌else◌,
  some, get_elem?, keep, All, Bool-cases, inl, inr, ◌≡◌, refl, sym, ap, ◌∙◌, arith,
}
use rtlamr.Base.Text.{Bytes, bytes_eq, bytes_eq_iff}
use rtlamr.Protocol.Config.{PacketConfig}
use rtlamr.Protocol.Decoder.Config.{
  Decoder, preamble_bytes, add_parser, new_decoder, register_protocol, register_all, allocate,
}
use rtlamr.Protocol.Decoder.Config.Laws.{receiver, add_parser-All, All-get_elem?}

bytes_eq_comm : (x y : Bytes) → bytes_eq x y ≡ bytes_eq y x
unfolding bytes_eq
bytes_eq_comm [] [] = refl
bytes_eq_comm [] (b ∷ y) = refl
bytes_eq_comm (a ∷ x) [] = refl
bytes_eq_comm (a ∷ x) (b ∷ y) = ground (arith, bytes_eq_comm x y)

module _ {ℓ} {P : Type ℓ} where
  -- No key stands twice.
  abbrev Apart : List (Bytes × List P) → Type 0
  Apart [] = Unit
  Apart ((k, ps) ∷ m) = All (λ e. bytes_eq e.0 k ≡ false) m × Apart m

  add_parser-Apart :
      (key : Bytes) (p : P) (m : List (Bytes × List P)) → Apart m → Apart (add_parser key p m)
  unfolding add_parser
  add_parser-Apart key p [] h = (tt, tt)
  add_parser-Apart key p ((k, ps) ∷ m) (fresh, h) = elim (Bool-cases (bytes_eq k key)) [
    | inl e ↦ rw e (fresh, h)
    | inr e ↦ rw e (
      add_parser-All (λ x. bytes_eq x k ≡ false) key p m (bytes_eq_comm key k ∙ e) fresh,
      add_parser-Apart key p m h,
    )
  ]

  abbrev under : Bytes → List (Bytes × List P) → List P
  under key [] = []
  under key ((k, ps) ∷ m) = if bytes_eq k key then ps else under key m

  under-add_parser :
      (key k : Bytes) (p : P) (m : List (Bytes × List P))
      → under key (add_parser k p m) ≡ under key m ++ (if bytes_eq k key then p ∷ [] else [])
  unfolding add_parser
  under-add_parser key k p [] = refl
  under-add_parser key k p ((j, ps) ∷ m) = elim (Bool-cases (bytes_eq j k)) [
    | inl e ↦
        let same : j ≡ k = (bytes_eq_iff j k).0 e in
        elim (Bool-cases (bytes_eq k key)) [
          | inl here ↦ rw (e, under, ap (λ x. bytes_eq x key) same ∙ here, here) refl
          | inr away ↦
              rw (e, under, ap (λ x. bytes_eq x key) same ∙ away, away)
                (sym (append-nil (under key m)))
        ]
    | inr e ↦ elim (Bool-cases (bytes_eq j key)) [
      | inr away ↦ rw (e, under, away) (under-add_parser key k p m)
      | inl here ↦
          let other : bytes_eq k key ≡ false =
            ap (bytes_eq k) (sym ((bytes_eq_iff j key).0 here)) ∙ bytes_eq_comm k j ∙ e in
          rw (e, under, here, other) (sym (append-nil ps))
    ]
  ]

  under-get_elem? :
      (m : List (Bytes × List P)) (i : ℕ) (key : Bytes) (ps : List P)
      → Apart m
      → get_elem? m i ≡ some (key, ps)
      → under key m ≡ ps
  under-get_elem? [] i key ps h at = cc
  under-get_elem? ((k, qs) ∷ m) zero key ps (fresh, h) at =
      let both : (k, qs) ≡ (key, ps) = some_inj.0 at in
      let here : bytes_eq k key ≡ true = (bytes_eq_iff k key).1 (ap (λ e. e.0) both) in
      rw (here) (ap (λ e. e.1) both)
  under-get_elem? ((k, qs) ∷ m) (suc i) key ps (fresh, h) at =
      let away : bytes_eq k key ≡ false =
        bytes_eq_comm k key ∙ All-get_elem? (λ x. bytes_eq x k ≡ false) m i key ps fresh at in
      rw (away) (under-get_elem? m i key ps h at)

  module _ (cfg_of : P → PacketConfig) where
    abbrev pub is_under : Bytes → P → Bool
    is_under key p = bytes_eq (preamble_bytes (cfg_of p).preamble) key

    register_all-Apart :
        (ps : List P) (d : Decoder P)
        → Apart d.preambles
        → Apart (register_all cfg_of ps d).preambles
    unfolding register_all register_protocol
    register_all-Apart [] d h = h
    register_all-Apart (p ∷ ps) d h =
        register_all-Apart ps (register_protocol cfg_of p d)
          (add_parser-Apart (preamble_bytes (cfg_of p).preamble) p d.preambles h)

    under-register_all :
        (key : Bytes) (ps : List P) (d : Decoder P)
        → under key (register_all cfg_of ps d).preambles
          ≡ under key d.preambles ++ keep (is_under key) ps
    unfolding register_all register_protocol
    under-register_all key [] d = sym (append-nil (under key d.preambles))
    under-register_all key (p ∷ ps) d =
        under-register_all key ps (register_protocol cfg_of p d)
        ∙ ap (λ l. l ++ keep (is_under key) ps)
            (under-add_parser key (preamble_bytes (cfg_of p).preamble) p d.preambles)
        ∙ append_assoc (under key d.preambles) _ (keep (is_under key) ps)
        ∙ ap (◌++◌ (under key d.preambles)) joined
      where
        joined :
            (if is_under key p then p ∷ [] else []) ++ keep (is_under key) ps
            ≡ keep (is_under key) (p ∷ ps)
        joined = elim (Bool-cases (is_under key p)) [ inl e ↦ rw e refl | inr e ↦ rw e refl ]

    pub receiver-parsers :
        (ps : List P) (i : ℕ) (key : Bytes) (parsers : List P)
        → get_elem? (receiver cfg_of ps).preambles i ≡ some (key, parsers)
        → parsers ≡ keep (is_under key) ps
    unfolding allocate new_decoder
    receiver-parsers ps i key parsers at =
        sym (
          under-get_elem? (register_all cfg_of ps new_decoder).preambles i key parsers
            (register_all-Apart ps new_decoder tt) at)
        ∙ under-register_all key ps new_decoder
