-- ===== src/Protocol/Scan/Among.antt =====
-- A packet among others: one that a parser accepts is sent, whatever other packets are found.
use mathlib.Core.List.{Memᴰ}
use rtlamr.Base.{
  ℕ, ◌*◌, ◌≤◌, List, [], ◌∷◌, ◌++◌, false, Option, none, some, ◌≡◌, refl, sym, ap, ap₂, ◌∙◌, arith,
  length, length-take, take, drop, take-append-drop, map, All, Bool-cases, inl, inr,
}
use rtlamr.Base.Text.{Bytes, bytes_eq, bytes_eq_iff, member}
use rtlamr.Protocol.{Data, Message, new_data}
use rtlamr.Protocol.Decoder.Slice.{data_at}
use rtlamr.Protocol.Scan.{scan}
use rtlamr.Protocol.Scan.Spec.{cut, distinct, accepted, IsLong, messages_of, scan-accepted}
use rtlamr.Protocol.Scan.Repeat.{cut-new_data, new_data-IsLong}

module _ (accept : Data → Option Message) (xs : Bytes) (msg : Message)
    (accepts : (q : ℕ) → accept (data_at q xs) ≡ some msg) where
  module _ (read : ℕ → Bytes) where
    sent_first :
        (q : ℕ) (qs : List ℕ) (seen : List Bytes)
        → read q ≡ xs
        → member xs seen ≡ false
        → Memᴰ msg (accepted accept (distinct seen (map (λ q. data_at q (read q)) (q ∷ qs))))
    unfolding accepted distinct data_at
    sent_first q qs seen e new =
        let accepted_first : accept (data_at q (read q)) ≡ some msg =
          ap (λ b. accept (data_at q b)) e ∙ accepts q in
        let fresh : member (read q) seen ≡ false = ap (λ b. member b seen) e ∙ new in
        unfold new_data in rw (fresh, accepted_first, accepted) (Memᴰ.head refl)

    -- The first packet with certain bytes is not skipped, wherever it stands.
    sent_among :
        (q : ℕ) (qs : List ℕ) (seen : List Bytes)
        → Memᴰ q qs
        → read q ≡ xs
        → member xs seen ≡ false
        → Memᴰ msg (accepted accept (distinct seen (map (λ q. data_at q (read q)) qs)))
    unfolding accepted distinct data_at new_data member
    sent_among q [] seen h e new = elim h [ ]
    sent_among q (k ∷ qs) seen (Memᴰ.head p) e new = sent_first k qs seen (ap read (sym p) ∙ e) new
    sent_among q (k ∷ qs) seen (Memᴰ.tail h) e new = elim (Bool-cases (bytes_eq (read k) xs)) [
      | inl same ↦ sent_first k qs seen ((bytes_eq_iff (read k) xs).0 same) new
      | inr other ↦ elim (Bool-cases (member (read k) seen)) [
        | inl old ↦ rw old (sent_among q qs seen h e new)
        | inr fresh ↦ rw fresh (
            behind (accept (data_at k (read k))) _
              (sent_among q qs (read k ∷ seen) h e (rw other new)))
      ]
    ]
      where
        behind :
            (o : Option Message) (ms : List Message)
            → Memᴰ msg ms
            → Memᴰ msg (elim o [ none ↦ ms | some m ↦ m ∷ ms ])
        behind none ms h = h
        behind (some m) ms h = Memᴰ.tail h

cut-data_at :
    (q n : ℕ) (bytes : Bytes)
    → n ≤ length bytes
    → cut (8 * n) n (data_at q bytes) ≡ data_at q (take n bytes)
unfolding data_at
cut-data_at q n bytes h =
    ap (λ (d : Data). at_q d)
      (ap (λ m. cut (8 * m) m (new_data bytes)) (sym size)
        ∙ ap (λ b. cut (8 * length (take n bytes)) (length (take n bytes)) (new_data b))
            (sym (take-append-drop n bytes))
        ∙ cut-new_data (take n bytes) (drop n bytes))
  where
    at_q : Data → Data
    at_q d = record { idx = q; bits = d.bits; bytes = d.bytes }

    size : length (take n bytes) ≡ n
    size = omega (arith, length-take n bytes, h)

cut-all :
    (n : ℕ) (read : ℕ → Bytes) (qs : List ℕ)
    → ((q : ℕ) → n ≤ length (read q))
    → map (cut (8 * n) n) (map (λ q. data_at q (read q)) qs)
      ≡ map (λ q. data_at q (take n (read q))) qs
cut-all n read [] h = refl
cut-all n read (q ∷ qs) h = ap₂ (◌∷◌) (cut-data_at q n (read q) (h q)) (cut-all n read qs h)

all-IsLong :
    (n : ℕ) (read : ℕ → Bytes) (qs : List ℕ)
    → ((q : ℕ) → n ≤ length (read q))
    → All (IsLong (8 * n) n) (map (λ q. data_at q (read q)) qs)
all-IsLong n read [] h = tt
all-IsLong n read (q ∷ qs) h = (long, all-IsLong n read qs h)
  where
    long : IsLong (8 * n) n (data_at q (read q))
    long =
        unfold data_at in
        let size : length (take n (read q)) ≡ n = omega (arith, length-take n (read q), h q) in
        let l : IsLong (8 * length (take n (read q))) (length (take n (read q)))
            (new_data (take n (read q) ++ drop n (read q))) =
          new_data-IsLong (take n (read q)) (drop n (read q)) in
        let l' : IsLong (8 * n) n (new_data (read q)) =
          rw (size, take-append-drop n (read q)) at l in
        record { bits = l'.bits; bytes = l'.bytes }

-- A packet that is accepted with its bytes cut to the parser's length is sent by one call on any
-- packets among which it is found.
pub scan-among :
    (accept : Data → Option Message) (xs : Bytes) (msg : Message) (buffer : Bytes)
    (read : ℕ → Bytes) (q : ℕ) (qs : List ℕ)
    → ((q : ℕ) → accept (data_at q xs) ≡ some msg)
    → length buffer ≡ length xs
    → ((q : ℕ) → length xs ≤ length (read q))
    → take (length xs) (read q) ≡ xs
    → Memᴰ q qs
    → (ms : List Message) × (messages_of
          (scan (8 * length xs) accept buffer [] (map (λ q. data_at q (read q)) qs))
        ≡ some ms)
      × Memᴰ msg ms
scan-among accept xs msg buffer read q qs accepts size long here found = (
  accepted accept (distinct [] (map (λ q. data_at q (take (length xs) (read q))) qs)),
  scan-accepted (8 * length xs) accept (length xs) buffer [] _ size
        (all-IsLong (length xs) read qs long)
      ∙ ap (λ ds. some (accepted accept (distinct [] ds))) (cut-all (length xs) read qs long),
  sent_among accept xs msg accepts (λ q. take (length xs) (read q)) q qs [] found here
      (unfold member in refl),
)
