-- ===== src/Protocol/Decoder/FanOut/Arrivals.antt =====
-- Whatever order messages arrive in, the same ones arrive.
use mathlib.Core.List.{Permᴰ}
use mathlib.Core.List.Permᴰ
use rtlamr.Base.{List, [], ◌∷◌, ◌++◌, append_assoc, flatten, ◌≡◌, refl, sym, ap, ◌∙◌}
use rtlamr.Protocol.Decoder.FanOut.{Arrives, all_sent, sends}

module _ {M : Type 0} where
  perm_eq : {l r : List M} → l ≡ r → Permᴰ l r
  perm_eq {l} e = rw (← e) (Permᴰ.refl l)

  perm_front : (l r : List M) (x : M) → Permᴰ (l ++ x ∷ r) (x ∷ l ++ r)
  perm_front [] r x = Permᴰ.refl _
  perm_front (y ∷ l) r x = Permᴰ.trans (Permᴰ.cons refl (perm_front l r x)) (Permᴰ.swap refl refl)

  flatten-append : (qs rs : List (List M)) → flatten (qs ++ rs) ≡ flatten qs ++ flatten rs
  flatten-append [] rs = refl
  flatten-append (q ∷ qs) rs =
      ap (◌++◌ q) (flatten-append qs rs) ∙ sym (append_assoc q (flatten qs) (flatten rs))

  pub Arrives-perm :
      {queues : List (List M)} {msgs : List M} → Arrives queues msgs → Permᴰ (flatten queues) msgs
  Arrives-perm (all_sent e) = perm_eq e
  Arrives-perm (sends {msg = msg} before queue after e rest) =
      Permᴰ.trans (perm_eq (ap flatten e ∙ flatten-append before ((msg ∷ queue) ∷ after))) (
        Permᴰ.trans (perm_front (flatten before) (queue ++ flatten after) msg) (
          Permᴰ.cons refl (
            Permᴰ.trans (perm_eq (sym (flatten-append before (queue ∷ after))))
              (Arrives-perm rest))))
