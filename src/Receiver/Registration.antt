-- ===== src/Receiver/Registration.antt =====
-- main.go, NewReceiver: the message types are registered in the order of their names.
use mathlib.Core.List.{Permᴰ}
use mathlib.Core.List.Permᴰ
use rtlamr.Base.{ℕ, suc, List, [], ◌∷◌, Option, none, some, length, ◌≡◌, ap, arith}
use rtlamr.Base.Sort.{
  sort, sort-perm, bytes_lt, bytes_lt_asym, bytes_lt_trans, bytes_lt-Told, length-perm,
}
use rtlamr.Base.Text.{Bytes}
use rtlamr.Protocol.Config.{PacketConfig}
use rtlamr.Protocol.Decoder.Config.{Decoder, new_decoder, register_protocol, allocate}
use rtlamr.Protocol.Registry.{new_parser}
use rtlamr.Receiver.Flags.{message_types}

module _ {P : Type 0} (cfg_of : P → PacketConfig) (symbol_length : ℕ)
    (parsers : List (Bytes × (ℕ → P))) where
  -- The loop over the names; `none` is the exit on an unknown name.
  unfoldable pub register_names : List Bytes → Decoder P → Option (Decoder P)
  register_names [] d = some d
  register_names (name ∷ names) d = elim (new_parser name symbol_length parsers) [
    | none ↦ none
    | some p ↦ register_names names (register_protocol cfg_of p d)
  ]

  -- `NewReceiver` up to `Allocate`, for the names in the order in which the map is walked.
  unfoldable pub new_receiver : List Bytes → Option (Decoder P)
  new_receiver names = elim (register_names (sort bytes_lt (message_types names)) new_decoder) [
    | none ↦ none
    | some d ↦ some (allocate d)
  ]

message_types-perm : {l r : List Bytes} → Permᴰ l r → Permᴰ (message_types l) (message_types r)
unfolding message_types
message_types-perm Permᴰ.nil = Permᴰ.nil
message_types-perm (Permᴰ.cons {a = a} {b = b} {l₁ = []} {l₂ = []} e d) = rw e (Permᴰ.refl _)
message_types-perm (Permᴰ.cons {l₁ = []} {l₂ = y ∷ ys} e d) =
    absurd (let bad : 0 ≡ suc (length ys) = length-perm d in omega arith)
message_types-perm (Permᴰ.cons {l₁ = x ∷ xs} {l₂ = []} e d) =
    absurd (let bad : suc (length xs) ≡ 0 = length-perm d in omega arith)
message_types-perm (Permᴰ.cons {l₁ = x ∷ xs} {l₂ = y ∷ ys} e d) = Permᴰ.cons e d
message_types-perm (Permᴰ.swap e e') = Permᴰ.swap e e'
message_types-perm (Permᴰ.trans d d') = Permᴰ.trans (message_types-perm d) (message_types-perm d')

-- The decoder that a receiver starts with, or its exit on a name that is unknown, is the same in
-- whatever order the map of message types is walked.
pub new_receiver-perm :
    {P : Type 0} (cfg_of : P → PacketConfig) (symbol_length : ℕ) (parsers : List (Bytes × (ℕ → P)))
    (names order : List Bytes)
    → Permᴰ names order
    → new_receiver cfg_of symbol_length parsers names
      ≡ new_receiver cfg_of symbol_length parsers order
unfolding new_receiver
new_receiver-perm {P} cfg_of symbol_length parsers names order d =
    ap
      (λ l. elim (register_names cfg_of symbol_length parsers l new_decoder) [
        | none ↦ none
        | some d ↦ some (allocate d)
      ])
      (sort-perm bytes_lt bytes_lt_asym bytes_lt_trans (message_types-perm d)
        (λ x y _ _. bytes_lt-Told x y))
