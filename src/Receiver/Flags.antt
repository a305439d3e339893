-- ===== src/Receiver/Flags.antt =====
-- The flag values of flags.go: maps filled from a comma-separated list.
use rtlamr.Base.{ℕ, List, [], ◌∷◌, ◌++◌, Bool, ◌||◌, ◌==◌, if◌then◌else◌, Option, none, some, map}
use rtlamr.Base.Text.{Bytes, codes, split, to_lower, bytes_eq, member}
use rtlamr.Base.Text.Parse.{parse_uint, ParseError}

-- The distinct keys of a map that the values are put into in turn.
unfoldable pub add_keys : List Bytes → List Bytes → List Bytes
add_keys [] m = m
add_keys (v ∷ values) m = add_keys values (if member v m then m else m ++ v ∷ [])

-- `StringMap.Set`: the keys, which replace those that the map held.
unfoldable pub set_strings : Bytes → List Bytes
set_strings value = add_keys (map to_lower (split value 44)) []

-- The loop of `UintMap.Set`: it stops at the first error and keeps what it has added.
unfoldable pub add_uints : List Bytes → List ℕ → List ℕ × Option ParseError
add_uints [] m = (m, none)
add_uints (v ∷ values) m =
    let (n, err) = parse_uint v 10 64 in
    let rest = add_uints values (n ∷ m) in elim err [ none ↦ rest | some e ↦ (m, some e) ]

unfoldable pub set_uints : Bytes → List ℕ → List ℕ × Option ParseError
set_uints value m = add_uints (split value 44) m

-- The symbol lengths that `HandleFlags` accepts.
unfoldable pub valid_symbol_length : ℕ → Bool
valid_symbol_length n =
    (n == 8)
    || ((n == 32)
        || ((n == 40)
            || ((n == 48)
                || ((n == 56)
                    || ((n == 64) || ((n == 72) || ((n == 80) || ((n == 88) || (n == 96)))))))))

pub data Format : Type 0 where
  plain : Format
  csv : Format
  json : Format
  xml : Format

-- `none` is the fatal error "invalid format".
unfoldable pub format_of : Bytes → Option Format
format_of value =
    let f = to_lower value in
    if bytes_eq f (codes "plain")
    then some plain
    else if bytes_eq f (codes "csv")
    then some csv
    else if bytes_eq f (codes "json")
    then some json
    else if bytes_eq f (codes "xml")
    then some xml
    else none

-- The message types that `NewReceiver` registers: `all` alone stands for four of them.
unfoldable pub message_types : List Bytes → List Bytes
message_types [] = []
message_types (name ∷ []) =
    if bytes_eq name (codes "all")
    then codes "scm" ∷ codes "scm+" ∷ codes "idm" ∷ codes "r900" ∷ []
    else name ∷ []
message_types (name ∷ other ∷ names) = name ∷ other ∷ names
