-- ===== src/Base/Text.antt =====
-- Text as lists of byte values, and the number conversions of Go's `strconv` and `fmt`.
pub mod Parse
pub mod Digits
pub mod Trim
pub mod Split
use Prim.Native.Nat.{ℕ, zero, suc, ◌+◌, ◌-◌, ◌*◌, ◌/◌, ◌%◌, ◌^◌, ◌<◌}
use Prim.Native.Char.{code}
use Prim.Native.String.{String}
use mathlib.Core.Path.{◌≡◌, refl, ◌∙◌, ap, ap₂}
use mathlib.Core.Logic.{◌↔◌, ◌≢◌}
use mathlib.Core.Bool.{Bool, true, false, ◌&&◌}
use mathlib.Core.Option.{Option, none, some}
use mathlib.Core.List.{List, [], ◌∷◌, ◌++◌, map}
use native.Mathlib.Omega.{arith}
use rtlamr.Base.Tests.{ltb, leb, ◌==◌, ==_iff, if◌then◌else◌}

abbrev pub Bytes : Type 0
Bytes = List ℕ

-- The code points of a text, which are its bytes where it is ASCII.
abbrev pub codes : String → Bytes
codes String.[] = []
codes (String.◌∷◌ c s) = code c ∷ codes s

-- Equality of strings and of byte slices.
unfoldable pub bytes_eq : Bytes → Bytes → Bool
bytes_eq [] [] = true
bytes_eq [] (y ∷ ys) = false
bytes_eq (x ∷ xs) [] = false
bytes_eq (x ∷ xs) (y ∷ ys) = x == y && bytes_eq xs ys

pub bytes_eq_iff : (xs ys : Bytes) → (bytes_eq xs ys ≡ true) ↔ (xs ≡ ys)
unfolding bytes_eq
bytes_eq_iff [] [] = (λ h. refl, λ h. refl)
bytes_eq_iff [] (y ∷ ys) = (λ h. cc, λ h. cc)
bytes_eq_iff (x ∷ xs) [] = (λ h. cc, λ h. cc)
bytes_eq_iff (x ∷ xs) (y ∷ ys) = ground (arith, bytes_eq_iff xs ys)

-- Membership in a set that is kept as a list, such as a `map[string]bool`.
unfoldable pub member : Bytes → List Bytes → Bool
member k [] = false
member k (x ∷ xs) = if bytes_eq x k then true else member k xs

-- `fmt.Sprintf("%0wb", v)` for a value of at most w bits: w binary digits, the highest first.
abbrev pub bin : ℕ → ℕ → Bytes
bin zero v = []
bin (suc k) v = (b'0' + v / 2 ^ k % 2) ∷ bin k v

-- The bytes as a big-endian number, behind the value of the bytes before them.
abbrev pub be_from : ℕ → Bytes → ℕ
be_from n [] = n
be_from n (b ∷ bytes) = be_from (n * 256 + b) bytes

-- `binary.BigEndian` on all bytes of a slice.
abbrev pub be_value : Bytes → ℕ
be_value = be_from 0

-- The lower-case digit of a value below 36.
unfoldable pub digit_char : ℕ → ℕ
digit_char d = if ltb d 10 then b'0' + d else b'a' + d - 10

-- `fmt`'s upper-case hexadecimal digit.
unfoldable pub upper_digit : ℕ → ℕ
upper_digit d = if ltb d 10 then b'0' + d else b'A' + d - 10

-- The digits of `n` in front of `out`; a number has no more digits than itself plus one, so
-- `suc n` rounds are enough.
format_loop : (ℕ → ℕ) → ℕ → ℕ → ℕ → Bytes → Bytes
format_loop digit base zero n out = out
format_loop digit base (suc fuel) n out =
    let rest = format_loop digit base fuel (n / base) (digit (n % base) ∷ out) in
    if n / base == 0 then digit (n % base) ∷ out else rest

-- `strconv.FormatUint`.
unfoldable pub format_uint : ℕ → ℕ → Bytes
unfolding format_loop digit_char
format_uint n base = format_loop digit_char base (suc n) n []

zero_pad : ℕ → Bytes → Bytes
zero_pad zero s = s
zero_pad (suc k) s = b'0' ∷ zero_pad k s

size : Bytes → ℕ
size [] = 0
size (x ∷ xs) = suc (size xs)

-- `fmt.Sprintf("%0wX", v)`.
unfoldable pub format_hex : ℕ → ℕ → Bytes
unfolding format_loop upper_digit zero_pad size
format_hex w n = let s = format_loop upper_digit 16 (suc n) n [] in zero_pad (w - size s) s

-- `strings.ToLower` on ASCII text.
unfoldable pub to_lower : Bytes → Bytes
to_lower = map (λ c. if leb b'A' c && leb c b'Z' then c + 32 else c)

-- `strings.Split` by one byte: at least one part.
unfoldable pub split : Bytes → ℕ → List Bytes
split [] sep = [] ∷ []
split (c ∷ s) sep = elim (split s sep) [
  | [] ↦ []
  | p ∷ ps ↦ if c == sep then [] ∷ p ∷ ps else (c ∷ p) ∷ ps
]

-- `strings.Join` by one byte.
unfoldable pub join : List Bytes → ℕ → Bytes
join [] sep = []
join (p ∷ ps) sep = elim ps [ [] ↦ p | q ∷ qs ↦ p ++ sep ∷ join ps sep ]
