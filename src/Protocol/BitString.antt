-- ===== src/Protocol/BitString.antt =====
-- The digits of a packet as one number: the field that `ParseUint` reads from a slice of `Bits`
-- is a field of the packet's bytes, read as a big-endian number.
use native.Mathlib.Nat.{
  two-pow-succ, one-le-pow, div-div-eq-div-mul, mul-add-div_right, div-eq_of_lt, mod-eq_of_lt,
  div-add-mod', add-zero, mul_comm,
}
use rtlamr.Base.{
  ℕ, zero, suc, ◌+◌, ◌-◌, ◌*◌, ◌/◌, ◌%◌, ◌^◌, ◌<◌, [], ◌∷◌, ◌++◌, none, length, take, drop, slice,
  take-append-drop, append-nil, append_assoc, All, ◌≡◌, refl, sym, ap, ap₂, ◌∙◌, arith,
}
use rtlamr.Base.Text.{Bytes, bin, be_from, be_value}
use rtlamr.Base.Text.Parse.{Parsed, parse_uint, parse_uint-bin}
use rtlamr.Crc.Serial.{IsByte}
use rtlamr.Protocol.{bit_string}

pub two_pow-add : (a b : ℕ) → 2 ^ (a + b) ≡ 2 ^ a * 2 ^ b
two_pow-add a zero = omega (arith, ap (λ (t : ℕ). 2 ^ t) (add-zero a))
two_pow-add a (suc b) =
    ap (λ (t : ℕ). 2 ^ t) (let e : a + suc b ≡ suc (a + b) = omega arith in e)
    ∙ omega
        (arith, two-pow-succ (a + b), two_pow-add a b, ap (λ (t : ℕ). 2 ^ a * t) (two-pow-succ b))

suc_add : (i k : ℕ) → suc i + k ≡ suc (i + k)
suc_add i k = omega arith

pub drop-bin : (i k v : ℕ) → drop i (bin (i + k) v) ≡ bin k v
drop-bin zero k v = ap (λ n. bin n v) (omega arith)
drop-bin (suc i) k v = ap (λ n. drop (suc i) (bin n v)) (suc_add i k) ∙ drop-bin i k v

pub take-bin : (j k v : ℕ) → take j (bin (j + k) v) ≡ bin j (v / 2 ^ k)
take-bin zero k v = refl
take-bin (suc j) k v =
    ap (λ n. take (suc j) (bin n v)) (suc_add j k)
    ∙ ap₂ ◌∷◌ (ap (λ (t : ℕ). b'0' + t % 2) digit) (take-bin j k v)
  where
    digit : v / 2 ^ (j + k) ≡ v / 2 ^ k / 2 ^ j
    digit =
        ap (λ (t : ℕ). v / t) (two_pow-add j k ∙ mul_comm (2 ^ j) (2 ^ k))
        ∙ sym (div-div-eq-div-mul v (2 ^ k) (2 ^ j))

-- Digits above the width do not show.
bin_high : (k x y : ℕ) → bin k (x * 2 ^ k + y) ≡ bin k y
bin_high zero x y = refl
bin_high (suc k) x y =
    ap (λ (t : ℕ). bin (suc k) (t + y)) regroup
    ∙ ap₂ ◌∷◌ (ap (λ (t : ℕ). b'0' + t) digit) (bin_high k (x * 2) y)
  where
    regroup : x * 2 ^ suc k ≡ x * 2 * 2 ^ k
    regroup = omega (arith, ap (λ (t : ℕ). x * t) (two-pow-succ k))

    digit : (x * 2 * 2 ^ k + y) / 2 ^ k % 2 ≡ y / 2 ^ k % 2
    digit =
        ap (λ (t : ℕ). t % 2) (mul-add-div_right (one-le-pow k 2 (omega arith)) (x * 2) y)
        ∙ omega arith

pub bin-append : (j k x y : ℕ) → y < 2 ^ k → bin j x ++ bin k y ≡ bin (j + k) (x * 2 ^ k + y)
bin-append j k x y h =
    ap₂ ◌++◌ (ap (bin j) high ∙ sym (take-bin j k (x * 2 ^ k + y)))
      (sym (bin_high k x y) ∙ sym (drop-bin j k (x * 2 ^ k + y)))
    ∙ take-append-drop j (bin (j + k) (x * 2 ^ k + y))
  where
    high : x ≡ (x * 2 ^ k + y) / 2 ^ k
    high = sym (
        mul-add-div_right (one-le-pow k 2 (omega arith)) x y
        ∙ ap (λ (t : ℕ). x + t) (div-eq_of_lt h)
        ∙ add-zero x)

bin-bit_string :
    (k n : ℕ) (bytes : Bytes)
    → All IsByte bytes
    → bin k n ++ bit_string bytes ≡ bin (k + 8 * length bytes) (be_from n bytes)
bin-bit_string k n [] hb =
    unfold bit_string in
    append-nil (bin k n) ∙ ap (λ m. bin m n) (let e : k ≡ k + 0 = omega arith in e)
bin-bit_string k n (b ∷ bytes) (h, hb) =
    regroup
    ∙ ap (λ (s : Bytes). s ++ bit_string bytes) (bin-append k 8 n b h)
    ∙ bin-bit_string (k + 8) (n * 256 + b) bytes hb
    ∙ ap (λ m. bin m (be_from (n * 256 + b) bytes))
        (let e : k + 8 + 8 * length bytes ≡ k + 8 * suc (length bytes) = omega arith in e)
  where
    regroup : bin k n ++ bit_string (b ∷ bytes) ≡ (bin k n ++ bin 8 b) ++ bit_string bytes
    regroup = unfold bit_string in sym (append_assoc (bin k n) (bin 8 b) (bit_string bytes))

pub bit_string-bin :
    (bytes : Bytes) → All IsByte bytes → bit_string bytes ≡ bin (8 * length bytes) (be_value bytes)
bit_string-bin bytes hb =
    bin-bit_string 0 0 bytes hb ∙ ap (λ n. bin n (be_value bytes)) (omega arith)

pub bin-mod : (k y : ℕ) → bin k y ≡ bin k (y % 2 ^ k)
bin-mod k y = ap (bin k) (sym (div-add-mod' y (2 ^ k))) ∙ bin_high k (y / 2 ^ k) (y % 2 ^ k)

-- For a field of `w` digits with `before` digits in front of it and `behind` digits after it.
module _ (bytes : Bytes) (before w behind : ℕ) (hb : All IsByte bytes)
    (size : before + w + behind ≡ 8 * length bytes) where
  pub slice-bit_string :
      slice (bit_string bytes) before (before + w) ≡ bin w (be_value bytes / 2 ^ behind)
  slice-bit_string =
      ap₂ (λ n s. take n (drop before s)) width whole
      ∙ ap (take w) (drop-bin before (w + behind) (be_value bytes))
      ∙ take-bin w behind (be_value bytes)
    where
      width : before + w - before ≡ w
      width = omega arith

      whole : bit_string bytes ≡ bin (before + (w + behind)) (be_value bytes)
      whole =
          bit_string-bin bytes hb
          ∙ ap (λ m. bin m (be_value bytes))
              (let e : 8 * length bytes ≡ before + (w + behind) = omega arith in e)

  pub parse_uint-field :
      0 < w
      → parse_uint (slice (bit_string bytes) before (before + w)) 2 w
        ≡ (be_value bytes / 2 ^ behind % 2 ^ w, none)
  parse_uint-field pos =
      ap (λ s. parse_uint s 2 w) slice-bit_string
      ∙ parse_uint-bin w (be_value bytes / 2 ^ behind) pos

-- A cast to a width that holds the value.
pub cast : (w : ℕ) {x y : ℕ} → x ≡ y → y < 2 ^ w → x % 2 ^ w ≡ y
cast w p h = ap (λ (t : ℕ). t % 2 ^ w) p ∙ mod-eq_of_lt h

-- A field of a packet whose value is known.
pub field-eq :
    (bytes : Bytes) (before w behind x : ℕ)
    → All IsByte bytes
    → before + w + behind ≡ 8 * length bytes
    → 0 < w
    → be_value bytes / 2 ^ behind % 2 ^ w ≡ x
    → (parse_uint (slice (bit_string bytes) before (before + w)) 2 w).0 ≡ x
field-eq bytes before w behind x hb size pos e =
    ap (λ (r : Parsed). r.0) (parse_uint-field bytes before w behind hb size pos) ∙ e
