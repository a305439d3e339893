-- ===== src/R900/Gf/Field32.antt =====
-- The field of the R900 protocol: order 32, polynomial 37, generator 2.
use rtlamr.Base.{
  ℕ, zero, suc, ◌%◌, ◌<◌, [], ◌∷◌, Bool, true, false, not, ◌&&◌, ◌||◌, ◌==◌, ==_iff, ltb, ltb→lt,
  get_elem?, Option, none, some, ◌>>=◌, ◌≡◌, ◌≢◌, refl, ap, ◌∙◌, arith, Bool-cases, inl, inr,
}
use rtlamr.R900.Gf.{Field, nbit, poly_div, reducible, new_field, mul_poly, exp, inv, mul}

-- What `NewField` makes for it.
abbrev pub gf32 : Field
gf32 = record {
  order = 31;
  log =
      31 ∷ 0 ∷ 1 ∷ 18 ∷ 2 ∷ 5 ∷ 19 ∷ 11 ∷ 3 ∷ 29 ∷ 6 ∷ 27 ∷ 20 ∷ 8 ∷ 12 ∷ 23 ∷ 4 ∷ 10 ∷ 30 ∷ 17 ∷ 7
      ∷ 22 ∷ 28 ∷ 26 ∷ 21 ∷ 25 ∷ 9 ∷ 16 ∷ 13 ∷ 14 ∷ 24 ∷ 15 ∷ [];
  exp =
      1 ∷ 2 ∷ 4 ∷ 8 ∷ 16 ∷ 5 ∷ 10 ∷ 20 ∷ 13 ∷ 26 ∷ 17 ∷ 7 ∷ 14 ∷ 28 ∷ 29 ∷ 31 ∷ 27 ∷ 19 ∷ 3 ∷ 6 ∷ 12
      ∷ 24 ∷ 21 ∷ 15 ∷ 30 ∷ 25 ∷ 23 ∷ 11 ∷ 22 ∷ 9 ∷ 18 ∷ 1 ∷ 2 ∷ 4 ∷ 8 ∷ 16 ∷ 5 ∷ 10 ∷ 20 ∷ 13 ∷ 26
      ∷ 17 ∷ 7 ∷ 14 ∷ 28 ∷ 29 ∷ 31 ∷ 27 ∷ 19 ∷ 3 ∷ 6 ∷ 12 ∷ 24 ∷ 21 ∷ 15 ∷ 30 ∷ 25 ∷ 23 ∷ 11 ∷ 22
      ∷ 9 ∷ 18 ∷ [];
}

pub new_field-gf32 : new_field 32 37 2 ≡ some gf32
unfolding new_field reducible nbit poly_div mul_poly
new_field-gf32 = refl

-- A test that every number below a bound passes.
unfoldable pub every_below : ℕ → (ℕ → Bool) → Bool
every_below zero test = true
every_below (suc bound) test = every_below bound test && test bound

pub below : (n : ℕ) (p : ℕ → Bool) → every_below n p ≡ true → (x : ℕ) → x < n → p x ≡ true
unfolding every_below
below zero p h x lt = absurd (omega arith)
below (suc n) p h x lt = elim (Bool-cases (x == n)) [
  | inl e ↦ ap p ((==_iff x n).0 e) ∙ both.0
  | inr e ↦ below n p both.1 x (ground arith)
]
  where
    both : (p n ≡ true) × (every_below n p ≡ true)
    both = ground arith

-- Whether a result is a value.
unfoldable pub is_value : Option ℕ → ℕ → Bool
is_value none v = false
is_value (some r) v = r == v

pub value : (o : Option ℕ) (v : ℕ) → is_value o v ≡ true → o ≡ some v
unfolding is_value
value none v h = cc
value (some r) v h = ap some ((==_iff r v).0 h)

mul_test : ℕ → ℕ → Bool
mul_test x y = is_value (mul gf32 x y) (mul_poly x y 32 37) && (ltb (mul_poly x y 32 37) 32)

inv_test : ℕ → Bool
inv_test x = (x == 0) || is_value (inv gf32 x >>= mul gf32 x) 1

exp_test : ℕ → Bool
exp_test e = elim (exp gf32 e) [ none ↦ false | some r ↦ ltb r 32 && not (r == 0) ]

mul_tests : every_below 32 (λ x. every_below 32 (mul_test x)) ≡ true
unfolding every_below mul_test is_value mul mul_poly
mul_tests = refl

inv_tests : every_below 32 inv_test ≡ true
unfolding every_below inv_test is_value inv mul
inv_tests = refl

exp_tests : every_below 31 exp_test ≡ true
unfolding every_below exp_test exp
exp_tests = refl

pub mul_total :
    (x y : ℕ)
    → x < 32
    → y < 32
    → (mul gf32 x y ≡ some (mul_poly x y 32 37)) × (mul_poly x y 32 37 < 32)
unfolding mul_test
mul_total x y hx hy =
    let both =
      below 32 (mul_test x) (below 32 (λ a. every_below 32 (mul_test a)) mul_tests x hx) y hy in
    let tests : (is_value (mul gf32 x y) (mul_poly x y 32 37) ≡ true)
        × (ltb (mul_poly x y 32 37) 32 ≡ true) =
      split both in
    (value (mul gf32 x y) (mul_poly x y 32 37) tests.0, ltb→lt _ 32 tests.1)
  where
    split :
        mul_test x y ≡ true
        → (is_value (mul gf32 x y) (mul_poly x y 32 37) ≡ true)
          × (ltb (mul_poly x y 32 37) 32 ≡ true)
    split h = ground arith

pub exp_total : (e : ℕ) → (r : ℕ) × (exp gf32 e ≡ some r) × (r < 32)
unfolding exp exp_test
exp_total e =
    go (exp gf32 e) refl (ap exp_value same ∙ below 31 exp_test exp_tests (e % 31) (omega arith))
  where
    exp_value : Option ℕ → Bool
    exp_value o = elim o [ none ↦ false | some r ↦ ltb r 32 && not (r == 0) ]

    same : exp gf32 e ≡ exp gf32 (e % 31)
    same = ap (get_elem? gf32.exp) (let e : e % 31 ≡ e % 31 % 31 = omega arith in e)

    go :
        (o : Option ℕ)
        → exp gf32 e ≡ o
        → exp_value o ≡ true
        → (r : ℕ) × (exp gf32 e ≡ some r) × (r < 32)
    go none at h = cc
    go (some r) at h = (r, at, ground arith)

-- `NewField` does not panic on the order, the polynomial and the generator of the protocol, and on
-- the field that it makes `Mul` by the tables is the product of polynomials reduced by 37, for all
-- elements.
pub mul-mul_poly :
    (x y : ℕ) → x < 32 → y < 32 → (new_field 32 37 2 >>= λ f. mul f x y) ≡ some (mul_poly x y 32 37)
mul-mul_poly x y hx hy = rw new_field-gf32 (mul_total x y hx hy).0

-- On that field every element but zero has an inverse: `Inv` gives an element whose product with
-- it by `Mul` is one.
pub mul-inv : (x : ℕ) → x < 32 → x ≢ 0 → (do f ← new_field 32 37 2; y ← inv f x; mul f x y) ≡ some 1
unfolding inv_test
mul-inv x hx ne = rw new_field-gf32 (value _ 1 (split (below 32 inv_test inv_tests x hx)))
  where
    split : inv_test x ≡ true → is_value (inv gf32 x >>= mul gf32 x) 1 ≡ true
    split h = ground arith
