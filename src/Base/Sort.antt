-- ===== src/Base/Sort.antt =====
-- `sort.Slice` and `sort.Strings` as insertion sort: on elements of which the test tells any two
-- different ones apart, every sorting algorithm gives the same list.
use Prim.Native.Nat.{suc}
use mathlib.Core.Path.{◌≡◌, refl, sym, ap, ap₂, ◌∙◌}
use mathlib.Core.Logic.{◌⊎◌, inl, inr}
use mathlib.Core.Bool.{Bool, true, false}
use mathlib.Core.List.{List, [], ◌∷◌, map, Permᴰ, Memᴰ}
use mathlib.Core.List.Permᴰ
use native.Mathlib.Omega.{arith}
use rtlamr.Base.Tests.{ltb, ◌==◌, if◌then◌else◌, Bool-cases}
use rtlamr.Base.Lists.{keep, length}
use rtlamr.Base.Text.{Bytes}

module _ {ℓ} {A : Type ℓ} (lt : A → A → Bool) where
  pub insert : A → List A → List A
  insert x [] = x ∷ []
  insert x (y ∷ ys) = let rest = insert x ys in if lt y x then y ∷ rest else x ∷ y ∷ ys

  unfoldable pub sort : List A → List A
  unfolding insert
  sort [] = []
  sort (x ∷ xs) = insert x (sort xs)

  abbrev pub Told : A → A → Type ℓ
  Told x y = (x ≡ y) ⊎ (lt x y ≡ true) ⊎ (lt y x ≡ true)

  -- Any two elements of the list are equal or told apart.
  abbrev pub AllTold : List A → Type ℓ
  AllTold l = (x y : A) → Memᴰ x l → Memᴰ y l → Told x y

mem_perm {ℓ} : {A : Type ℓ} {l r : List A} (x : A) → Permᴰ l r → Memᴰ x r → Memᴰ x l
mem_perm x Permᴰ.nil h = h
mem_perm x (Permᴰ.cons e d) (Memᴰ.head p) = Memᴰ.head (p ∙ sym e)
mem_perm x (Permᴰ.cons e d) (Memᴰ.tail h) = Memᴰ.tail (mem_perm x d h)
mem_perm x (Permᴰ.swap e e') (Memᴰ.head p) = Memᴰ.tail (Memᴰ.head (p ∙ sym e'))
mem_perm x (Permᴰ.swap e e') (Memᴰ.tail (Memᴰ.head p)) = Memᴰ.head (p ∙ sym e)
mem_perm x (Permᴰ.swap e e') (Memᴰ.tail (Memᴰ.tail h)) = Memᴰ.tail (Memᴰ.tail h)
mem_perm x (Permᴰ.trans d d') h = mem_perm x d (mem_perm x d' h)

pub length-perm {ℓ} : {A : Type ℓ} {l r : List A} → Permᴰ l r → length l ≡ length r
length-perm Permᴰ.nil = refl
length-perm (Permᴰ.cons e d) = ap suc (length-perm d)
length-perm (Permᴰ.swap e e') = refl
length-perm (Permᴰ.trans d d') = length-perm d ∙ length-perm d'

pub perm-map {ℓ κ} :
    {A : Type ℓ} {B : Type κ} (f : A → B) {l r : List A} → Permᴰ l r → Permᴰ (map f l) (map f r)
perm-map f Permᴰ.nil = Permᴰ.nil
perm-map f (Permᴰ.cons e d) = Permᴰ.cons (ap f e) (perm-map f d)
perm-map f (Permᴰ.swap e e') = Permᴰ.swap (ap f e) (ap f e')
perm-map f (Permᴰ.trans d d') = Permᴰ.trans (perm-map f d) (perm-map f d')

pub perm-keep {ℓ} :
    {A : Type ℓ} (p : A → Bool) {l r : List A} → Permᴰ l r → Permᴰ (keep p l) (keep p r)
perm-keep p Permᴰ.nil = Permᴰ.nil
perm-keep p (Permᴰ.cons {a = a} {b = b} e d) = elim (Bool-cases (p a)) [
  | inl h ↦ let k : p b ≡ true = ap p (sym e) ∙ h in rw (h, k) (Permᴰ.cons e (perm-keep p d))
  | inr h ↦ let k : p b ≡ false = ap p (sym e) ∙ h in rw (h, k) (perm-keep p d)
]
perm-keep p (Permᴰ.swap {a = a} {b = b} {a' = a'} {b' = b'} {l = l} e e') =
    rw (← e, ← e') (both (p a) (p b) refl refl)
  where
    both : (s t : Bool) → p a ≡ s → p b ≡ t → Permᴰ (keep p (a ∷ b ∷ l)) (keep p (b ∷ a ∷ l))
    both true true h k = rw (h, k) (Permᴰ.swap refl refl)
    both true false h k = rw (h, k) (Permᴰ.refl _)
    both false true h k = rw (h, k) (Permᴰ.refl _)
    both false false h k = rw (h, k) (Permᴰ.refl _)
perm-keep p (Permᴰ.trans d d') = Permᴰ.trans (perm-keep p d) (perm-keep p d')

module _ {ℓ} {A : Type ℓ} (lt : A → A → Bool) (asym : (x y : A) → lt x y ≡ true → lt y x ≡ false)
    (trans : (x y z : A) → lt x y ≡ true → lt y z ≡ true → lt x z ≡ true) where
  insert_lt :
      (x y : A) (l : List A)
      → lt x y ≡ true
      → insert lt x (insert lt y l) ≡ insert lt y (insert lt x l)
  unfolding insert
  insert_lt x y [] h = rw (asym x y h, h) refl
  insert_lt x y (z ∷ zs) h = ground (arith, insert_lt x y zs h, asym x y h, trans z x y)

  insert_comm :
      (x y : A) (l : List A)
      → Told lt x y
      → insert lt x (insert lt y l) ≡ insert lt y (insert lt x l)
  insert_comm x y l (inl e) = rw e refl
  insert_comm x y l (inr (inl h)) = insert_lt x y l h
  insert_comm x y l (inr (inr h)) = sym (insert_lt y x l h)

  -- Sorting forgets the order of its argument.
  pub sort-perm : {l r : List A} → Permᴰ l r → AllTold lt l → sort lt l ≡ sort lt r
  unfolding sort
  sort-perm Permᴰ.nil h = refl
  sort-perm (Permᴰ.cons {a = a} e d) h =
      ap₂ (insert lt) e (sort-perm d (λ x y hx hy. h x y (Memᴰ.tail hx) (Memᴰ.tail hy)))
  sort-perm (Permᴰ.swap {a = a} {b = b} {l = l} e e') h =
      insert_comm a b (sort lt l) (h a b (Memᴰ.head refl) (Memᴰ.tail (Memᴰ.head refl)))
      ∙ ap₂ (λ x y. insert lt x (insert lt y (sort lt l))) e' e
  sort-perm (Permᴰ.trans d d') h =
      sort-perm d h ∙ sort-perm d' (λ x y hx hy. h x y (mem_perm x d hx) (mem_perm y d hy))

-- The order of Go's strings.
unfoldable pub bytes_lt : Bytes → Bytes → Bool
bytes_lt xs [] = false
bytes_lt [] (y ∷ ys) = true
bytes_lt (x ∷ xs) (y ∷ ys) = let rest = bytes_lt xs ys in if x == y then rest else ltb x y

pub bytes_lt_asym : (s t : Bytes) → bytes_lt s t ≡ true → bytes_lt t s ≡ false
unfolding bytes_lt
bytes_lt_asym [] [] h = refl
bytes_lt_asym (x ∷ xs) [] h = cc
bytes_lt_asym [] (y ∷ ys) h = refl
bytes_lt_asym (x ∷ xs) (y ∷ ys) h = ground (arith, bytes_lt_asym xs ys)

pub bytes_lt_trans :
    (s t u : Bytes) → bytes_lt s t ≡ true → bytes_lt t u ≡ true → bytes_lt s u ≡ true
unfolding bytes_lt
bytes_lt_trans s [] u h k = ground arith
bytes_lt_trans s (y ∷ ys) [] h k = cc
bytes_lt_trans [] (y ∷ ys) (z ∷ zs) h k = refl
bytes_lt_trans (x ∷ xs) (y ∷ ys) (z ∷ zs) h k = ground (arith, bytes_lt_trans xs ys zs)

pub bytes_lt-Told : (s t : Bytes) → Told bytes_lt s t
unfolding bytes_lt
bytes_lt-Told [] [] = inl refl
bytes_lt-Told (x ∷ xs) [] = inr (inr refl)
bytes_lt-Told [] (y ∷ ys) = inr (inl refl)
bytes_lt-Told (x ∷ xs) (y ∷ ys) = ground (arith, bytes_lt-Told xs ys)
