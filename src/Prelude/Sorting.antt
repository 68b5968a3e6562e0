-- ===== src/Prelude/Sorting.antt =====
-- sort.Slice, of which the program uses that it permutes and orders; the order of equal entries is
-- not fixed.
use mathlib.Core.Path.{◌≡◌}
use mathlib.Core.Bool.{Bool, true, false}
use mathlib.Core.List.{List, [], ◌∷◌, Perm}
use mathlib.Core.List.Perm
use native.Mathlib.Omega.{arith}
use streamweaver.Prelude.Tests.{if◌then◌else◌, Bool-cases}
use streamweaver.Prelude.Int.{ℤ, ◌≤ℤ◌, ltb_ℤ}
use streamweaver.Prelude.Lists.{All}
use mathlib.Core.Logic.{inl, inr}

-- Each entry is in the relation to all that follow.
abbrev pub Ordered {ℓ} : {A : Type ℓ} → (A → A → Type 0) → List A → Type 0
Ordered R [] = Unit
Ordered R (x ∷ xs) = All (R x) xs × Ordered R xs

-- What sort.Slice asks of its test: a strict order whose incomparable entries are an equivalence.
pub record StrictOrder {A : Type 0} (less : A → A → Bool) : Type 0 where
  pub asym : (x y : A) → less x y ≡ true → less y x ≡ false
  pub trans : (x y z : A) → less y x ≡ false → less z y ≡ false → less z x ≡ false

-- `falling` is used with a test that compares the other way round.
pub record SliceSort (A : Type 0) : Type 0 where
  pub sort : (A → A → Bool) → List A → List A
  pub permutes : (less : A → A → Bool) (xs : List A) → Perm (sort less xs) xs
  pub rising :
      (f : A → ℤ) (xs : List A) → Ordered (λ a b. f a ≤ℤ f b) (sort (λ a b. ltb_ℤ (f a) (f b)) xs)
  pub falling :
      (f : A → ℤ) (xs : List A) → Ordered (λ a b. f b ≤ℤ f a) (sort (λ a b. ltb_ℤ (f b) (f a)) xs)
  pub orders :
      (less : A → A → Bool) (xs : List A)
      → StrictOrder less
      → Ordered (λ a b. less b a ≡ false) (sort less xs)

ltb_ℤ-true : (a b : ℤ) → ltb_ℤ a b ≡ true → a ≤ℤ b
ltb_ℤ-true a b h = ground arith

ltb_ℤ-false : (a b : ℤ) → ltb_ℤ a b ≡ false → b ≤ℤ a
ltb_ℤ-false a b h = ground arith

≤ℤ_trans : (a b c : ℤ) → a ≤ℤ b → b ≤ℤ c → a ≤ℤ c
≤ℤ_trans a b c h k = omega arith

-- Insertion sort, which sort.Slice runs on short slices.
module _ {A : Type 0} (less : A → A → Bool) where
  insert_by : A → List A → List A
  insert_by x [] = x ∷ []
  insert_by x (y ∷ ys) = let rest = insert_by x ys in if less y x then y ∷ rest else x ∷ y ∷ ys

  sort_by : List A → List A
  sort_by [] = []
  sort_by (x ∷ xs) = insert_by x (sort_by xs)

  insert_by-perm : (x : A) (ys : List A) → Perm (insert_by x ys) (x ∷ ys)
  unfolding insert_by
  insert_by-perm x [] = Perm.refl (x ∷ [])
  insert_by-perm x (y ∷ ys) =
      let rest : Perm (y ∷ insert_by x ys) (x ∷ y ∷ ys) =
        Perm.trans (Perm.cons y (insert_by-perm x ys)) (Perm.swap x y ys) in
      ground (arith, rest, Perm.refl (x ∷ y ∷ ys))

  sort_by-perm : (xs : List A) → Perm (sort_by xs) xs
  unfolding sort_by
  sort_by-perm [] = Perm.refl []
  sort_by-perm (x ∷ xs) = Perm.trans (insert_by-perm x (sort_by xs)) (Perm.cons x (sort_by-perm xs))

module _ {A : Type 0} (less : A → A → Bool) (R : A → A → Type 0)
    (up : (x y : A) → less y x ≡ true → R y x) (down : (x y : A) → less y x ≡ false → R x y)
    (R-trans : (x y z : A) → R x y → R y z → R x z) where
  insert_by-All : (a x : A) (ys : List A) → R a x → All (R a) ys → All (R a) (insert_by less x ys)
  unfolding insert_by
  insert_by-All a x [] h k = (h, tt)
  insert_by-All a x (y ∷ ys) h k = ground (arith, insert_by-All a x ys h k.1)

  All-before : (a b : A) (ys : List A) → R a b → All (R b) ys → All (R a) ys
  All-before a b [] h k = tt
  All-before a b (y ∷ ys) h k = (R-trans a b y h k.0, All-before a b ys h k.1)

  insert_by-Ordered : (x : A) (ys : List A) → Ordered R ys → Ordered R (insert_by less x ys)
  unfolding insert_by
  insert_by-Ordered x [] h = (tt, tt)
  insert_by-Ordered x (y ∷ ys) h = elim (Bool-cases (less y x)) [
    | inl lt ↦ rw lt (insert_by-All y x ys (up x y lt) h.0, insert_by-Ordered x ys h.1)
    | inr ge ↦ rw ge ((down x y ge, All-before x y ys (down x y ge) h.0), h)
  ]

  sort_by-Ordered : (xs : List A) → Ordered R (sort_by less xs)
  unfolding sort_by
  sort_by-Ordered [] = tt
  sort_by-Ordered (x ∷ xs) = insert_by-Ordered x (sort_by less xs) (sort_by-Ordered xs)

unfoldable pub insertion_sort : (A : Type 0) → SliceSort A
unfolding sort_by insert_by sort_by-perm sort_by-Ordered ltb_ℤ-true ltb_ℤ-false ≤ℤ_trans
    insert_by-perm insert_by-Ordered insert_by-All All-before
insertion_sort A = record {
  sort = sort_by;
  permutes = sort_by-perm;
  rising = λ f.
      sort_by-Ordered (λ a b. ltb_ℤ (f a) (f b)) (λ a b. f a ≤ℤ f b)
        (λ x y h. ltb_ℤ-true (f y) (f x) h) (λ x y h. ltb_ℤ-false (f y) (f x) h)
        (λ x y z. ≤ℤ_trans (f x) (f y) (f z));
  falling = λ f.
      sort_by-Ordered (λ a b. ltb_ℤ (f b) (f a)) (λ a b. f b ≤ℤ f a)
        (λ x y h. ltb_ℤ-true (f x) (f y) h) (λ x y h. ltb_ℤ-false (f x) (f y) h)
        (λ x y z h k. ≤ℤ_trans (f z) (f y) (f x) k h);
  orders = λ less xs o.
      sort_by-Ordered less (λ a b. less b a ≡ false) (λ x y h. o.asym y x h) (λ x y h. h)
        (λ x y z h k. o.trans x y z h k) xs;
}
