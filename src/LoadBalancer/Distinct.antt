-- ===== src/LoadBalancer/Distinct.antt =====
-- Lists of texts without repetition.
use mathlib.Core.List.{Perm, Permᴰ}
use mathlib.Core.Logic.{∥∥₁_elim}
use streamweaver.Prelude.{
  suc, ◌≤◌, ◌<◌, ◌≡◌, refl, ap, ◌∙◌, true, false, ◌||◌, List, [], ◌∷◌, arith, Text, text_eq,
  text_eq_iff, contains, length, All, if◌then◌else◌,
}

-- No text is in the list twice.
abbrev pub IsDistinct : List Text → Type 0
IsDistinct [] = Unit
IsDistinct (x ∷ xs) = (contains xs x ≡ false) × IsDistinct xs

Permᴰ-contains : {xs ys : List Text} (t : Text) → Permᴰ xs ys → contains xs t ≡ contains ys t
unfolding contains
Permᴰ-contains t Permᴰ.nil = refl
Permᴰ-contains t (Permᴰ.cons {a} {b} e p) = rw e (ap (λ x. text_eq b t || x) (Permᴰ-contains t p))
Permᴰ-contains t (Permᴰ.swap e f) = ground (arith, e, f)
Permᴰ-contains t (Permᴰ.trans p q) = Permᴰ-contains t p ∙ Permᴰ-contains t q

Permᴰ-length : {xs ys : List Text} → Permᴰ xs ys → length xs ≡ length ys
Permᴰ-length Permᴰ.nil = refl
Permᴰ-length (Permᴰ.cons e p) = ap suc (Permᴰ-length p)
Permᴰ-length (Permᴰ.swap e f) = refl
Permᴰ-length (Permᴰ.trans p q) = Permᴰ-length p ∙ Permᴰ-length q

Permᴰ-IsDistinct : {xs ys : List Text} → Permᴰ xs ys → IsDistinct xs → IsDistinct ys
unfolding contains
Permᴰ-IsDistinct Permᴰ.nil d = tt
Permᴰ-IsDistinct (Permᴰ.cons {a} {b} e p) d =
    (ground (arith, e, Permᴰ-contains b p, d.0), Permᴰ-IsDistinct p d.1)
Permᴰ-IsDistinct (Permᴰ.swap {a} {b} e f) d = ground (arith, e, f, text_eq_iff a b, text_eq_iff b a)
Permᴰ-IsDistinct (Permᴰ.trans p q) d = Permᴰ-IsDistinct q (Permᴰ-IsDistinct p d)

IsDistinct-IsProp : (xs : List Text) → IsProp (IsDistinct xs)
IsDistinct-IsProp [] = hlevel
IsDistinct-IsProp (x ∷ xs) = let tail : IsProp (IsDistinct xs) = IsDistinct-IsProp xs in hlevel

pub Perm-contains : {xs ys : List Text} (t : Text) → Perm xs ys → contains xs t ≡ contains ys t
Perm-contains t p = ∥∥₁_elim p (hlevel) (Permᴰ-contains t)

pub Perm-length : {xs ys : List Text} → Perm xs ys → length xs ≡ length ys
Perm-length p = ∥∥₁_elim p (hlevel) Permᴰ-length

pub Perm-IsDistinct : {xs ys : List Text} → Perm xs ys → IsDistinct xs → IsDistinct ys
Perm-IsDistinct {xs} {ys} p d = ∥∥₁_elim p (IsDistinct-IsProp ys) (λ q. Permᴰ-IsDistinct q d)

-- The list without the text.
drop_text : Text → List Text → List Text
drop_text t [] = []
drop_text t (x ∷ xs) = let rest = drop_text t xs in if text_eq x t then rest else x ∷ rest

contains-drop :
    (t u : Text) (xs : List Text)
    → text_eq t u ≡ false
    → contains (drop_text t xs) u ≡ contains xs u
unfolding contains drop_text
contains-drop t u [] n = refl
contains-drop t u (x ∷ xs) n =
    ground (arith, contains-drop t u xs n, text_eq_iff x t, text_eq_iff x u, text_eq_iff t u)

length-drop-le : (t : Text) (xs : List Text) → length (drop_text t xs) ≤ length xs
unfolding drop_text
length-drop-le t [] = omega arith
length-drop-le t (x ∷ xs) = ground (arith, length-drop-le t xs)

length-drop-lt :
    (t : Text) (xs : List Text) → contains xs t ≡ true → length (drop_text t xs) < length xs
unfolding contains drop_text
length-drop-lt t [] h = ground arith
length-drop-lt t (x ∷ xs) h = ground (arith, length-drop-lt t xs, length-drop-le t xs)

contained-drop :
    (x : Text) (xs ys : List Text)
    → contains xs x ≡ false
    → All (λ t. contains ys t ≡ true) xs
    → All (λ t. contains (drop_text x ys) t ≡ true) xs
unfolding contains
contained-drop x [] ys n h = tt
contained-drop x (y ∷ xs) ys n h = (
  ground (arith, contains-drop x y ys, text_eq_iff x y, text_eq_iff y x),
  contained-drop x xs ys (ground arith) h.1,
)

-- Distinct texts that are all in a list are no more than its entries.
pub length-distinct-le :
    (xs ys : List Text) → IsDistinct xs → All (λ t. contains ys t ≡ true) xs → length xs ≤ length ys
length-distinct-le [] ys d h = omega arith
length-distinct-le (x ∷ xs) ys d h = omega (
  arith,
  length-distinct-le xs (drop_text x ys) d.1 (contained-drop x xs ys d.0 h.1),
  length-drop-lt x ys h.0,
)
