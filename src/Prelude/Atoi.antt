-- ===== src/Prelude/Atoi.antt =====
-- strconv.Atoi on a 64-bit machine: the value and whether there was no error. A text that is no
-- number gives 0, and a number out of range the nearest int, both with an error.
use Prim.Native.Nat.{ℕ, ◌+◌, ◌-◌, ◌*◌}
use mathlib.Core.Path.{◌≡◌, refl}
use mathlib.Core.Bool.{Bool, true, false, ◌&&◌}
use mathlib.Core.List.{[], ◌∷◌}
use streamweaver.Prelude.Tests.{◌==◌, leb, ltb, if◌then◌else◌}
use streamweaver.Prelude.Int.{ℤ, pos, negsuc, sub_ℕ}
use streamweaver.Prelude.Strings.{Text, bytes}

-- What ParseUint found: a character that is no digit, a value beyond a uint64, or the value.
pub data Scan : Type 0 where
  syntax range : Scan
  value : ℕ → Scan

abbrev uint64_top : ℕ
uint64_top = 18446744073709551615

abbrev int64_cut : ℕ
int64_cut = 9223372036854775808

-- The loop of ParseUint with base 10: the test on `n` comes before the product.
scan : ℕ → Text → Scan
scan n [] = value n
scan n (c ∷ s) =
    let rest = scan (n * 10 + (c - 48)) s in
    if leb 48 c && leb c 57
    then if leb 1844674407370955162 n
      then range
      else if ltb uint64_top (n * 10 + (c - 48))
      then range
      else rest
    else syntax

unsigned : Text → Scan
unfolding scan
unsigned [] = syntax
unsigned (c ∷ s) = scan 0 (c ∷ s)

abbrev positive : Scan → ℤ × Bool
positive syntax = (pos 0, false)
positive range = (pos (int64_cut - 1), false)
positive (value n) = if leb int64_cut n then (pos (int64_cut - 1), false) else (pos n, true)

abbrev negative : Scan → ℤ × Bool
negative syntax = (pos 0, false)
negative range = (sub_ℕ 0 int64_cut, false)
negative (value n) = if ltb int64_cut n then (sub_ℕ 0 int64_cut, false) else (sub_ℕ 0 n, true)

unfoldable pub atoi : Text → ℤ × Bool
unfolding unsigned
atoi [] = (pos 0, false)
atoi (c ∷ s) =
    if c == b'+'
    then positive (unsigned s)
    else if c == b'-'
    then negative (unsigned s)
    else positive (unsigned (c ∷ s))

atoi_plain : atoi (bytes "42") ≡ (pos 42, true)
unfolding atoi
atoi_plain = refl

atoi_minus : atoi (bytes "-7") ≡ (negsuc 6, true)
unfolding atoi
atoi_minus = refl

atoi_huge : atoi (bytes "9223372036854775808") ≡ (pos 9223372036854775807, false)
unfolding atoi
atoi_huge = refl

atoi_word : atoi (bytes "12a") ≡ (pos 0, false)
unfolding atoi
atoi_word = refl
