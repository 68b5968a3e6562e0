-- ===== src/Backoff/Delays.antt =====
-- The sequence of delays.
use native.Mathlib.Nat.{pow-suc, pow-zero, one-le-pow, mul-le-mul_left}
use native.Mathlib.Decide.{dec_le}
use streamweaver.Prelude.{
  ℕ, zero, suc, ◌+◌, ◌*◌, ◌^◌, ◌≤◌, ◌<◌, min, ◌≡◌, refl, arith, ℤ, pos, ◌≢◌, ◌∙◌, ◌≤ℤ◌,
}
use streamweaver.Backoff.{BackoffStrategy, new_backoff_strategy, next, reset}

-- The strategy after `k` calls of Next.
pub after : ℕ → BackoffStrategy → BackoffStrategy
after zero b = b
after (suc k) b = after k (next b).1

pub delay : ℕ → BackoffStrategy → ℤ
delay k b = (next (after k b)).0

-- Half of the largest int64, below which a doubling does not wrap.
abbrev pub half_int64 : ℕ
half_int64 = 4611686018427387904

next-capped :
    (d m c : ℕ)
    → 0 < m
    → m < half_int64
    → c ≤ m
    → (next (record { initial = pos d; max = pos m; current = pos c })).1
      ≡ record { initial = pos d; max = pos m; current = pos (min (c + c) m) }
unfolding next
next-capped d m c h l le = ground arith

min_mul_min : (c m p : ℕ) → 1 ≤ p → min (min (c + c) m * p) m ≡ min (c * (p * 2)) m
min_mul_min c m p h = elim (dec_le (c + c) m) [
  | yes le ↦ let e : min (c + c) m ≡ c + c = omega arith in rw e (omega arith)
  | no gt ↦
      let e : min (c + c) m ≡ m = omega arith in
      let below : m * 1 ≤ m * p = mul-le-mul_left m h in
      let above : (c + c) * 1 ≤ (c + c) * p = mul-le-mul_left (c + c) h in rw e (omega arith)
]

after-capped :
    (k d m c : ℕ)
    → 0 < m
    → m < half_int64
    → c ≤ m
    → after k (record { initial = pos d; max = pos m; current = pos c })
      ≡ record { initial = pos d; max = pos m; current = pos (min (c * 2 ^ k) m) }
unfolding after
after-capped zero d m c h l le = ground (arith, pow-zero 2)
after-capped (suc k) d m c h l le =
    rw (next-capped d m c h l le, after-capped k d m (min (c + c) m) h l (omega arith))
      (ground (arith, min_mul_min c m (2 ^ k), one-le-pow k 2, pow-suc 2 k))

-- From a start of `d` with a cap of `m`, `0 < d ≤ m`, below half of the largest int64: the k-th delay
-- is `d` doubled k times, or the cap if that is less.
pub delay-new :
    (k d m : ℕ)
    → 0 < d
    → d ≤ m
    → m < half_int64
    → delay k (new_backoff_strategy (pos d) (pos m)) ≡ pos (min (d * 2 ^ k) m)
unfolding delay next new_backoff_strategy
delay-new k d m h le l = rw (delay, after-capped k d m d (omega arith) l le) (ground arith)

-- With a cap of 0 every delay is the first one.
pub delay_uncapped : (k : ℕ) (d : ℤ) → delay k (new_backoff_strategy d (pos 0)) ≡ d
unfolding delay next new_backoff_strategy after
delay_uncapped zero d = refl
delay_uncapped (suc k) d = delay_uncapped k d

next-max : (b : BackoffStrategy) → (next b).1.max ≡ b.max
unfolding next
next-max b = ground arith

next-le-max : (b : BackoffStrategy) → b.max ≢ pos 0 → (next b).1.current ≤ℤ b.max
unfolding next
next-le-max b h = ground arith

after-le-max :
    (k : ℕ) (b : BackoffStrategy)
    → b.max ≢ pos 0
    → b.current ≤ℤ b.max
    → (after k b).current ≤ℤ b.max
unfolding after
after-le-max zero b h le = le
after-le-max (suc k) b h le =
    let h' : (next b).1.max ≢ pos 0 = rw (next-max b) h in
    let le' : (next b).1.current ≤ℤ (next b).1.max = rw (next-max b) (next-le-max b h) in
    rw (next-max b) at (after-le-max k (next b).1 h' le')

after-max : (k : ℕ) (b : BackoffStrategy) → (after k b).max ≡ b.max
unfolding after
after-max zero b = refl
after-max (suc k) b = after-max k (next b).1 ∙ next-max b

next-current : (b : BackoffStrategy) → b.max ≢ pos 0 → (next b).0 ≡ b.current
unfolding next
next-current b h = ground arith

-- With a cap that is not 0, every delay but the first is at most the cap. So with a negative cap all
-- of them but the first are negative, and nothing waits.
pub delay-le-max : (k : ℕ) (b : BackoffStrategy) → b.max ≢ pos 0 → delay (suc k) b ≤ℤ b.max
unfolding delay after
delay-le-max k b h =
    let h' : (next b).1.max ≢ pos 0 = rw (next-max b) h in
    let h'' : (after k (next b).1).max ≢ pos 0 = rw (after-max k (next b).1, next-max b) h in
    let le : (next b).1.current ≤ℤ (next b).1.max = rw (next-max b) (next-le-max b h) in
    rw (next-current (after k (next b).1) h'')
      (rw (next-max b) at (after-le-max k (next b).1 h' le))

reset-capped :
    (d m c : ℕ)
    → 0 < m
    → reset (record { initial = pos d; max = pos m; current = pos c })
      ≡ new_backoff_strategy (pos d) (pos m)
unfolding reset new_backoff_strategy
reset-capped d m c h = ground arith

started :
    (j d m : ℕ)
    → 0 < d
    → d ≤ m
    → m < half_int64
    → after j (new_backoff_strategy (pos d) (pos m))
      ≡ record { initial = pos d; max = pos m; current = pos (min (d * 2 ^ j) m) }
unfolding new_backoff_strategy
started j d m h le l = after-capped j d m d (omega arith) l le

-- Reset starts the sequence over: whenever it is called, after `j` delays, the k-th delay from then on
-- is again the start doubled k times, or the cap (`0 < d ≤ m`, below half of the largest int64).
pub delay-reset :
    (j k d m : ℕ)
    → 0 < d
    → d ≤ m
    → m < half_int64
    → delay k (reset (after j (new_backoff_strategy (pos d) (pos m)))) ≡ pos (min (d * 2 ^ k) m)
delay-reset j k d m h le l =
    rw (started j d m h le l, reset-capped d m (min (d * 2 ^ j) m) (omega arith))
      (delay-new k d m h le l)
