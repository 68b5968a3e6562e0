-- ===== src/Backoff.antt =====
-- proxy/backoff.go: the wait between two tries, in nanoseconds. `Sleep` waits for `next`, or for the
-- end of its context, and is not modelled.
pub mod Delays
mod Examples
use streamweaver.Prelude.{ℤ, pos, ltb_ℤ, eqb_ℤ, ◌+ℤ◌, wrap64, if◌then◌else◌}

pub record BackoffStrategy : Type 0 where
  pub initial : ℤ
  pub max : ℤ
  pub current : ℤ

pub new_backoff_strategy : ℤ → ℤ → BackoffStrategy
new_backoff_strategy initial max = record { initial = initial; max = max; current = initial }

-- `b.current *= 2`, which wraps as an int64 does.
pub doubled : ℤ → ℤ
unfolding wrap64 ◌+ℤ◌
doubled d = wrap64 (d +ℤ d)

pub next : BackoffStrategy → ℤ × BackoffStrategy
unfolding doubled
next b = if eqb_ℤ b.max (pos 0) then (b.initial, b) else (
  b.current,
  record b { current = if ltb_ℤ b.max (doubled b.current) then b.max else doubled b.current },
)

pub reset : BackoffStrategy → BackoffStrategy
reset b = if ltb_ℤ (pos 0) b.max then record b { current = b.initial } else b
