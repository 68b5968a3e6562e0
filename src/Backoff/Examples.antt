-- ===== src/Backoff/Examples.antt =====
-- The backoff at the settings of the stream reader.
use streamweaver.Prelude.{pos, negsuc, ◌≤ℤ◌}
use streamweaver.Backoff.{new_backoff_strategy}
use streamweaver.Backoff.Delays.{delay, delay-le-max}

-- STREAM_TIMEOUT=0 gives a cap of minus one second.
delay-le-max_example :
    delay 2 (new_backoff_strategy (pos 200000000) (negsuc 999999999)) ≤ℤ negsuc 999999999
unfolding new_backoff_strategy
delay-le-max_example =
    delay-le-max 1 (new_backoff_strategy (pos 200000000) (negsuc 999999999)) (λ e. cc)
