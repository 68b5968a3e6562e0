-- ===== src/Config.antt =====
-- proxy/stream/config/config.go: the settings of a stream, from the environment (`none` for a variable
-- that is not set).
use streamweaver.Prelude.{
  ℕ, Bool, true, ◌&&◌, Option, none, some, Text, bytes, ℤ, pos, leb_ℤ, atoi, if◌then◌else◌,
}

abbrev pub LookupEnv : Type 0
LookupEnv = Text → Option Text

-- `initial_backoff` is in nanoseconds.
pub record StreamConfig : Type 0 where
  pub shared_buffer_size : ℤ
  pub chunk_size : ℕ
  pub timeout_seconds : ℤ
  pub initial_backoff : ℤ
  pub max_retries : ℤ

-- The value of a variable that is a number, and passes the test; the default otherwise.
unfoldable pub int_variable : (ℤ → Bool) → ℤ → Option Text → ℤ
unfolding atoi
int_variable test default none = default
int_variable test default (some s) =
    let (n, valid) = atoi s in if valid && test n then n else default

unfoldable pub new_default_stream_config : LookupEnv → StreamConfig
unfolding int_variable
new_default_stream_config env = record {
  shared_buffer_size = int_variable (λ n. leb_ℤ (pos 0) n) (pos 8) (env (bytes "BUFFER_CHUNK_NUM"));
  chunk_size = 1048576;
  timeout_seconds = int_variable (λ n. leb_ℤ (pos 0) n) (pos 3) (env (bytes "STREAM_TIMEOUT"));
  initial_backoff = pos 200000000;
  max_retries = int_variable (λ n. true) (pos 5) (env (bytes "MAX_RETRIES"));
}

-- proxy/loadbalancer/config.go
pub record LbConfig : Type 0 where
  pub max_retries : ℤ
  pub retry_wait : ℤ

pub new_default_lb_config : LookupEnv → LbConfig
unfolding int_variable
new_default_lb_config env = record {
  max_retries = int_variable (λ n. true) (pos 5) (env (bytes "MAX_RETRIES"));
  retry_wait = int_variable (λ n. true) (pos 0) (env (bytes "RETRY_WAIT"));
}
