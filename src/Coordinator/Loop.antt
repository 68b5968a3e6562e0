-- ===== src/Coordinator/Loop.antt =====
-- readAndWriteStream of proxy/stream/buffer/coordinator.go, as a step for each turn of the loop, and
-- StartMediaWriter of proxy/stream/buffer/coordinator_media.go around it.
use streamweaver.Prelude.{
  ℕ, suc, Bool, true, false, ◌&&◌, ◌||◌, Option, none, some, List, [], ◌∷◌, Text, bytes, ℤ, pos,
  ◌-ℤ◌, ◌*ℤ◌, wrap64, ltb_ℤ, leb_ℤ, eqb_ℤ, ltb, not, is_empty, if◌then◌else◌,
}
use streamweaver.Config.{StreamConfig}
use streamweaver.Backoff.{BackoffStrategy, new_backoff_strategy, next}
use streamweaver.Backoff
use streamweaver.LoadBalancer.{LoadBalancerResult}
use streamweaver.Store.{ConcurrencyManager, Getenv, update_concurrency}
use streamweaver.Coordinator.{
  Failure, eof, canceled, failure, StreamCoordinator, is_active, new_chunk_data, ChunkData, write,
  write_error, status_client_closed, status_eof, status_server_error,
}

abbrev pub second : ℤ
second = pos 1000000000

unfoldable pub get_timeout_duration : StreamConfig → ℤ
unfolding wrap64 ◌*ℤ◌
get_timeout_duration cfg =
    if eqb_ℤ cfg.timeout_seconds (pos 0)
    then pos 60000000000
    else wrap64 (cfg.timeout_seconds *ℤ second)

unfoldable pub should_timeout : StreamConfig → ℕ → ℕ → Bool
unfolding get_timeout_duration ◌-ℤ◌
should_timeout cfg last_success now =
    ltb_ℤ (pos 0) cfg.timeout_seconds
    && leb_ℤ (get_timeout_duration cfg) (pos now -ℤ pos last_success)

unfoldable pub should_retry : StreamConfig → Bool
unfolding get_timeout_duration
should_retry cfg = eqb_ℤ cfg.timeout_seconds (pos 0) || ltb_ℤ (pos 0) (get_timeout_duration cfg)

abbrev pub timed_out : Failure
timed_out = failure (bytes "stream timeout: no new segments")

-- A turn: what the other users of the coordinator have done since the last one, the error of the
-- context if it is done, what the read gives, and the times of the test, the read and the end.
pub record Turn : Type 0 where
  pub others : StreamCoordinator → StreamCoordinator
  pub done : Option Failure
  pub bytes_read : Text
  pub error : Option Failure
  pub tested_at : ℕ
  pub read_at : ℕ
  pub ended_at : ℕ

-- The loop's variables. The counts that only the log shows are left out.
pub record LoopState : Type 0 where
  pub last_success : ℕ
  pub last_err : ℕ
  pub zero_reads : ℕ
  pub backoff : BackoffStrategy

unfoldable pub new_loop : StreamConfig → ℕ → LoopState
unfolding wrap64 ◌*ℤ◌ ◌-ℤ◌
new_loop cfg now = record {
  last_success = now;
  last_err = now;
  zero_reads = 0;
  backoff =
      new_backoff_strategy cfg.initial_backoff (wrap64 ((cfg.timeout_seconds -ℤ pos 1) *ℤ second));
}

-- The loop goes on, or returns an error or nil.
pub data Progress : Type 0 where
  going : LoopState → StreamCoordinator → Progress
  left : Option Failure → StreamCoordinator → Progress

-- What `processChunk` does with the bytes, at a time.
abbrev pub Process : Type 0
Process = ℕ → Text → StreamCoordinator → StreamCoordinator × Option Failure

module _ (cfg : StreamConfig) (process : Process) where
  -- The backoff starts anew a second after the last error.
  unfoldable pub settle : ℕ → LoopState → LoopState
  unfolding ◌-ℤ◌
  settle now l =
      if leb_ℤ second (pos now -ℤ pos l.last_err)
      then record l { backoff = streamweaver.Backoff.reset l.backoff; last_err = now }
      else l

  unfoldable pub retry : ℕ → Failure → LoopState → StreamCoordinator → Progress
  unfolding should_retry
  retry now e l c =
      if should_retry cfg
      then going (record l { backoff = (next l.backoff).1; last_err = now }) c
      else left (some e) c

  -- The result of processing, where the loop goes on as `l`, or returns `e`.
  unfoldable pub processed :
      Option LoopState → Option Failure → StreamCoordinator × Option Failure → Progress
  processed l e (c, some e') = left (some e') c
  processed none e (c, none) = left e c
  processed (some l) e (c, none) = going l c

  -- A read that gave some bytes. With an error other than EOF they are not processed.
  unfoldable pub on_data : Turn → LoopState → StreamCoordinator → Progress
  unfolding settle retry processed
  on_data t l c =
      let l' = record l { last_success = t.read_at; zero_reads = 0 } in
      elim t.error [
        | none ↦ processed (some (settle t.ended_at l')) none (process t.read_at t.bytes_read c)
        | some eof ↦ processed none (some eof) (process t.read_at t.bytes_read c)
        | some canceled ↦ retry t.ended_at canceled l' c
        | some (failure e) ↦ retry t.ended_at (failure e) l' c
      ]

  -- A read that gave nothing, whatever its error.
  unfoldable pub on_empty : LoopState → StreamCoordinator → Progress
  on_empty l c =
      if ltb 10 (suc l.zero_reads)
      then left (some eof) c
      else going (record l { zero_reads = suc l.zero_reads }) c

  unfoldable pub on_turn : Turn → LoopState → StreamCoordinator → Progress
  unfolding should_timeout on_data on_empty is_empty
  on_turn t l c = if not (is_active c.state) then left none c else elim t.done [
    | some e ↦ left (some e) c
    | none ↦
        if should_timeout cfg l.last_success t.tested_at
        then left (some timed_out) c
        else if is_empty t.bytes_read
        then on_empty l c
        else on_data t l c
  ]

  unfoldable pub turn : Turn → LoopState → StreamCoordinator → Progress
  unfolding on_turn
  turn t l c = on_turn t l (t.others c)

  unfoldable pub turns : List Turn → LoopState → StreamCoordinator → Progress
  unfolding turn
  turns [] l c = going l c
  turns (t ∷ ts) l c = elim (turn t l c) [ going l' c' ↦ turns ts l' c' | left e c' ↦ left e c' ]

unfoldable pub read_and_write_stream :
    StreamConfig → Process → ℕ → List Turn → StreamCoordinator → Progress
unfolding new_loop turns
read_and_write_stream cfg process now ts c = turns cfg process ts (new_loop cfg now) c

-- `==` on two errors of the three kinds; two that are made anew differ.
abbrev pub same_failure : Option Failure → Failure → Bool
same_failure (some eof) eof = true
same_failure (some canceled) canceled = true
same_failure _ _ = false

unfoldable pub media_chunk : ℕ → Text → ChunkData
unfolding new_chunk_data
media_chunk now b = record new_chunk_data { buffer = some b; timestamp = now }

-- A chunk that is refused is dropped.
unfoldable pub write_media : Process
unfolding write media_chunk
write_media now b c = ((write (some (media_chunk now b)) c).0, none)

-- What the writer does to the coordinator when its loop has returned: `ctx_err` is the context's error
-- by then. The case for a timeout compares with an error made anew, and never holds.
unfoldable pub close_media : Option Failure → ℕ → Progress → StreamCoordinator
unfolding write_error
close_media ctx_err now (going l c) = c
close_media ctx_err now (left none c) = c
close_media ctx_err now (left (some e) c) =
    if same_failure ctx_err e then write_error (some e) status_client_closed now c else elim e [
      | eof ↦ write_error (some eof) status_eof now c
      | canceled ↦ write_error (some canceled) status_server_error now c
      | failure s ↦ write_error (some (failure s)) status_server_error now c
    ]

-- The coordinator with the writer on, and the manager with the connection that it counts.
unfoldable pub open_media :
    Getenv
    → LoadBalancerResult
    → StreamCoordinator × ConcurrencyManager
    → StreamCoordinator × ConcurrencyManager
open_media env result (c, cm) = (
  record c { lb_result_on_write = some result; writer_resp_header = some result.response.header },
  update_concurrency env cm result.index true,
)

-- The manager, which other writers use in the meantime, is `cm'` at the end.
unfoldable pub start_media_writer :
    Getenv
    → StreamConfig
    → LoadBalancerResult
    → ℕ
    → List Turn
    → Option Failure
    → ℕ
    → StreamCoordinator × ConcurrencyManager
    → (ConcurrencyManager → ConcurrencyManager)
    → StreamCoordinator × ConcurrencyManager
unfolding open_media read_and_write_stream close_media write_media
start_media_writer env cfg result now ts ctx_err ended_at s meantime =
    let (c, cm) = open_media env result s in
    let c' = close_media ctx_err ended_at (read_and_write_stream cfg write_media now ts c) in
    (
      record c' { lb_result_on_write = none },
      update_concurrency env (meantime cm) result.index false,
    )
