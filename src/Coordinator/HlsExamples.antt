-- ===== src/Coordinator/HlsExamples.antt =====
-- A playlist of one segment, polled three times.
use streamweaver.Prelude.{
  ℕ, ◌≡◌, refl, Bool, true, false, none, some, List, [], ◌∷◌, Text, bytes, Table, pos, negsuc,
  has_prefix, text_eq, is_empty, without, put, lookup,
}
use streamweaver.Config.{StreamConfig}
use streamweaver.Coordinator.{
  Failure, eof, StreamCoordinator, active, new_stream_coordinator, write, write_error, status_eof,
  new_chunk_data,
}
use streamweaver.Coordinator.Loop.{Turn, media_chunk, timed_out}
use streamweaver.Coordinator.HlsWriter.{
  Parser, PlaylistMetadata, new_metadata, parse_playlist, Tick, response, stopped, streamed,
  new_hls_loop, process_segments, is_late, hls_ticks,
}
use streamweaver.Coordinator.Polling.{IsQuietTick, hls_ticks-once}
use streamweaver.Coordinator.Examples.{ring, ring_active}

abbrev cfg : StreamConfig
cfg = record {
  shared_buffer_size = pos 3;
  chunk_size = 16;
  timeout_seconds = pos 3;
  initial_backoff = pos 200;
  max_retries = pos 5;
}

abbrev parser : Parser
parser = record {
  scan = λ text. (bytes "#EXTM3U" ∷ bytes "s1" ∷ [], true);
  scan_number = λ key line n. n;
  resolve = λ line. some line;
}

abbrev live_list : PlaylistMetadata
live_list = record {
  media_sequence = pos 0;
  version = pos 0;
  is_endlist = false;
  segments = bytes "s1" ∷ [];
  is_master = false;
}

abbrev one_read : Turn
one_read = record {
  others = λ c. c;
  done = none;
  bytes_read = bytes "x";
  error = some eof;
  tested_at = 5;
  read_at = 5;
  ended_at = 5;
}

abbrev tick_at : ℕ → Tick
tick_at now = record {
  others = λ c. c;
  done = false;
  ctx_error = false;
  tested_at = now;
  changed_at = now;
  interval = pos 1000000000;
  done_at = λ k. false;
  fetched = λ k url. response 200 [] 5 (one_read ∷ []);
}

tick_at-IsQuietTick : (now : ℕ) → IsQuietTick (tick_at now)
tick_at-IsQuietTick now = record { others_eq = λ c. refl; not_done = refl }

abbrev opened : StreamCoordinator
opened = record ring {
  writer_resp_header = some ((bytes "Content-Type", bytes "video/MP2T" ∷ []) ∷ []);
}

abbrev written : StreamCoordinator
written = (write (some (media_chunk 5 (bytes "x"))) opened).0

parsed : parse_playlist parser [] ≡ some live_list
unfolding parse_playlist new_metadata has_prefix text_eq is_empty streamweaver.Prelude.strip_prefix
parsed = refl

written_active : written.state ≡ active
unfolding write media_chunk new_chunk_data new_stream_coordinator streamweaver.Coordinator.is_error
    streamweaver.Coordinator.store
written_active = refl

processed_once :
    process_segments cfg (tick_at 6) 0 live_list.segments false ring ≡ streamed written true none
unfolding process_segments media_chunk write new_stream_coordinator is_empty text_eq
    streamweaver.Coordinator.Loop.should_timeout
processed_once = refl

hls_ticks-once_example :
    hls_ticks cfg parser
      (tick_at 6 ∷ tick_at 7 ∷ tick_at 5000000000 ∷ [])
      (new_hls_loop [] none 4)
      ring
    ≡ stopped (write_error (some timed_out) status_eof 5000000000 written)
unfolding is_late new_hls_loop
hls_ticks-once_example =
    hls_ticks-once cfg parser [] live_list parsed (record { no_master = refl; no_end = refl })
      (tick_at 6) (tick_at 7 ∷ []) (tick_at 5000000000) 4 ring written true ring_active
      (tick_at-IsQuietTick 6) refl refl processed_once written_active (tick_at-IsQuietTick 7, tt)
      (refl, tt) (tick_at-IsQuietTick 5000000000) refl
