-- ===== src/Coordinator/WriterExamples.antt =====
-- Writers of the small ring, on a few reads.
use streamweaver.Prelude.{
  ℕ, ◌≡◌, refl, true, false, Option, none, some, List, [], ◌∷◌, ◌++◌, map, arith, Text, bytes, pos,
  All, is_empty,
}
use streamweaver.Config.{StreamConfig}
use streamweaver.LoadBalancer.{LoadBalancerResult}
use streamweaver.Store.{new_concurrency_manager, get_count}
use streamweaver.Store.Counting.{run, open_after}
use streamweaver.Coordinator.{Failure, eof, failure, write_error, status_eof}
use streamweaver.Coordinator.Loop.{
  Turn, write_media, read_and_write_stream, close_media, start_media_writer, should_timeout,
}
use streamweaver.Coordinator.Writing.{writes}
use streamweaver.Coordinator.Pump.{IsQuiet, IsSteady, chunk_of}
use streamweaver.Coordinator.Media.{IsFinal, media-eof, media-count}
use streamweaver.Coordinator.Examples.{ring, ring-IsRing, ring_active}

abbrev cfg : StreamConfig
cfg = record {
  shared_buffer_size = pos 3;
  chunk_size = 16;
  timeout_seconds = pos 3;
  initial_backoff = pos 200;
  max_retries = pos 5;
}

-- A turn at the given time that reads the bytes, with the error.
abbrev quiet_turn : ℕ → Text → Option Failure → Turn
quiet_turn now b e = record {
  others = λ c. c;
  done = none;
  bytes_read = b;
  error = e;
  tested_at = now;
  read_at = now;
  ended_at = now;
}

quiet_turn-IsQuiet : (now : ℕ) (b : Text) (e : Option Failure) → IsQuiet (quiet_turn now b e)
quiet_turn-IsQuiet now b e = record { others_eq = λ c. refl; not_done = refl }

abbrev two_reads : List Turn
two_reads = quiet_turn 5 (bytes "a") none ∷ quiet_turn 6 (bytes "b") none ∷ []

two_reads-IsSteady : All IsSteady two_reads
unfolding is_empty
two_reads-IsSteady = (
  record { quiet = quiet_turn-IsQuiet 5 (bytes "a") none; has_bytes = refl; no_error = refl },
  (record { quiet = quiet_turn-IsQuiet 6 (bytes "b") none; has_bytes = refl; no_error = refl }, tt),
)

abbrev lost : Failure
lost = failure (bytes "connection reset")

last_read-IsFinal : IsFinal (quiet_turn 7 (bytes "c") (some eof))
unfolding is_empty
last_read-IsFinal = record {
  quiet = quiet_turn-IsQuiet 7 (bytes "c") (some eof);
  has_bytes = refl;
  at_end = refl;
}

media-eof_example :
    close_media none 8 (
      read_and_write_stream cfg write_media 4
        (two_reads ++ quiet_turn 7 (bytes "c") (some eof) ∷ [])
        ring)
    ≡ write_error
        (some eof)
        status_eof
        8
        (writes (map chunk_of (two_reads ++ quiet_turn 7 (bytes "c") (some eof) ∷ [])) ring)
unfolding should_timeout
media-eof_example =
    media-eof cfg two_reads (quiet_turn 7 (bytes "c") (some eof)) 4 8 ring ring-IsRing ring_active
      two_reads-IsSteady last_read-IsFinal (refl, (refl, (refl, tt)))

abbrev result : LoadBalancerResult
result = record {
  response = record { status_code = 200; header = []; request_path = none };
  url = bytes "u";
  index = bytes "1";
  sub_index = bytes "x";
}

media-count_example :
    get_count
      (start_media_writer
        (λ name. bytes "2")
        cfg
        result
        4
        two_reads
        none
        8
        (ring, run (λ name. bytes "2") new_concurrency_manager [])
        (λ cm. run (λ name. bytes "2") cm ((bytes "1", true) ∷ []))).1
      (bytes "1")
    ≡ some (
        pos (
          open_after 0
            (bytes "1")
            ((bytes "1", true) ∷ (bytes "1", true) ∷ (bytes "1", false) ∷ [])))
media-count_example =
    media-count (λ name. bytes "2") cfg result 4 two_reads none 8 ring [] ((bytes "1", true) ∷ [])
      (bytes "1") (omega arith)
