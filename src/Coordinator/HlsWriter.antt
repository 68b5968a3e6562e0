-- ===== src/Coordinator/HlsWriter.antt =====
-- proxy/stream/buffer/coordinator_m3u8.go: the writer of a stream that is a playlist of segments. A panic is left
-- out. The target duration of a playlist sets only the interval of the ticks, which each tick is given.
use streamweaver.Prelude.{
  ℕ, suc, Bool, true, false, ◌&&◌, ◌||◌, Option, none, some, List, [], ◌∷◌, ◌++◌, Text, bytes,
  Table, text_eq, has_prefix, is_empty, lookup, put, without, ℤ, pos, negsuc, ltb_ℤ, ◌+ℤ◌, ◌-ℤ◌,
  ◌*ℤ◌, wrap64, not, ◌==◌, if◌then◌else◌,
}
use streamweaver.Config.{StreamConfig}
use streamweaver.LoadBalancer.{LoadBalancerResult}
use streamweaver.Store.{ConcurrencyManager, Getenv, update_concurrency}
use streamweaver.Coordinator.{
  Failure, eof, canceled, failure, StreamCoordinator, is_active, write_error, status_client_closed,
  status_eof, status_server_error,
}
use streamweaver.Coordinator.Loop.{
  Turn, going, left, Progress, second, timed_out, read_and_write_stream, write_media,
}

pub record PlaylistMetadata : Type 0 where
  pub media_sequence : ℤ
  pub version : ℤ
  pub is_endlist : Bool
  pub segments : List Text
  pub is_master : Bool

-- bufio.Scanner, with the trimmed lines and whether it ended well; fmt.Sscanf of a number behind a prefix, which
-- leaves the old number where it fails; and url.Parse of a line, made absolute, and String.
pub record Parser : Type 0 where
  pub scan : Text → List Text × Bool
  pub scan_number : Text → Text → ℤ → ℤ
  pub resolve : Text → Option Text

unfoldable pub new_metadata : PlaylistMetadata
new_metadata = record {
  media_sequence = pos 0;
  version = pos 0;
  is_endlist = false;
  segments = [];
  is_master = false;
}

module _ (parser : Parser) where
  -- A line that is no master's.
  unfoldable pub parse_playlist_line : Text → PlaylistMetadata → PlaylistMetadata
  unfolding has_prefix text_eq is_empty
  parse_playlist_line line m =
      if has_prefix line (bytes "#EXTM3U")
      then m
      else if has_prefix line (bytes "#EXT-X-VERSION:")
      then record m { version = parser.scan_number (bytes "#EXT-X-VERSION:") line m.version }
      else if has_prefix line (bytes "#EXT-X-TARGETDURATION:")
      then m
      else if has_prefix line (bytes "#EXT-X-MEDIA-SEQUENCE:")
      then record m {
        media_sequence = parser.scan_number (bytes "#EXT-X-MEDIA-SEQUENCE:") line m.media_sequence;
      }
      else if text_eq line (bytes "#EXT-X-ENDLIST")
      then record m { is_endlist = true }
      else if not (has_prefix line (bytes "#")) && not (is_empty line)
      then elim (parser.resolve line) [
        | none ↦ m
        | some url ↦ record m { segments = m.segments ++ url ∷ [] }
      ]
      else m

  unfoldable pub is_master_line : Text → Bool
  unfolding has_prefix
  is_master_line line =
      not (has_prefix line (bytes "#EXTM3U")) && has_prefix line (bytes "#EXT-X-STREAM-INF")

  -- The second part tells whether a master's line ended the loop.
  unfoldable pub parse_lines : List Text → PlaylistMetadata → PlaylistMetadata × Bool
  unfolding parse_playlist_line is_master_line
  parse_lines [] m = (m, false)
  parse_lines (line ∷ lines) m =
      let rest = parse_lines lines (parse_playlist_line line m) in
      if is_master_line line then (record m { is_master = true }, true) else rest

  -- The address of the response is one that url.Parse reads; none is an error of the scanner.
  unfoldable pub parse_playlist : Text → Option PlaylistMetadata
  unfolding parse_lines new_metadata
  parse_playlist content =
      let (lines, ended) = parser.scan content in
      let (m, master) = parse_lines lines new_metadata in if master || ended then some m else none

-- What a request for a segment gives: an error, no response, or a response with its reads, from a time on.
pub data Fetch : Type 0 where
  refused : Failure → Fetch
  no_response : Fetch
  response : ℕ → Table (List Text) → ℕ → List Turn → Fetch

-- The coordinator, whether the header is set, and the error; or the coordinator of a segment that is being read.
pub data Streamed : Type 0 where
  reading : StreamCoordinator → Streamed
  streamed : StreamCoordinator → Bool → Option Failure → Streamed

abbrev with_type : Table (List Text) → Table (List Text)
with_type h = elim (lookup (bytes "Content-Type") h) [
  | none ↦ put (bytes "Content-Type") (bytes "video/MP2T" ∷ []) h
  | some [] ↦ put (bytes "Content-Type") (bytes "video/MP2T" ∷ []) h
  | some (v ∷ vs) ↦ if is_empty v then put (bytes "Content-Type") (bytes "video/MP2T" ∷ []) h else h
]

abbrev after_read : Bool → Progress → Streamed
after_read set (going l c) = reading c
after_read set (left e c) = streamed c set e

unfoldable pub stream_segment : StreamConfig → Fetch → Bool → StreamCoordinator → Streamed
unfolding read_and_write_stream write_media without put lookup
stream_segment cfg (refused e) set c =
    streamed c set (some (failure (bytes "error fetching segment stream")))
stream_segment cfg no_response set c =
    streamed c set (some (failure (bytes "returned nil response from HTTP client")))
stream_segment cfg (response status header now turns) set c =
    let c' : StreamCoordinator = if set then c else record c {
      writer_resp_header = some (without (bytes "Content-Length") (with_type header));
    } in
    if not (status == 200)
    then streamed c set (some (failure (bytes "Non-200 status code received")))
    else after_read true (read_and_write_stream cfg write_media now turns c')

-- A tick: what the others have done to the coordinator; the context's error and whether the tick is passed over for
-- it; the times of the test and of the change, and the interval; whether the context is done before the k-th
-- segment, and what its request gives.
pub record Tick : Type 0 where
  pub others : StreamCoordinator → StreamCoordinator
  pub done : Bool
  pub ctx_error : Bool
  pub tested_at : ℕ
  pub changed_at : ℕ
  pub interval : ℤ
  pub done_at : ℕ → Bool
  pub fetched : ℕ → Text → Fetch

abbrev after_segment : Streamed → (Bool → StreamCoordinator → Streamed) → Streamed
after_segment (reading c) next = reading c
after_segment (streamed c set none) next = next set c
after_segment (streamed c set (some eof)) next = next set c
after_segment (streamed c set (some canceled)) next = streamed c set (some canceled)
after_segment (streamed c set (some (failure e))) next = streamed c set (some (failure e))

unfoldable pub process_segments :
    StreamConfig → Tick → ℕ → List Text → Bool → StreamCoordinator → Streamed
unfolding stream_segment
process_segments cfg t k [] set c = streamed c set none
process_segments cfg t k (url ∷ urls) set c =
    if t.done_at k
    then streamed c set (some canceled)
    else after_segment (stream_segment cfg (t.fetched k url) set c)
        (λ (set' : Bool) (c' : StreamCoordinator). process_segments cfg t (suc k) urls set' c')

-- The body of the response: from the network, with an error at its end or none, or the copy that the last tick left.
pub data Body : Type 0 where
  network : Text → Option Failure → Body
  copied : Text → Body

pub record HlsLoop : Type 0 where
  pub body : Body
  pub last_err : Bool
  pub last_change : ℕ
  pub last_media_seq : ℤ
  pub header_set : Bool

pub data HlsProgress : Type 0 where
  polling : HlsLoop → StreamCoordinator → HlsProgress
  inside stopped : StreamCoordinator → HlsProgress

abbrev pub text_of : Body → Text
text_of (network text e) = text
text_of (copied text) = text

abbrev pub error_of : Body → Option Failure
error_of (network text e) = e
error_of (copied text) = none

unfoldable pub new_hls_loop : Text → Option Failure → ℕ → HlsLoop
new_hls_loop text e now = record {
  body = network text e;
  last_err = false;
  last_change = now;
  last_media_seq = negsuc 0;
  header_set = false;
}

module _ (cfg : StreamConfig) (parser : Parser) where
  unfoldable pub is_late : Tick → HlsLoop → Bool
  unfolding wrap64 ◌+ℤ◌ ◌-ℤ◌ ◌*ℤ◌
  is_late t l =
      ltb_ℤ (wrap64 (wrap64 (cfg.timeout_seconds *ℤ second) +ℤ t.interval))
        (pos t.tested_at -ℤ pos l.last_change)

  -- After the last segments.
  abbrev after_end : Tick → Streamed → HlsProgress
  after_end t (reading c) = inside c
  after_end t (streamed c set e) = stopped (write_error (some eof) status_eof t.changed_at c)

  abbrev after_new : Tick → HlsLoop → Streamed → HlsProgress
  after_new t l (reading c) = inside c
  after_new t l (streamed c set none) = polling (record l { header_set = set }) c
  after_new t l (streamed c set (some e)) =
      if t.ctx_error
      then stopped (write_error (some e) status_server_error t.changed_at c)
      else polling (record l { header_set = set; last_err = true }) c

  unfoldable pub on_playlist : Tick → PlaylistMetadata → HlsLoop → StreamCoordinator → HlsProgress
  unfolding process_segments write_error
  on_playlist t m l c =
      let l' = record l { last_change = t.changed_at; last_media_seq = m.media_sequence } in
      if m.is_master
      then stopped (
          write_error (some (failure (bytes "master playlist not supported"))) status_server_error
            t.changed_at c)
      else if m.is_endlist
      then after_end t (process_segments cfg t 0 m.segments l.header_set c)
      else if ltb_ℤ l.last_media_seq m.media_sequence
      then after_new t l' (process_segments cfg t 0 m.segments l.header_set c)
      else polling l c

  unfoldable pub on_body : Tick → HlsLoop → StreamCoordinator → HlsProgress
  unfolding on_playlist parse_playlist write_error
  on_body t l c = elim (error_of l.body) [
    | some e ↦ stopped (write_error (some e) status_server_error t.changed_at c)
    | none ↦ elim (parse_playlist parser (text_of l.body)) [
      | none ↦
          stopped (
            write_error (some (failure (bytes "token too long"))) status_server_error t.changed_at
              c)
      | some m ↦ on_playlist t m (record l { body = copied (text_of l.body) }) c
    ]
  ]

  unfoldable pub on_tick : Tick → HlsLoop → StreamCoordinator → HlsProgress
  unfolding is_late on_body write_error
  on_tick t l c =
      if not (is_active c.state)
      then stopped c
      else if t.done
      then stopped
          (if l.last_err then c else write_error (some canceled) status_client_closed t.tested_at c)
      else if is_late t l
      then stopped (write_error (some timed_out) status_eof t.tested_at c)
      else on_body t l c

  unfoldable pub hls_tick : Tick → HlsLoop → StreamCoordinator → HlsProgress
  unfolding on_tick
  hls_tick t l c = on_tick t l (t.others c)

  unfoldable pub hls_ticks : List Tick → HlsLoop → StreamCoordinator → HlsProgress
  unfolding hls_tick
  hls_ticks [] l c = polling l c
  hls_ticks (t ∷ ts) l c = elim (hls_tick t l c) [
    | polling l' c' ↦ hls_ticks ts l' c'
    | inside c' ↦ inside c'
    | stopped c' ↦ stopped c'
  ]

abbrev pub coordinator_of : HlsProgress → StreamCoordinator
coordinator_of (polling l c) = c
coordinator_of (inside c) = c
coordinator_of (stopped c) = c

-- The manager, which other writers use in the meantime, is `meantime` of itself at the end.
unfoldable pub start_hls_writer :
    Getenv
    → StreamConfig
    → Parser
    → LoadBalancerResult
    → Text
    → Option Failure
    → ℕ
    → List Tick
    → StreamCoordinator × ConcurrencyManager
    → (ConcurrencyManager → ConcurrencyManager)
    → StreamCoordinator × ConcurrencyManager
unfolding hls_ticks new_hls_loop
start_hls_writer env cfg parser result text e now ts (c, cm) meantime =
    let c' = record c { lb_result_on_write = some result; writer_resp_header = none } in
    let cm' = update_concurrency env cm result.index true in
    let d = coordinator_of (hls_ticks cfg parser ts (new_hls_loop text e now) c') in
    (
      record d { lb_result_on_write = none },
      update_concurrency env (meantime cm') result.index false,
    )
