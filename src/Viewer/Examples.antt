-- ===== src/Viewer/Examples.antt =====
-- One client of a small ring, and a direct stream, on a few reads.
use streamweaver.Prelude.{
  ℕ, ◌≡◌, refl, true, false, arith, none, some, List, [], ◌∷◌, ◌++◌, map, All, Text, bytes,
  is_empty, pos,
}
use streamweaver.Config.{StreamConfig}
use streamweaver.LoadBalancer.{Response}
use streamweaver.Coordinator.{
  StreamCoordinator, ChunkData, active, new_stream_coordinator, new_chunk_data, write_error, eof,
  status_eof, is_error,
}
use streamweaver.Coordinator.Loop.{
  LoopState, going, read_and_write_stream, write_media, should_timeout,
}
use streamweaver.Coordinator.Loop
use streamweaver.Coordinator.Pump.{IsSteady, chunk_of}
use streamweaver.Coordinator.Writing.{IsRing, writes}
use streamweaver.Coordinator.Delivery.{joined}
use streamweaver.Coordinator.Draining.{last_chunk}
use streamweaver.Client.{StreamClient, whole, is_writable}
use streamweaver.Viewer.{Position, at, Turn, watch, finished}
use streamweaver.Viewer
use streamweaver.Viewer.Sending.{IsOpen, Sent}
use streamweaver.Viewer.Delivery.{IsAt, Follows, FollowAll}
use streamweaver.Viewer.Relay.{relay}
use streamweaver.Viewer.Ending.{watch-write_error}
use streamweaver.Viewer.Direct.{DirectTurn, returned, direct_result, handle_direct_stream}
use streamweaver.Viewer.Direct.Laws.{handle_direct_stream-eof}
use streamweaver.Viewer.Session.{Session, no_writers, join_stream, release, unregister}
use streamweaver.Viewer.Writers.{join, part, clean, here, next, IsSafe, Reaches-IsSafe}

abbrev ring : StreamCoordinator
ring = new_stream_coordinator (bytes "id") 3

ring-IsRing : IsRing ring
unfolding new_stream_coordinator
ring-IsRing = record { in_range = omega arith; silent = refl }

ring_active : ring.state ≡ active
unfolding new_stream_coordinator
ring_active = refl

abbrev viewer : StreamClient
viewer = record {
  response_headers = [];
  headers_sent = false;
  writer = some (record { status = none; header = []; body = [] });
}

viewer_writable : is_writable viewer ≡ true
unfolding is_writable
viewer_writable = refl

abbrev cfg : StreamConfig
cfg = record {
  shared_buffer_size = pos 3;
  chunk_size = 16;
  timeout_seconds = pos 3;
  initial_backoff = pos 200;
  max_retries = pos 5;
}

abbrev read_at : ℕ → Text → Loop.Turn
read_at now b = record {
  others = λ c. c;
  done = none;
  bytes_read = b;
  error = none;
  tested_at = now;
  read_at = now;
  ended_at = now;
}

read_at-IsSteady : (now : ℕ) (b : Text) → is_empty b ≡ false → IsSteady (read_at now b)
read_at-IsSteady now b h = record {
  quiet = record { others_eq = λ c. refl; not_done = refl };
  has_bytes = h;
  no_error = refl;
}

-- Two turns of the client, after two reads and after one.
abbrev reads : List (List Loop.Turn)
reads = (read_at 5 (bytes "a") ∷ read_at 6 (bytes "b") ∷ []) ∷ (read_at 7 (bytes "c") ∷ []) ∷ []

reads-IsSteady : All IsSteady (joined reads)
unfolding is_empty
reads-IsSteady = (
  read_at-IsSteady 5 (bytes "a") refl,
  (read_at-IsSteady 6 (bytes "b") refl, (read_at-IsSteady 7 (bytes "c") refl, tt)),
)

-- A turn of the client after some writes.
abbrev look : List ChunkData → Turn
look ws = record {
  others = writes ws;
  done = false;
  done_at = λ k. false;
  headers = λ k. none;
  taken = λ k. whole;
}

look-IsOpen : (ws : List ChunkData) → IsOpen (look ws)
look-IsOpen ws = record { not_done = refl; none_done = λ k. refl; all_taken = λ k. refl }

look-Follows : (ws : List ChunkData) → Follows (look ws) ws
look-Follows ws = record { is_open = look-IsOpen ws; others_eq = λ c. refl }

abbrev batches : List (List ChunkData)
batches = map (map chunk_of) reads

looks-FollowAll : FollowAll (map look batches) batches
looks-FollowAll = (look-Follows _, (look-Follows _, tt))

relay_example :
    (c' : StreamCoordinator) × ((l : LoopState) × (read_and_write_stream cfg write_media 4
          (joined reads)
          ring
        ≡ going l c'))
    × ((p' : Position) × (sc' : StreamClient) × IsAt p' c'.head
        × Sent (bytes "abc") viewer sc'
        × (watch false (map look batches) ring (at 0) 0 viewer ≡ (Viewer.going p' 3 sc', c')))
unfolding should_timeout new_stream_coordinator
relay_example =
    relay cfg reads (map look batches) 4 ring (at 0) 0 viewer ring-IsRing ring_active reads-IsSteady
      (refl, (refl, (refl, tt))) (omega arith, (omega arith, tt)) looks-FollowAll viewer_writable
      refl

abbrev one_chunk : List ChunkData
one_chunk = record new_chunk_data { buffer = some (bytes "z") } ∷ []

-- The last turn of the client, after which the stream has ended.
abbrev last_look : Turn
last_look = record (look one_chunk) {
  others = λ c. write_error (some eof) status_eof 9 (writes one_chunk c);
}

watch-write_error_example :
    (sc' : StreamClient) × Sent (bytes "abcz") viewer sc'
    × ((watch false (map look batches ++ last_look ∷ []) ring (at 0) 0 viewer).0
        ≡ finished (record { bytes_written = 4; error = some eof; status = status_eof }) sc')
unfolding new_stream_coordinator new_chunk_data is_error last_chunk Loop.media_chunk
watch-write_error_example =
    watch-write_error (map look batches) batches last_look one_chunk (some eof) status_eof 9 ring
      (at 0) 0 viewer ring-IsRing ring_active looks-FollowAll
      (((refl, (refl, tt)), omega arith), (((refl, tt), omega arith), tt))
      (record { not_done = refl; none_done = λ k. refl; all_taken = λ k. refl }) (λ d. refl)
      (refl, tt) (omega arith) refl viewer_writable refl

abbrev film : Response
film = record { status_code = 206; header = []; request_path = none }

abbrev piece : Text → DirectTurn
piece b = record { done = false; bytes_read = b; error = none; taken = whole }

abbrev last_piece : DirectTurn
last_piece = record { done = false; bytes_read = bytes "xyz"; error = some eof; taken = whole }

handle_direct_stream-eof_example :
    (sc' : StreamClient) × Sent (bytes "ab") viewer sc'
    × (handle_direct_stream
          (bytes "h")
          film
          (piece (bytes "a") ∷ piece (bytes "b") ∷ last_piece ∷ [])
          viewer
        ≡ returned (direct_result (bytes "h") (bytes "EOF reached for stream: ") 5 status_eof) sc')
handle_direct_stream-eof_example =
    handle_direct_stream-eof (bytes "h") film (piece (bytes "a") ∷ piece (bytes "b") ∷ [])
      last_piece viewer
      (
        record { not_done = refl; no_error = refl; all_taken = refl },
        (record { not_done = refl; no_error = refl; all_taken = refl }, tt),
      )
      refl refl viewer_writable

abbrev quiet : Session
quiet = record { coordinator = ring; writers = no_writers }

Reaches-IsSafe_example : IsSafe (release (unregister (join_stream quiet))).writers
Reaches-IsSafe_example = Reaches-IsSafe (
    next (next (next here (join quiet)) (part (join_stream quiet)))
      (clean (unregister (join_stream quiet))))
