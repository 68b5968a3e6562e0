-- ===== src/Request/Examples.antt =====
-- Requests for a stream on small inputs.
use streamweaver.Prelude.{
  ◌≡◌, refl, Bool, true, false, arith, none, some, [], ◌∷◌, bytes, pos, has_suffix, contains,
  to_lower, text_eq,
}
use streamweaver.Config.{StreamConfig}
use streamweaver.LoadBalancer.{LoadBalancerResult}
use streamweaver.Store.{ConcurrencyManager, new_concurrency_manager}
use streamweaver.Coordinator.{
  StreamCoordinator, new_stream_coordinator, register_client, canceled, status_m3u8_parsed,
  status_incompatible,
}
use streamweaver.Coordinator.Loop.{LoopState, new_loop}
use streamweaver.Coordinator.Loop
use streamweaver.Client.{StreamClient, whole, is_writable}
use streamweaver.Viewer.{StreamResult, at, Turn}
use streamweaver.Viewer.Session.{Session, no_writers, join_stream, release, unregister, run_writer}
use streamweaver.Request.{Round, completed, choose, result_of, handle_stream}
use streamweaver.Request.Url.{ext, is_an_m3u8_media}
use streamweaver.Request.Instance.{by_shared, by_none, is_vod, is_invalid}
use streamweaver.Request.Retry.{Asks, handle_stream-incompatible}
use streamweaver.Request.Rejoin.{abandoned, rejoin, Meets}

abbrev ring : StreamCoordinator
ring = new_stream_coordinator (bytes "id") 3

abbrev quiet : Session
quiet = record { coordinator = ring; writers = no_writers }

abandoned_example :
    let w = (release (unregister (join_stream quiet))).writers in
    (w.starting ≡ 1) × (w.active ≡ true) × ((run_writer w).1 ≡ none)
unfolding no_writers new_stream_coordinator
abandoned_example = abandoned quiet refl refl

-- A stream with one client, whose writer runs with the first context.
abbrev watched : Session
watched = record {
  coordinator = register_client ring;
  writers = record {
    active = true;
    ctx = some 0;
    cancel = some 0;
    contexts = 1;
    cancelled = [];
    starting = 0;
    running = 1;
  };
}

abbrev cfg : StreamConfig
cfg = record {
  shared_buffer_size = pos 3;
  chunk_size = 16;
  timeout_seconds = pos 3;
  initial_backoff = pos 200;
  max_retries = pos 5;
}

abbrev last_turn : Loop.Turn
last_turn = record {
  others = λ c. c;
  done = some canceled;
  bytes_read = [];
  error = none;
  tested_at = 5;
  read_at = 5;
  ended_at = 5;
}

abbrev look : Turn
look = record {
  others = λ c. c;
  done = false;
  done_at = λ k. false;
  headers = λ k. none;
  taken = λ k. whole;
}

abbrev viewer : StreamClient
viewer = record {
  response_headers = [];
  headers_sent = false;
  writer = some (record { status = none; header = []; body = [] });
}

rejoin_example :
    Meets cfg last_turn
      (new_loop cfg 4)
      6
      look
      (at 0)
      0
      viewer
      watched
      0
      (join_stream (release (unregister watched)))
unfolding new_stream_coordinator register_client is_writable
rejoin_example =
    rejoin cfg last_turn (new_loop cfg 4) 6 look (at 0) 0 viewer watched 0 refl refl refl
      (record { in_range = omega arith; silent = refl }) (omega arith) (λ c. refl) refl
      (record { not_done = refl; none_done = λ k. refl; all_taken = λ k. refl }) refl refl

abbrev playlist : LoadBalancerResult
playlist = record {
  response = record { status_code = 200; header = []; request_path = some (bytes "/live/a.m3u8") };
  url = bytes "http://s/live/a.m3u8";
  index = bytes "1";
  sub_index = bytes "x";
}

abbrev no_share : StreamResult
no_share = record { bytes_written = 0; error = none; status = status_incompatible }

abbrev asked : Bool → Round
asked failover = record {
  seen = ring;
  balanced = some playlist;
  handlers = record {
    direct = no_share;
    shared = no_share;
    failover = failover;
    meantime = λ cm. cm;
  };
  closed_in_stream = false;
  closed_in_wait = false;
}

asked-Asks : (b : Bool) → Asks playlist b (asked b)
unfolding result_of choose new_stream_coordinator
asked-Asks b = record {
  result_eq = refl;
  open_in_stream = refl;
  open_in_wait = refl;
  failover_eq = refl;
  keeps = λ cm h. h;
}

handle_stream-incompatible_example :
    (cm' : ConcurrencyManager) × (handle_stream
        (asked false ∷ asked false ∷ asked true ∷ [])
        new_concurrency_manager
      ≡ record {
        trace = (playlist, by_shared) ∷ (playlist, by_none) ∷ (playlist, by_none) ∷ [];
        ending = completed status_m3u8_parsed;
        manager = cm';
      })
    × (is_invalid playlist.url cm' ≡ true)
unfolding is_vod is_an_m3u8_media is_invalid new_concurrency_manager ext has_suffix contains
    to_lower text_eq
handle_stream-incompatible_example =
    handle_stream-incompatible playlist (asked true) refl refl (asked-Asks true) (asked false)
      (asked false ∷ []) new_concurrency_manager (asked-Asks false) (asked-Asks false, tt) refl refl
