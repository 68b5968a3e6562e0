-- ===== src/Viewer/Direct.antt =====
-- HandleDirectStream of proxy/stream/media_stream.go: a client that gets the source without a ring.
pub mod Laws
use streamweaver.Prelude.{
  ℕ, ◌+◌, Bool, true, false, Option, none, some, List, [], ◌∷◌, ◌++◌, Text, bytes, length,
  if◌then◌else◌,
}
use streamweaver.LoadBalancer.{Response}
use streamweaver.Coordinator.{
  Failure, eof, canceled, failure, status_client_closed, status_server_error, status_eof,
}
use streamweaver.Client.{StreamClient, Taken, write, write_header}
use streamweaver.Viewer.{StreamResult}

-- A turn of the loop: whether the context is done before the read is; what the read gives; and what becomes
-- of the write.
pub record DirectTurn : Type 0 where
  pub done : Bool
  pub bytes_read : Text
  pub error : Option Failure
  pub taken : Taken

pub data Direct : Type 0 where
  reading : ℕ → StreamClient → Direct
  returned : StreamResult → StreamClient → Direct
  panicked : Direct

module _ (remote_addr : Text) where
  abbrev pub direct_result : Text → ℕ → ℕ → StreamResult
  direct_result message n status = record {
    bytes_written = n;
    error = some (failure (message ++ remote_addr));
    status = status;
  }

  unfoldable pub direct_write : Option (StreamClient × ℕ × Bool) → ℕ → Direct
  direct_write none n = panicked
  direct_write (some (sc, k, true)) n = reading n sc
  direct_write (some (sc, k, false)) n =
      returned (direct_result (bytes "server error for stream: ") n status_client_closed) sc

  -- The bytes that come with an error are counted, and not written.
  unfoldable pub direct_turn : DirectTurn → ℕ → StreamClient → Direct
  unfolding direct_write
  direct_turn t n sc =
      let n' = n + length t.bytes_read in
      if t.done
      then returned (direct_result (bytes "context canceled for stream: ") n status_client_closed)
          sc
      else elim t.error [
        | none ↦ direct_write (write t.taken t.bytes_read sc) n'
        | some eof ↦ returned (direct_result (bytes "EOF reached for stream: ") n' status_eof) sc
        | some canceled ↦
            returned (direct_result (bytes "server error for stream: ") n' status_server_error) sc
        | some (failure e) ↦
            returned (direct_result (bytes "server error for stream: ") n' status_server_error) sc
      ]

  unfoldable pub direct_turns : List DirectTurn → ℕ → StreamClient → Direct
  unfolding direct_turn
  direct_turns [] n sc = reading n sc
  direct_turns (t ∷ ts) n sc = elim (direct_turn t n sc) [
    | reading n' sc' ↦ direct_turns ts n' sc'
    | returned r sc' ↦ returned r sc'
    | panicked ↦ panicked
  ]

  unfoldable pub handle_direct_stream : Response → List DirectTurn → StreamClient → Direct
  unfolding direct_turns
  handle_direct_stream response ts sc =
      elim (write_header response.status_code (record sc { response_headers = response.header })) [
        | none ↦ panicked
        | some sc' ↦ direct_turns ts 0 sc'
      ]
