-- ===== src/Viewer.antt =====
-- proxy/stream/media_stream.go: one client of a stream, from the ring of a coordinator or straight from
-- the source. The log, flushes, and the sleeps are left out.
pub mod Sending
pub mod Delivery
mod Relay
pub mod Ending
pub mod Session
pub mod Writers
pub mod Handover
pub mod Direct
mod Examples
use streamweaver.Prelude.{
  ℕ, suc, ◌+◌, Bool, true, false, ◌&&◌, not, Option, none, some, List, [], ◌∷◌, ◌++◌, Text, bytes,
  Table, lookup, length, contains, to_lower, is_empty, if◌then◌else◌,
}
use streamweaver.LoadBalancer.{Response}
use streamweaver.Coordinator.{
  Failure, eof, canceled, failure, ChunkData, StreamCoordinator, status_client_closed,
  status_server_error, status_eof, status_incompatible,
}
use streamweaver.Coordinator.Reading.{Read, blocked, got, start, resume, has_data}
use streamweaver.Client.{StreamClient, Taken, write, write_header, values_of, is_writable}

pub record StreamResult : Type 0 where
  pub bytes_written : ℕ
  pub error : Option Failure
  pub status : ℕ

-- http.Header.Get
unfoldable pub first_value : Text → Table (List Text) → Text
unfolding values_of
first_value key h = elim (values_of key h) [ [] ↦ [] | v ∷ vs ↦ v ]

unfoldable pub safe_concat_types : List Text
safe_concat_types =
    bytes "video/mp2t" ∷ bytes "video/mpeg" ∷ bytes "audio/aac" ∷ bytes "audio/mpeg" ∷ []

-- Where a client stands: before a call of ReadChunks at a position, or asleep in one.
pub data Position : Type 0 where
  at asleep : ℕ → Position

-- A turn of the loop: what the others do to the coordinator before it reads; whether the client's context
-- is done, at the start and before each chunk; and for each chunk the headers of the writer, and what
-- becomes of the write.
pub record Turn : Type 0 where
  pub others : StreamCoordinator → StreamCoordinator
  pub done : Bool
  pub done_at : ℕ → Bool
  pub headers : ℕ → Option (Table (List Text))
  pub taken : ℕ → Taken

-- The loop goes on, with the position, or has returned a result.
pub data Watch : Type 0 where
  going : Position → ℕ → StreamClient → Watch
  finished : StreamResult → StreamClient → Watch

abbrev closed_by_client : ℕ → StreamClient → Watch
closed_by_client n sc =
    finished (record { bytes_written = n; error = some canceled; status = status_client_closed }) sc

-- A Write that panics is an error of the client too. Whatever the error of the writer, it is one failure here.
abbrev pub after_write :
    Option (StreamClient × ℕ × Bool) → StreamClient → ℕ → (ℕ → StreamClient → Watch) → Watch
after_write none sc n next =
    finished
      (record {
        bytes_written = n;
        error = some (failure (bytes "write failed"));
        status = status_client_closed;
      })
      sc
after_write (some (sc', k, true)) sc n next = next (n + k) sc'
after_write (some (sc', k, false)) sc n next =
    finished
      (record {
        bytes_written = n;
        error = some (failure (bytes "write failed"));
        status = status_client_closed;
      })
      sc'

abbrev pub bytes_of : Option Text → Text
bytes_of none = []
bytes_of (some b) = b

abbrev pub headers_of : Option (Table (List Text)) → Table (List Text)
headers_of none = []
headers_of (some h) = h

-- `m3u8` tells whether the source's response is a playlist.
module _ (m3u8 : Bool) where
  -- The `k`-th chunk of a read, of which some bytes are there.
  unfoldable pub send_chunk :
      Turn → ℕ → Text → ℕ → StreamClient → (ℕ → StreamClient → Watch) → Watch
  unfolding first_value safe_concat_types is_writable
  send_chunk t k b n sc next =
      let h = headers_of (t.headers k) in
      let sc' = record sc { response_headers = h } in
      if not (is_writable sc)
      then finished
          (record {
            bytes_written = n;
            error = some (failure (bytes "writer is nil"));
            status = status_server_error;
          })
          sc
      else if not (contains safe_concat_types (to_lower (first_value (bytes "Content-Type") h)))
          && m3u8
      then finished
          (record {
            bytes_written = n;
            error = some (
                failure (
                  first_value (bytes "Content-Type") h
                  ++ bytes " cannot be safely concatenated and is not supported by this proxy"));
            status = status_incompatible;
          })
          sc
      else after_write (write (t.taken k) b sc') sc' n next

  unfoldable pub send_chunks :
      Turn → ℕ → List ChunkData → ℕ → StreamClient → (ℕ → StreamClient → Watch) → Watch
  unfolding send_chunk
  send_chunks t k [] n sc next = next n sc
  send_chunks t k (c ∷ cs) n sc next =
      let rest = λ (n' : ℕ) (sc' : StreamClient). send_chunks t (suc k) cs n' sc' next in
      if t.done_at k
      then closed_by_client n sc
      else if has_data c.buffer
      then send_chunk t k (bytes_of c.buffer) n sc rest
      else rest n sc

  -- After the chunks, an error chunk ends the loop.
  unfoldable pub take_read : Turn → Read → ℕ → ℕ → StreamClient → Watch
  unfolding send_chunks
  take_read t blocked from n sc = going (asleep from) n sc
  take_read t (got chunks none to) from n sc = send_chunks t 0 chunks n sc (going (at to))
  take_read t (got chunks (some e) to) from n sc =
      send_chunks t 0 chunks n sc
        (λ n' sc'. finished (record { bytes_written = n'; error = e.error; status = e.status }) sc')

  abbrev from_of : Position → StreamCoordinator → ℕ
  from_of (at p) c = start c (some p)
  from_of (asleep p) c = p

  -- A reader that is asleep does not see that its context is done: it is in ReadChunks.
  abbrev is_cancelled : Turn → Position → Bool
  is_cancelled t (at p) = t.done
  is_cancelled t (asleep p) = false

  unfoldable pub watch_turn : Turn → StreamCoordinator → Position → ℕ → StreamClient → Watch
  unfolding take_read
  watch_turn t c p n sc =
      if is_cancelled t p
      then closed_by_client n sc
      else take_read t (resume (from_of p c) c) (from_of p c) n sc

  -- The loop of HandleStream over the turns, and the coordinator.
  unfoldable pub watch :
      List Turn → StreamCoordinator → Position → ℕ → StreamClient → Watch × StreamCoordinator
  unfolding watch_turn
  watch [] c p n sc = (going p n sc, c)
  watch (t ∷ ts) c p n sc =
      let c' = t.others c in
      elim (watch_turn t c' p n sc) [
        | going p' n' sc' ↦ watch ts c' p' n' sc'
        | finished r sc' ↦ (finished r sc', c')
      ]
