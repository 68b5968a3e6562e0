-- ===== src/Coordinator.antt =====
-- proxy/stream/buffer/coordinator.go: the ring of chunks that one writer fills and all the clients of
-- a stream read, its clients and its state. Each method is the section that runs under the lock, or
-- one atomic step; the log is left out. The ring is the list of its slots, and `c.Buffer` the position
-- of one of them. Times are numbers, and `write_seq` is short of an int64's limit.
pub mod Reading
pub mod Loop
mod Ring
pub mod Writing
pub mod Copies
pub mod Delivery
pub mod Draining
pub mod Restart
pub mod Lifecycle
pub mod Pump
pub mod Media
pub mod HlsWriter
pub mod Polling
pub mod Registry
mod Cleanup
pub mod Sharing
mod Examples
mod WriterExamples
mod RegistryExamples
mod HlsExamples
use streamweaver.Prelude.{
  ℕ, suc, ◌+◌, Bool, true, false, ◌&&◌, ◌||◌, Option, none, some, List, [], map, Text, Table, ℤ,
  pos, negsuc, eqb_ℤ, ltb_ℤ, add32, ◌==◌, not, length, get_elem?, set, replicate, is_empty,
  if◌then◌else◌,
}
use streamweaver.LoadBalancer.{LoadBalancerResult}

-- The errors that the program tells apart: io.EOF, the end of a context, and any other.
pub data Failure : Type 0 where
  eof canceled : Failure
  failure : Text → Failure

-- The statuses of proxy/constants.go.
abbrev pub status_client_closed : ℕ
status_client_closed = 0

abbrev pub status_server_error : ℕ
status_server_error = 1

abbrev pub status_eof : ℕ
status_eof = 2

abbrev pub status_m3u8_parsed : ℕ
status_m3u8_parsed = 3

abbrev pub status_m3u8_parse_error : ℕ
status_m3u8_parse_error = 4

abbrev pub status_incompatible : ℕ
status_incompatible = 5

-- `none` for a nil buffer. A buffer from the pool is empty.
pub record ChunkData : Type 0 where
  pub buffer : Option Text
  pub error : Option Failure
  pub status : ℕ
  pub timestamp : ℕ
  pub seq : ℕ

unfoldable pub new_chunk_data : ChunkData
new_chunk_data = record { buffer = some []; error = none; status = 0; timestamp = 0; seq = 0 }

-- Whatever the chunk held, it is as new: the old buffer goes back to the pool.
pub reset : ChunkData → ChunkData
unfolding new_chunk_data
reset c = new_chunk_data

pub data State : Type 0 where
  active draining closed : State

abbrev pub is_active : State → Bool
is_active active = true
is_active _ = false

-- What the atomic.Value `LastError` holds: nothing, a nil *ChunkData, or a pointer to a slot.
pub data LastError : Type 0 where
  unset nil_chunk : LastError
  slot : ℕ → LastError

abbrev pub is_unset : LastError → Bool
is_unset unset = true
is_unset _ = false

-- `writer_chan` tells whether the channel of capacity 1 is full, and `broadcast` counts the channels
-- that were closed to wake the readers.
pub record StreamCoordinator : Type 0 where
  pub slots : List ChunkData
  pub head : ℕ
  pub broadcast : ℕ
  pub client_count : ℤ
  pub writer_chan : Bool
  pub lb_result_on_write : Option LoadBalancerResult
  pub writer_resp_header : Option (Table (List Text))
  pub last_error : LastError
  pub stream_id : Text
  pub actual_url : Text
  pub state : State
  pub write_seq : ℕ

unfoldable pub new_stream_coordinator : Text → ℕ → StreamCoordinator
unfolding new_chunk_data
new_stream_coordinator stream_id size = record {
  slots = replicate size new_chunk_data;
  head = 0;
  broadcast = 0;
  client_count = pos 0;
  writer_chan = false;
  lb_result_on_write = none;
  writer_resp_header = none;
  last_error = nil_chunk;
  stream_id = stream_id;
  actual_url = [];
  state = active;
  write_seq = 0;
}

-- The first address set is kept.
unfoldable pub set_actual_url : Text → StreamCoordinator → StreamCoordinator
unfolding is_empty
set_actual_url url c = if is_empty c.actual_url then record c { actual_url = url } else c

unfoldable pub get_actual_url : StreamCoordinator → Text
get_actual_url c = c.actual_url

pub notify_subscribers : StreamCoordinator → StreamCoordinator
notify_subscribers c = record c { broadcast = suc c.broadcast }

-- The error result is nil on every path.
unfoldable pub register_client : StreamCoordinator → StreamCoordinator
unfolding add32
register_client c =
    let state =
      if not (is_active c.state) && eqb_ℤ c.client_count (pos 0) then active else c.state in
    record c { state = state; client_count = add32 c.client_count (pos 1) }

unfoldable pub clear_buffer : StreamCoordinator → StreamCoordinator
unfolding reset
clear_buffer c = record c { slots = map reset c.slots }

-- The last client to leave drains the stream: the writer is told to stop, unless it was told already,
-- and the readers are woken.
unfoldable pub unregister_client : StreamCoordinator → StreamCoordinator
unfolding add32 clear_buffer notify_subscribers
unregister_client c =
    let count = add32 c.client_count (negsuc 0) in
    let left = record c { client_count = count } in
    if eqb_ℤ count (pos 0)
    then notify_subscribers (
        clear_buffer
          (record left { state = draining; writer_chan = true; writer_resp_header = none }))
    else left

pub has_client : StreamCoordinator → Bool
has_client c = ltb_ℤ (pos 0) c.client_count

-- r.Next() in a ring of `n`.
pub next_position : ℕ → ℕ → ℕ
next_position n i = if suc i == n then 0 else suc i

abbrev pub is_some {ℓ} : {A : Type ℓ} → Option A → Bool
is_some none = false
is_some (some _) = true

-- A chunk that carries an error or a status.
unfoldable pub is_error : ChunkData → Bool
is_error c = is_some c.error || not (c.status == 0)

-- The slot takes over the caller's chunk, under the next sequence number.
pub filled : ℕ → ChunkData → ChunkData
filled seq chunk = record chunk { seq = seq }

-- The write into the slot that `current` was read from.
pub store : ChunkData → StreamCoordinator → StreamCoordinator
unfolding next_position is_error filled notify_subscribers
store chunk c =
    let c' = record c {
      write_seq = suc c.write_seq;
      slots = set c.slots c.head (filled (suc c.write_seq) chunk);
      head = next_position (length c.slots) c.head;
    } in
    let marked = record c' {
      last_error = if is_unset c.last_error then slot c.head else c.last_error;
      state = draining;
    } in
    notify_subscribers (if is_error chunk then marked else c')

-- The coordinator, the caller's chunk afterwards, and the result. A nil chunk is refused; any other
-- is reset in every case. A slot that is not there stands for the nil slot of the source.
pub write : Option ChunkData → StreamCoordinator → StreamCoordinator × Option ChunkData × Bool
unfolding store reset
write none c = (c, none, false)
write (some chunk) c =
    if is_active c.state
    then elim (get_elem? c.slots c.head) [
      | none ↦ (c, some (reset chunk), false)
      | some current ↦ (store chunk c, some (reset chunk), true)
    ]
    else (c, some (reset chunk), false)

-- An error chunk is written if it can be, and the stream is closed in any case.
unfoldable pub write_error : Option Failure → ℕ → ℕ → StreamCoordinator → StreamCoordinator
unfolding write new_chunk_data
write_error err status now c =
    let chunk = record new_chunk_data { error = err; status = status; timestamp = now } in
    record (write (some chunk) c).0 { state = closed }
