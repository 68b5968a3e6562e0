-- ===== src/Coordinator/Examples.antt =====
-- Small rings, of three slots, on a few chunks.
use streamweaver.Prelude.{◌≡◌, ◌≢◌, refl, some, List, [], ◌∷◌, ◌++◌, arith, Text, bytes}
use streamweaver.Coordinator.{
  Failure, eof, canceled, failure, State, active, draining, ChunkData, new_chunk_data,
  StreamCoordinator, new_stream_coordinator, write, write_error, register_client, unregister_client,
  has_client, clear_buffer, status_eof,
}
use streamweaver.Coordinator.Reading.{read_chunks}
use streamweaver.Coordinator.Loop.{media_chunk}
use streamweaver.Coordinator.Writing.{IsRing, writes}
use streamweaver.Coordinator.Delivery.{joined, outcome, read_chunks-writes}
use streamweaver.Coordinator.Lifecycle.{
  System, come, leave, fill, Reach, here, next, IsSound, Reach-IsSound,
}

abbrev pub ring : StreamCoordinator
ring = new_stream_coordinator (bytes "s") 3

pub ring-IsRing : IsRing ring
unfolding new_stream_coordinator
ring-IsRing = record { in_range = omega arith; silent = refl }

pub ring_active : ring.state ≡ active
unfolding new_stream_coordinator
ring_active = refl

abbrev chunk : Text → ChunkData
chunk b = media_chunk 5 b

abbrev ab : List ChunkData
ab = chunk (bytes "a") ∷ chunk (bytes "b") ∷ []

abbrev abc : List ChunkData
abc = chunk (bytes "a") ∷ chunk (bytes "b") ∷ chunk (bytes "c") ∷ []

abbrev last_chunk : ChunkData
last_chunk = record {
  buffer = some [];
  error = some eof;
  status = status_eof;
  timestamp = 9;
  seq = 0;
}

read_chunks-writes_example :
    read_chunks (some ring.head) (writes (joined (abc ∷ []) ++ ab) ring)
    ≡ outcome ab (writes (joined (abc ∷ []) ++ ab) ring).head
unfolding media_chunk new_chunk_data new_stream_coordinator streamweaver.Coordinator.is_error
read_chunks-writes_example =
    read_chunks-writes (abc ∷ []) ab ring ring-IsRing ring_active
      ((refl, (refl, (refl, (refl, tt)))), tt) (refl, (refl, tt)) (omega arith)

abbrev one_client : System
one_client = record { shared = register_client ring; clients = 1 }

one_client-Reach : Reach (bytes "s") 3 one_client
one_client-Reach = next here (come ring 0 (omega arith))

Reach-IsSound_example : IsSound 3 one_client
Reach-IsSound_example = Reach-IsSound (omega arith) one_client-Reach

abbrev ended_stream : StreamCoordinator
ended_stream = (write (some last_chunk) (register_client ring)).0

ended_stream-Reach : Reach (bytes "s") 3 (record { shared = ended_stream; clients = 1 })
ended_stream-Reach = next one_client-Reach (fill (register_client ring) 1 (some last_chunk))

ended_stream_draining : ended_stream.state ≡ draining
unfolding write register_client new_stream_coordinator
ended_stream_draining = refl

draining≢active : draining ≢ active
draining≢active e = absurd cc

abbrev no_client : System
no_client = record { shared = unregister_client (register_client ring); clients = 0 }

no_client-IsSound : IsSound 3 no_client
no_client-IsSound =
    Reach-IsSound (omega arith) (next one_client-Reach (leave (register_client ring) 0))
