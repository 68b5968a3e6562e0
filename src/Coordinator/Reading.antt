-- ===== src/Coordinator/Reading.antt =====
-- ReadChunks of proxy/stream/buffer/coordinator.go, by a client at a position of the ring.
use streamweaver.Prelude.{
  ℕ, zero, suc, ◌+◌, Bool, false, ◌&&◌, Option, none, some, List, [], ◌∷◌, Text, ltb, ◌==◌, length,
  get_elem?, is_empty, not, if◌then◌else◌,
}
use streamweaver.Coordinator.{
  ChunkData, StreamCoordinator, unset, nil_chunk, slot, is_active, is_error, next_position,
}

-- The reader sleeps until it is woken, or has the chunks, an error chunk, and its next position.
pub data Read : Type 0 where
  blocked : Read
  got : List ChunkData → Option ChunkData → ℕ → Read

abbrev pub has_data : Option Text → Bool
has_data none = false
has_data (some b) = not (is_empty b)

-- The copy that the client gets of a chunk with data.
unfoldable pub copied : ChunkData → ChunkData
copied c = record { buffer = c.buffer; error = none; status = 0; timestamp = c.timestamp; seq = 0 }

unfoldable pub error_copy : ChunkData → ChunkData
error_copy c = record {
  buffer = none;
  error = c.error;
  status = c.status;
  timestamp = c.timestamp;
  seq = 0;
}

unfoldable pub add_chunk : ChunkData → List ChunkData → List ChunkData
unfolding copied is_empty
add_chunk c rest = if has_data c.buffer then copied c ∷ rest else rest

-- The error chunk that the loop keeps is the last one that it meets.
unfoldable pub add_error : ChunkData → Option ChunkData → Option ChunkData
unfolding error_copy is_error
add_error c none = if is_error c then some (error_copy c) else none
add_error c (some later) = some later

-- The loop from `current` up to the writer's position. It leaves after a whole round, so the number of
-- slots is enough fuel.
unfoldable pub collect : ℕ → List ChunkData → ℕ → ℕ → List ChunkData × Option ChunkData
unfolding add_chunk add_error next_position
collect zero slots head current = ([], none)
collect (suc fuel) slots head current =
    let rest = collect fuel slots head (next_position (length slots) current) in
    if current == head then ([], none) else elim (get_elem? slots current) [
      | none ↦ rest
      | some c ↦ (add_chunk c rest.0, add_error c rest.1)
    ]

-- The chunk that LastError points to.
unfoldable pub last_error_chunk : StreamCoordinator → Option ChunkData
last_error_chunk c = elim c.last_error [
  | unset ↦ none
  | nil_chunk ↦ none
  | slot i ↦ get_elem? c.slots i
]

abbrev pub or_else {ℓ} : {A : Type ℓ} → Option A → Option A → Option A
or_else (some a) o = some a
or_else none o = o

-- The part after the test for a stale position: it runs again, at the same position, when the reader
-- is woken.
unfoldable pub resume : ℕ → StreamCoordinator → Read
unfolding collect last_error_chunk
resume from c =
    let (chunks, err) = collect (length c.slots) c.slots c.head from in
    if from == c.head && is_active c.state
    then blocked
    else got chunks (or_else err (last_error_chunk c)) c.head

-- A position whose chunk is older than a round goes to the writer's position; `seq < write_seq - size`
-- is written without the difference, which may be negative.
unfoldable pub is_stale : StreamCoordinator → ℕ → Bool
is_stale c from = elim (get_elem? c.slots from) [
  | none ↦ false
  | some cd ↦ ltb (cd.seq + length c.slots) c.write_seq
]

unfoldable pub start : StreamCoordinator → Option ℕ → ℕ
unfolding is_stale
start c none = if is_stale c c.head then c.head else c.head
start c (some from) = if is_stale c from then c.head else from

unfoldable pub read_chunks : Option ℕ → StreamCoordinator → Read
unfolding start resume
read_chunks from c = resume (start c from) c
