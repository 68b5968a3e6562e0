-- ===== src/Coordinator/Restart.antt =====
-- A client that joins a stream whose ring was cleared, as HandleStream does when it starts a writer:
-- it begins at the position before the writer's.
use streamweaver.Prelude.{
  ℕ, zero, suc, ◌+◌, ◌<◌, ◌≡◌, refl, ap, ◌∙◌, Option, none, some, List, [], ◌∷◌, map, arith, ltb,
  length, get_elem?, if◌then◌else◌,
}
use streamweaver.Coordinator.{
  ChunkData, StreamCoordinator, active, is_error, reset, new_chunk_data, clear_buffer,
}
use streamweaver.Coordinator.Reading.{
  blocked, got, add_chunk, add_error, collect, is_stale, read_chunks,
}
use streamweaver.Coordinator.Ring.{
  ahead, ahead-lt, ahead-distinct, prev_position, prev_position-ahead, next_position-prev_position,
}
use streamweaver.Coordinator.Writing.{
  IsRing, writes, IsPlain, Written, writes-Written, writes-active, IsPlain-IsRun,
}
use streamweaver.Coordinator.Copies.{
  delivered, failing, collect-Written, last_error_chunk-silent, failing-plain,
}

length-reset : (cs : List ChunkData) → length (map reset cs) ≡ length cs
length-reset [] = refl
length-reset (c ∷ cs) = ap suc (length-reset cs)

cleared-IsRing : (c : StreamCoordinator) → IsRing c → IsRing (clear_buffer c)
unfolding clear_buffer
cleared-IsRing c r = record { in_range = rw (length-reset c.slots) r.in_range; silent = r.silent }

cleared-length : (c : StreamCoordinator) → length (clear_buffer c).slots ≡ length c.slots
unfolding clear_buffer
cleared-length c = length-reset c.slots

cleared-state : (c : StreamCoordinator) → c.state ≡ active → (clear_buffer c).state ≡ active
unfolding clear_buffer
cleared-state c a = a

cleared-seq : (c : StreamCoordinator) → (clear_buffer c).write_seq ≡ c.write_seq
unfolding clear_buffer
cleared-seq c = refl

get_elem?-cleared :
    (cs : List ChunkData) (i : ℕ) → i < length cs → get_elem? (map reset cs) i ≡ some new_chunk_data
unfolding reset
get_elem?-cleared [] i h = elim h [ ]
get_elem?-cleared (c ∷ cs) zero h = refl
get_elem?-cleared (c ∷ cs) (suc i) h = get_elem?-cleared cs i (omega arith)

cleared-empty :
    (c : StreamCoordinator) (i : ℕ)
    → i < length (clear_buffer c).slots
    → get_elem? (clear_buffer c).slots i ≡ some new_chunk_data
unfolding clear_buffer
cleared-empty c i h = get_elem?-cleared c.slots i (rw (length-reset c.slots) at h)

add_error-new : (o : Option ChunkData) → add_error new_chunk_data o ≡ o
unfolding add_error new_chunk_data is_error
add_error-new none = refl
add_error-new (some e) = refl

add_chunk-new : (cs : List ChunkData) → add_chunk new_chunk_data cs ≡ cs
unfolding add_chunk new_chunk_data
add_chunk-new cs = refl

module _ (ws : List ChunkData) (d c' : StreamCoordinator) (n : ℕ) (r : IsRing d)
    (size : length d.slots ≡ suc n) (fits : length ws < n) (h : Written ws d c')
    (empty : (i : ℕ) → i < length d.slots → get_elem? d.slots i ≡ some new_chunk_data) where
  prev_empty : get_elem? c'.slots (prev_position (suc n) d.head) ≡ some new_chunk_data
  prev_empty =
      let p = prev_position-ahead n d.head (rw (← size) r.in_range) in
      let old =
        empty (ahead (length d.slots) d.head n)
          (ahead-lt (length d.slots) d.head n r.in_range (omega arith)) in
      rw (p, ← size) (h.untouched n (omega arith) (omega arith) ∙ old)

  collect-prev :
      collect (suc n) c'.slots c'.head (prev_position (suc n) d.head) ≡ (delivered ws, failing ws)
  unfolding collect
  collect-prev =
      let size' : length c'.slots ≡ suc n = h.length_eq ∙ size in
      let small : d.head < suc n = rw (← size) r.in_range in
      let rest = collect-Written ws d c' n r (omega arith) (omega arith) h in
      ground (
        arith,
        prev_empty,
        rest,
        size',
        next_position-prev_position (suc n) d.head small,
        prev_position-ahead n d.head small,
        ahead-distinct (suc n) d.head (length ws) n small fits (omega arith),
        h.head_eq,
        add_error-new (failing ws),
        add_chunk-new (delivered ws),
      )

-- The ring, of `n + 1` slots, is cleared while the stream is active, and a client takes the position
-- before the writer's. Then fewer than `n` plain chunks are written before its first read. If, with
-- these, no more chunks than slots were ever written, the client reads them all. Otherwise its position
-- is taken for a stale one: it is moved to the writer's position, sleeps, and has lost them.
pub read_chunks-cleared :
    (ws : List ChunkData) (c : StreamCoordinator) (n : ℕ)
    → IsRing c
    → c.state ≡ active
    → length c.slots ≡ suc n
    → IsPlain ws
    → length ws < n
    → let d = clear_buffer c in
      let c' = writes ws d in
      read_chunks (some (prev_position (suc n) d.head)) c'
      ≡ (if ltb (suc n) (c.write_seq + length ws) then blocked else got (delivered ws) none c'.head)
unfolding read_chunks is_stale new_chunk_data
read_chunks-cleared ws c n r a size p fits =
    let d = clear_buffer c in
    let rd = cleared-IsRing c r in
    let size' : length d.slots ≡ suc n = cleared-length c ∙ size in
    let h = writes-Written ws d rd (cleared-state c a) (IsPlain-IsRun ws p) (omega arith) in
    let small : d.head < suc n = rw (← size') rd.in_range in
    ground (
      arith,
      prev_empty ws d (writes ws d) n rd size' fits h (cleared-empty c),
      collect-prev ws d (writes ws d) n rd size' fits h (cleared-empty c),
      h.seq_eq,
      h.length_eq,
      h.head_eq,
      size',
      cleared-seq c,
      failing-plain ws p,
      last_error_chunk-silent (writes ws d) h.ring,
      writes-active ws d rd (cleared-state c a) p,
      prev_position-ahead n d.head small,
      ahead-distinct (suc n) d.head (length ws) n small fits (omega arith),
    )
