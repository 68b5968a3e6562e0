-- ===== src/Coordinator/Copies.antt =====
-- The copies that a reader gets of a run of chunks.
use streamweaver.Prelude.{
  ℕ, zero, suc, ◌≤◌, ◌<◌, ◌≡◌, refl, true, false, Option, none, some, List, [], ◌∷◌, ◌++◌, arith,
  length,
}
use streamweaver.Coordinator.{ChunkData, StreamCoordinator, is_error, next_position, filled}
use streamweaver.Coordinator.Reading.{
  got, error_copy, add_chunk, add_error, collect, last_error_chunk, or_else, is_stale, start,
  read_chunks,
}
use streamweaver.Coordinator.Ring.{ahead, next_position-lt, ahead-next_position, ahead-ne, Holds}
use streamweaver.Coordinator.Writing.{IsRing, IsPlain, numbered, Written}

-- The copies that a reader gets of a list of chunks: one for each that has data, in order.
unfoldable pub delivered : List ChunkData → List ChunkData
delivered [] = []
delivered (w ∷ ws) = add_chunk w (delivered ws)

add_chunk-filled :
    (n : ℕ) (w : ChunkData) (rest : List ChunkData) → add_chunk (filled n w) rest ≡ add_chunk w rest
unfolding add_chunk filled
add_chunk-filled n w rest = refl

add_error-filled :
    (n : ℕ) (w : ChunkData) (rest : Option ChunkData)
    → add_error (filled n w) rest ≡ add_error w rest
unfolding add_error filled
add_error-filled n w none = refl
add_error-filled n w (some e) = refl

-- The error chunk that a reader gets of a list of chunks: that of the last one that carries one.
pub failing : List ChunkData → Option ChunkData
failing [] = none
failing (w ∷ ws) = add_error w (failing ws)

pub collect-Holds :
    (ws : List ChunkData) (slots : List ChunkData) (fuel i s : ℕ)
    → i < length slots
    → length ws < length slots
    → length ws ≤ fuel
    → Holds slots i (numbered s ws)
    → collect fuel slots (ahead (length slots) i (length ws)) i ≡ (delivered ws, failing ws)
unfolding collect numbered delivered failing
collect-Holds [] slots zero i s r l f h = refl
collect-Holds [] slots (suc fuel) i s r l f h = ground arith
collect-Holds (w ∷ ws) slots zero i s r l f h = absurd (omega arith)
collect-Holds (w ∷ ws) slots (suc fuel) i s r l f h =
    let moved = ahead-ne (length slots) i (suc (length ws)) r (omega arith) l in
    let ih =
      collect-Holds ws slots fuel (next_position (length slots) i) (suc s)
        (next_position-lt (length slots) i r) (omega arith) (omega arith) h.1 in
    let to = ahead-next_position (length slots) i (length ws) r (omega arith) in
    ground (
      arith,
      moved,
      ih,
      to,
      h.0,
      add_chunk-filled (suc s) w (delivered ws),
      add_error-filled (suc s) w (failing ws),
    )

pub or_else-none : (o : Option ChunkData) → or_else o none ≡ o
or_else-none none = refl
or_else-none (some e) = refl

pub last_error_chunk-silent : (c : StreamCoordinator) → IsRing c → last_error_chunk c ≡ none
unfolding last_error_chunk
last_error_chunk-silent c r = rw (r.silent, last_error_chunk)

fresh :
    (ws : List ChunkData) (c c' : StreamCoordinator)
    → 0 < length ws
    → length ws < length c.slots
    → Written ws c c'
    → is_stale c' c.head ≡ false
unfolding is_stale numbered filled
fresh [] c c' p l h = absurd (omega arith)
fresh (w ∷ ws) c c' p l h = ground (arith, h.holds.0, h.seq_eq, h.length_eq)

pub start_home : (c : StreamCoordinator) → start c (some c.head) ≡ c.head
unfolding start
start_home c = ground arith

pub start-Written :
    (ws : List ChunkData) (c c' : StreamCoordinator)
    → 0 < length ws
    → length ws < length c.slots
    → Written ws c c'
    → start c' (some c.head) ≡ c.head
unfolding start
start-Written ws c c' p l h = rw (fresh ws c c' p l h)

pub collect-Written :
    (ws : List ChunkData) (c c' : StreamCoordinator) (fuel : ℕ)
    → IsRing c
    → length ws < length c.slots
    → length ws ≤ fuel
    → Written ws c c'
    → collect fuel c'.slots c'.head c.head ≡ (delivered ws, failing ws)
collect-Written ws c c' fuel r l f h =
    let e : c'.head ≡ ahead (length c'.slots) c.head (length ws) = rw h.length_eq h.head_eq in
    rw e (
      collect-Holds ws c'.slots fuel c.head c.write_seq (rw h.length_eq r.in_range)
        (rw h.length_eq l) f h.holds)

-- A reader that waits at the position from which a run of fewer chunks than the ring has slots was
-- written gets the copies, and the error chunk if the last one carries an error.
pub read-Written :
    (ws : List ChunkData) (c c' : StreamCoordinator)
    → IsRing c
    → 0 < length ws
    → length ws < length c.slots
    → Written ws c c'
    → read_chunks (some c.head) c' ≡ got (delivered ws) (failing ws) c'.head
unfolding read_chunks
read-Written ws c c' r p l h = ground (
  arith,
  fresh ws c c' p l h,
  collect-Written ws c c' (length c'.slots) r l (omega (arith, h.length_eq)) h,
  last_error_chunk-silent c' h.ring,
  or_else-none (failing ws),
  ahead-ne (length c.slots) c.head (length ws) r.in_range p l,
  h.head_eq,
)

pub failing-plain : (ws : List ChunkData) → IsPlain ws → failing ws ≡ none
unfolding failing add_error
failing-plain [] p = refl
failing-plain (w ∷ ws) p = rw (failing-plain ws p.1, add_error) (rw p.0)

pub failing-last :
    (ws : List ChunkData) (e : ChunkData)
    → is_error e ≡ true
    → failing (ws ++ e ∷ []) ≡ some (error_copy e)
unfolding failing add_error
failing-last [] e h = rw h
failing-last (w ∷ ws) e h = rw (failing-last ws e h)
