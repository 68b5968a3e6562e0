-- ===== src/Coordinator/Writing.antt =====
-- What a run of writes leaves in the ring.
use streamweaver.Prelude.{
  ℕ, zero, suc, ◌+◌, ◌-◌, ◌≤◌, ◌<◌, ◌≡◌, refl, sym, ◌∙◌, false, some, List, [], ◌∷◌, ◌++◌, arith,
  length, get_elem?, set, length-set, get_elem?-set_self, get_elem?-set_ne, get_elem?-some_of_lt,
  if◌then◌else◌, All,
}
use streamweaver.Coordinator.{
  ChunkData, StreamCoordinator, nil_chunk, State, active, draining, is_error, next_position, write,
  filled,
}
use streamweaver.Coordinator.Ring.{ahead, next_position-lt, ahead-next_position, ahead-ne, Holds}

-- The writer's position is a slot, and LastError holds a nil chunk, as it does from the start on.
pub record IsRing (c : StreamCoordinator) : Type 0 where
  pub in_range : c.head < length c.slots
  pub silent : c.last_error ≡ nil_chunk

-- A list of writes, one after the other.
unfoldable pub writes : List ChunkData → StreamCoordinator → StreamCoordinator
writes [] c = c
writes (w ∷ ws) c = writes ws (write (some w) c).0

-- No chunk of the list carries an error or a status.
abbrev pub IsPlain : List ChunkData → Type 0
IsPlain = All (λ w. is_error w ≡ false)

-- None but the last may carry one.
abbrev pub IsRun : List ChunkData → Type 0
IsRun [] = Unit
IsRun (w ∷ []) = Unit
IsRun (w ∷ v ∷ ws) = (is_error w ≡ false) × IsRun (v ∷ ws)

abbrev pub state_after : ChunkData → State
state_after w = if is_error w then draining else active

-- The chunks as the slots hold them, numbered from `s + 1` on.
unfoldable pub numbered : ℕ → List ChunkData → List ChunkData
numbered s [] = []
numbered s (w ∷ ws) = filled (suc s) w ∷ numbered (suc s) ws

-- What is left of a write into an active ring.
pub record Wrote (w : ChunkData) (c c' : StreamCoordinator) : Type 0 where
  pub slots_eq : c'.slots ≡ set c.slots c.head (filled (suc c.write_seq) w)
  pub head_eq : c'.head ≡ next_position (length c.slots) c.head
  pub seq_eq : c'.write_seq ≡ suc c.write_seq
  pub state_eq : c'.state ≡ state_after w
  pub length_eq : length c'.slots ≡ length c.slots
  pub ring : IsRing c'

pub write-Wrote :
    (w : ChunkData) (c : StreamCoordinator)
    → IsRing c
    → c.state ≡ active
    → Wrote w c (write (some w) c).0
unfolding write
write-Wrote w c r a = ground (
  arith,
  get_elem?-some_of_lt c.slots c.head r.in_range,
  next_position-lt (length c.slots) c.head,
  length-set c.slots c.head (filled (suc c.write_seq) w),
)

-- What a round of writes at most leaves: the slots from the old position on hold them, and the
-- others are as they were.
pub record Written (ws : List ChunkData) (c c' : StreamCoordinator) : Type 0 where
  pub length_eq : length c'.slots ≡ length c.slots
  pub head_eq : c'.head ≡ ahead (length c.slots) c.head (length ws)
  pub seq_eq : c'.write_seq ≡ c.write_seq + length ws
  pub ring : IsRing c'
  pub holds : Holds c'.slots c.head (numbered c.write_seq ws)
  pub untouched :
      (j : ℕ)
      → length ws ≤ j
      → j < length c.slots
      → get_elem? c'.slots (ahead (length c.slots) c.head j)
        ≡ get_elem? c.slots (ahead (length c.slots) c.head j)

Written-nil : (c : StreamCoordinator) → IsRing c → Written [] c c
unfolding numbered
Written-nil c r = record {
  length_eq = refl;
  head_eq = ground (arith, r.in_range);
  seq_eq = omega arith;
  ring = r;
  holds = tt;
  untouched = λ j l u. refl;
}

module _ (w : ChunkData) (ws : List ChunkData) (c d c' : StreamCoordinator) (r : IsRing c)
    (fits : suc (length ws) ≤ length c.slots) (one : Wrote w c d) (rest : Written ws d c') where
  other :
      (j : ℕ)
      → length ws ≤ j
      → j < length c.slots
      → get_elem? c'.slots (ahead (length c.slots) c.head (suc j))
        ≡ get_elem? d.slots (ahead (length c.slots) c.head (suc j))
  other j l u =
      let e : ahead (length d.slots) d.head j ≡ ahead (length c.slots) c.head (suc j) =
        rw (one.length_eq, one.head_eq)
          (ahead-next_position (length c.slots) c.head j r.in_range u) in
      rw e at (rest.untouched j l (rw one.length_eq u))

  first : get_elem? c'.slots c.head ≡ some (filled (suc c.write_seq) w)
  first =
      let e : ahead (length c.slots) c.head (suc (length c.slots - 1)) ≡ c.head =
        ground (arith, r.in_range) in
      let kept : get_elem? c'.slots c.head ≡ get_elem? d.slots c.head =
        rw e at (other (length c.slots - 1) (omega arith) (omega arith)) in
      kept ∙ rw one.slots_eq (get_elem?-set_self c.slots c.head _ r.in_range)

  untouched-cons :
      (j : ℕ)
      → suc (length ws) ≤ j
      → j < length c.slots
      → get_elem? c'.slots (ahead (length c.slots) c.head j)
        ≡ get_elem? c.slots (ahead (length c.slots) c.head j)
  untouched-cons zero l u = absurd (omega arith)
  untouched-cons (suc j) l u =
      other j (omega arith) (omega arith)
      ∙ rw one.slots_eq (
          get_elem?-set_ne c.slots c.head _ _
            (λ e. ahead-ne (length c.slots) c.head (suc j) r.in_range (omega arith) u (sym e)))

  Written-cons : Written (w ∷ ws) c c'
  unfolding numbered
  Written-cons = record {
    length_eq = rest.length_eq ∙ one.length_eq;
    head_eq =
        rest.head_eq
        ∙ rw (one.length_eq, one.head_eq)
            (ahead-next_position (length c.slots) c.head (length ws) r.in_range (omega arith));
    seq_eq = omega (arith, rest.seq_eq, one.seq_eq);
    ring = rest.ring;
    holds = (first, rw (rest.length_eq, one.length_eq, ← one.head_eq, ← one.seq_eq) rest.holds);
    untouched = untouched-cons;
  }

pub writes-Written :
    (ws : List ChunkData) (c : StreamCoordinator)
    → IsRing c
    → c.state ≡ active
    → IsRun ws
    → length ws ≤ length c.slots
    → Written ws c (writes ws c)
unfolding writes
writes-Written [] c r a p l = Written-nil c r
writes-Written (w ∷ []) c r a p l =
    let one = write-Wrote w c r a in Written-cons w [] c _ _ r l one (Written-nil _ one.ring)
writes-Written (w ∷ v ∷ ws) c r a p l =
    let one = write-Wrote w c r a in
    Written-cons w (v ∷ ws) c (write (some w) c).0 _ r l one (
      writes-Written (v ∷ ws) (write (some w) c).0 one.ring (ground (arith, one.state_eq)) p.1
        (rw one.length_eq (omega arith)))

pub writes-append :
    (ws vs : List ChunkData) (c : StreamCoordinator) → writes (ws ++ vs) c ≡ writes vs (writes ws c)
unfolding writes
writes-append [] vs c = refl
writes-append (w ∷ ws) vs c = writes-append ws vs (write (some w) c).0

pub writes-active :
    (ws : List ChunkData) (c : StreamCoordinator)
    → IsRing c
    → c.state ≡ active
    → IsPlain ws
    → (writes ws c).state ≡ active
unfolding writes
writes-active [] c r a p = a
writes-active (w ∷ ws) c r a p =
    let one = write-Wrote w c r a in
    writes-active ws (write (some w) c).0 one.ring (ground (arith, one.state_eq, p.0)) p.1

pub IsPlain-IsRun : (ws : List ChunkData) → IsPlain ws → IsRun ws
IsPlain-IsRun [] p = tt
IsPlain-IsRun (w ∷ []) p = tt
IsPlain-IsRun (w ∷ v ∷ ws) p = (p.0, IsPlain-IsRun (v ∷ ws) p.1)

pub writes-IsRing :
    (ws : List ChunkData) (c : StreamCoordinator)
    → IsRing c
    → c.state ≡ active
    → IsPlain ws
    → IsRing (writes ws c)
unfolding writes
writes-IsRing [] c r a p = r
writes-IsRing (w ∷ ws) c r a p =
    let one = write-Wrote w c r a in
    writes-IsRing ws (write (some w) c).0 one.ring (ground (arith, one.state_eq, p.0)) p.1
