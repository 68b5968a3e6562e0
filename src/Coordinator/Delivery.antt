-- ===== src/Coordinator/Delivery.antt =====
-- What a client reads of what the writer wrote, a round of the ring behind or more.
use streamweaver.Prelude.{
  ℕ, ◌<◌, ◌≡◌, refl, sym, ap, ◌∙◌, none, some, List, [], ◌∷◌, ◌++◌, arith, length, All,
}
use streamweaver.Coordinator.{ChunkData, StreamCoordinator, active}
use streamweaver.Coordinator.Reading.{Read, blocked, got, resume, start, read_chunks}
use streamweaver.Coordinator.Writing.{
  IsRing, writes, IsPlain, writes-Written, writes-append, writes-active, IsPlain-IsRun,
}
use streamweaver.Coordinator.Copies.{
  delivered, read-Written, failing-plain, start_home, start-Written,
}

abbrev pub joined {ℓ} : {A : Type ℓ} → List (List A) → List A
joined [] = []
joined (r ∷ rs) = r ++ joined rs

abbrev pub AreRounds : ℕ → List (List ChunkData) → Type 0
AreRounds n = All (λ ws. (length ws ≡ n) × IsPlain ws)

-- Where the writer is after whole rounds: back at its position.
record Home (c c' : StreamCoordinator) : Type 0 where
  ring : IsRing c'
  running : c'.state ≡ active
  head_eq : c'.head ≡ c.head
  length_eq : length c'.slots ≡ length c.slots

round-Home :
    (ws : List ChunkData) (c : StreamCoordinator)
    → IsRing c
    → c.state ≡ active
    → IsPlain ws
    → length ws ≡ length c.slots
    → Home c (writes ws c)
round-Home ws c r a p l =
    let h = writes-Written ws c r a (IsPlain-IsRun ws p) (omega arith) in
    record {
      ring = h.ring;
      running = writes-active ws c r a p;
      head_eq = h.head_eq ∙ ground (arith, r.in_range);
      length_eq = h.length_eq;
    }

rounds-Home :
    (rs : List (List ChunkData)) (c : StreamCoordinator)
    → IsRing c
    → c.state ≡ active
    → AreRounds (length c.slots) rs
    → Home c (writes (joined rs) c)
unfolding writes
rounds-Home [] c r a p = record { ring = r; running = a; head_eq = refl; length_eq = refl }
rounds-Home (ws ∷ rs) c r a p =
    let one = round-Home ws c r a p.0.1 p.0.0 in
    let rest = rounds-Home rs (writes ws c) one.ring one.running (rw one.length_eq p.1) in
    rw (writes-append ws (joined rs) c) (record {
      ring = rest.ring;
      running = rest.running;
      head_eq = rest.head_eq ∙ one.head_eq;
      length_eq = rest.length_eq ∙ one.length_eq;
    })

-- The reader at the writer's position of an active ring sleeps.
caught_up : (c : StreamCoordinator) → c.state ≡ active → read_chunks (some c.head) c ≡ blocked
unfolding read_chunks
caught_up c a = ground (arith, a)

-- What a reader gets of the chunks `vs`.
abbrev pub outcome : List ChunkData → ℕ → Read
outcome [] pos = blocked
outcome (v ∷ vs) pos = got (delivered (v ∷ vs)) none pos

read_at :
    {p q : ℕ} (c' : StreamCoordinator) (x : Read)
    → q ≡ p
    → read_chunks (some q) c' ≡ x
    → read_chunks (some p) c' ≡ x
read_at c' x e h = rw (← e) h

-- A client waits at the writer's position. Then plain chunks are written: any number of whole rounds
-- of the ring, and fewer than a round, `vs`, after them. The client reads a copy of each chunk of `vs`
-- that has data, in the order written, with no error, and stands at the writer's new position; with
-- `vs` empty it sleeps. So short of a round nothing is lost, and the chunks of the whole rounds are lost
-- without a sign: the test for a stale position never notices them.
pub read_chunks-writes :
    (rs : List (List ChunkData)) (vs : List ChunkData) (c : StreamCoordinator)
    → IsRing c
    → c.state ≡ active
    → AreRounds (length c.slots) rs
    → IsPlain vs
    → length vs < length c.slots
    → let c' = writes (joined rs ++ vs) c in read_chunks (some c.head) c' ≡ outcome vs c'.head
unfolding writes
read_chunks-writes rs [] c r a p q l =
    let home = rounds-Home rs c r a p in
    rw (writes-append (joined rs) [] c) (
      read_at (writes (joined rs) c) blocked home.head_eq
        (caught_up (writes (joined rs) c) home.running))
read_chunks-writes rs (v ∷ vs) c r a p q l =
    let d = writes (joined rs) c in
    let home = rounds-Home rs c r a p in
    let l' : length (v ∷ vs) < length d.slots = rw home.length_eq l in
    let h =
      writes-Written (v ∷ vs) d home.ring home.running (IsPlain-IsRun (v ∷ vs) q) (omega arith) in
    let seen = read-Written (v ∷ vs) d (writes (v ∷ vs) d) home.ring (omega arith) l' h in
    rw (writes-append (joined rs) (v ∷ vs) c)
      (read_at (writes (v ∷ vs) d) _ home.head_eq (rw (failing-plain (v ∷ vs) q) at seen))

-- The place from which a reader that waits at the position of the writer takes up, after some writes.
pub start-writes :
    (vs : List ChunkData) (c : StreamCoordinator)
    → IsRing c
    → c.state ≡ active
    → IsPlain vs
    → length vs < length c.slots
    → start (writes vs c) (some c.head) ≡ c.head
unfolding writes
start-writes [] c r a q l = start_home c
start-writes (v ∷ vs) c r a q l =
    start-Written (v ∷ vs) c (writes (v ∷ vs) c) (omega arith) l
      (writes-Written (v ∷ vs) c r a (IsPlain-IsRun (v ∷ vs) q) (omega arith))

pub resume-writes :
    (vs : List ChunkData) (c : StreamCoordinator)
    → IsRing c
    → c.state ≡ active
    → IsPlain vs
    → length vs < length c.slots
    → resume c.head (writes vs c) ≡ outcome vs (writes vs c).head
unfolding read_chunks
resume-writes vs c r a q l =
    ap (λ i. resume i (writes vs c)) (sym (start-writes vs c r a q l))
    ∙ read_chunks-writes [] vs c r a tt q l
