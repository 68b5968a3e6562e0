-- ===== src/Coordinator/Ring.antt =====
-- Positions of the ring, and the slots between a reader and the writer.
use streamweaver.Prelude.{
  ℕ, suc, ◌+◌, ◌-◌, ◌≤◌, ◌<◌, ◌≡◌, ◌≢◌, some, List, [], ◌∷◌, arith, ltb, ◌==◌, length, get_elem?,
  if◌then◌else◌,
}
use streamweaver.Coordinator.{ChunkData, next_position}

-- The position `j` steps after `i` in a ring of `n`, for `j` up to `n`.
abbrev pub ahead : ℕ → ℕ → ℕ → ℕ
ahead n i j = if ltb (i + j) n then i + j else i + j - n

pub next_position-lt : (n i : ℕ) → i < n → next_position n i < n
unfolding next_position
next_position-lt n i h = ground arith

pub ahead-next_position :
    (n i j : ℕ) → i < n → j < n → ahead n (next_position n i) j ≡ ahead n i (suc j)
unfolding next_position
ahead-next_position n i j h l = ground arith

pub ahead-ne : (n i j : ℕ) → i < n → 0 < j → j < n → ahead n i j ≢ i
ahead-ne n i j h p l = ground arith

-- r.Prev() in a ring of `n`.
pub prev_position : ℕ → ℕ → ℕ
prev_position n i = if i == 0 then n - 1 else i - 1

pub next_position-prev_position : (n i : ℕ) → i < n → next_position n (prev_position n i) ≡ i
unfolding next_position prev_position
next_position-prev_position n i h = ground arith

pub prev_position-ahead : (n i : ℕ) → i < suc n → prev_position (suc n) i ≡ ahead (suc n) i n
unfolding prev_position
prev_position-ahead n i h = ground arith

pub ahead-distinct : (n i j k : ℕ) → i < n → j < k → k < n → ahead n i k ≢ ahead n i j
ahead-distinct n i j k h l u = ground arith

pub ahead-lt : (n i j : ℕ) → i < n → j ≤ n → ahead n i j < n
ahead-lt n i j h l = ground arith

-- The slots from `i` on hold the listed chunks, one after the other.
abbrev pub Holds : List ChunkData → ℕ → List ChunkData → Type 0
Holds slots i [] = Unit
Holds slots i (w ∷ ws) =
    (get_elem? slots i ≡ some w) × Holds slots (next_position (length slots) i) ws
