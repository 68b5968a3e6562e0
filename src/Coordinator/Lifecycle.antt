-- ===== src/Coordinator/Lifecycle.antt =====
-- The coordinator over any interleaving of its clients and its writer.
use streamweaver.Prelude.{
  ℕ, zero, suc, ◌≤◌, ◌<◌, ◌≡◌, refl, ap, ◌≢◌, Table, true, false, Option, none, some, List, [], ◌∷◌,
  map, arith, length, set, replicate, length-set, length-replicate, get_elem?-some_of_lt, Text, pos,
  max_int32,
}
use streamweaver.Coordinator.{
  ChunkData, StreamCoordinator, Failure, nil_chunk, active, draining, write, write_error, filled,
  reset, new_chunk_data, new_stream_coordinator, register_client, unregister_client, clear_buffer,
  set_actual_url, has_client,
}
use streamweaver.LoadBalancer.{LoadBalancerResult}
use streamweaver.Coordinator.Ring.{next_position-lt}

-- The coordinator, and how many clients are attached to it.
pub record System : Type 0 where
  pub shared : StreamCoordinator
  pub clients : ℕ

-- One call of a method, by a client or by the writer. A client leaves once, after it has come.
-- `forget` is the store of a nil chunk into LastError by StreamHandler.HandleStream, and `announce` the
-- stores of a writer that begins or ends.
pub data Step : System → System → Type 0 where
  come :
      (c : StreamCoordinator) (n : ℕ)
      → n < max_int32
      → Step
          (record { shared = c; clients = n })
          (record { shared = register_client c; clients = suc n })
  leave :
      (c : StreamCoordinator) (n : ℕ)
      → Step
          (record { shared = c; clients = suc n })
          (record { shared = unregister_client c; clients = n })
  fill :
      (c : StreamCoordinator) (n : ℕ) (w : Option ChunkData)
      → Step (record { shared = c; clients = n }) (record { shared = (write w c).0; clients = n })
  fail :
      (c : StreamCoordinator) (n : ℕ) (e : Option Failure) (status now : ℕ)
      → Step
          (record { shared = c; clients = n })
          (record { shared = write_error e status now c; clients = n })
  clear :
      (c : StreamCoordinator) (n : ℕ)
      → Step (record { shared = c; clients = n }) (record { shared = clear_buffer c; clients = n })
  forget :
      (c : StreamCoordinator) (n : ℕ)
      → Step
          (record { shared = c; clients = n })
          (record { shared = record c { last_error = nil_chunk }; clients = n })
  locate :
      (c : StreamCoordinator) (n : ℕ) (url : Text)
      → Step
          (record { shared = c; clients = n })
          (record { shared = set_actual_url url c; clients = n })
  announce :
      (c : StreamCoordinator) (n : ℕ) (result : Option LoadBalancerResult)
      (header : Option (Table (List Text)))
      → Step
          (record { shared = c; clients = n })
          (record {
            shared = record c { lb_result_on_write = result; writer_resp_header = header };
            clients = n;
          })

-- From a new coordinator with `size` slots.
pub data Reach (id : Text) (size : ℕ) : System → Type 0 where
  here : Reach id size (record { shared = new_stream_coordinator id size; clients = 0 })
  next : {s t : System} → Reach id size s → Step s t → Reach id size t

-- No slot is ahead of the writer's sequence number.
abbrev pub UpTo : ℕ → List ChunkData → Type 0
UpTo n [] = Unit
UpTo n (c ∷ cs) = (c.seq ≤ n) × UpTo n cs

pub record IsSound (size : ℕ) (s : System) : Type 0 where
  pub size_eq : length s.shared.slots ≡ size
  pub in_range : s.shared.head < size
  pub silent : s.shared.last_error ≡ nil_chunk
  pub counted : s.shared.client_count ≡ pos s.clients
  pub few : s.clients ≤ max_int32
  pub numbered : UpTo s.shared.write_seq s.shared.slots

UpTo-suc : (n : ℕ) (cs : List ChunkData) → UpTo n cs → UpTo (suc n) cs
UpTo-suc n [] h = tt
UpTo-suc n (c ∷ cs) h = (omega arith, UpTo-suc n cs h.1)

UpTo-set :
    (n : ℕ) (cs : List ChunkData) (i : ℕ) (c : ChunkData)
    → UpTo n cs
    → c.seq ≤ n
    → UpTo n (set cs i c)
UpTo-set n [] i c h l = tt
UpTo-set n (d ∷ cs) zero c h l = (l, h.1)
UpTo-set n (d ∷ cs) (suc i) c h l = (h.0, UpTo-set n cs i c h.1 l)

UpTo-reset : (n : ℕ) (cs : List ChunkData) → UpTo n (map reset cs)
unfolding reset new_chunk_data
UpTo-reset n [] = tt
UpTo-reset n (c ∷ cs) = (omega arith, UpTo-reset n cs)

UpTo-new : (n k : ℕ) → UpTo n (replicate k new_chunk_data)
unfolding new_chunk_data
UpTo-new n zero = tt
UpTo-new n (suc k) = (omega arith, UpTo-new n k)

pub length-reset : (cs : List ChunkData) → length (map reset cs) ≡ length cs
length-reset [] = refl
length-reset (c ∷ cs) = ap suc (length-reset cs)

new-IsSound :
    (id : Text) (size : ℕ)
    → 0 < size
    → IsSound size (record { shared = new_stream_coordinator id size; clients = 0 })
unfolding new_stream_coordinator
new-IsSound id size h = record {
  size_eq = length-replicate size new_chunk_data;
  in_range = h;
  silent = refl;
  counted = refl;
  few = omega arith;
  numbered = UpTo-new 0 size;
}

write-IsSound :
    (size n : ℕ) (w : Option ChunkData) (c : StreamCoordinator)
    → IsSound size (record { shared = c; clients = n })
    → IsSound size (record { shared = (write w c).0; clients = n })
unfolding write
write-IsSound size n none c v = v
write-IsSound size n (some w) c v = ground (
  arith,
  get_elem?-some_of_lt c.slots c.head,
  next_position-lt (length c.slots) c.head,
  length-set c.slots c.head (filled (suc c.write_seq) w),
  UpTo-set (suc c.write_seq) c.slots c.head (filled (suc c.write_seq) w)
      (UpTo-suc c.write_seq c.slots v.numbered),
)

fail-IsSound :
    (size n : ℕ) (e : Option Failure) (status now : ℕ) (c : StreamCoordinator)
    → IsSound size (record { shared = c; clients = n })
    → IsSound size (record { shared = write_error e status now c; clients = n })
unfolding write_error
fail-IsSound size n e status now c v =
    let w = record new_chunk_data { error = e; status = status; timestamp = now } in
    let v' = write-IsSound size n (some w) c v in
    record {
      size_eq = v'.size_eq;
      in_range = v'.in_range;
      silent = v'.silent;
      counted = v'.counted;
      few = v'.few;
      numbered = v'.numbered;
    }

-- Every step keeps the system sound.
Step-IsSound : {size : ℕ} {s t : System} → Step s t → IsSound size s → IsSound size t
unfolding register_client unregister_client clear_buffer set_actual_url
Step-IsSound (come c n few) v = ground arith
Step-IsSound (leave c n) v = ground (arith, length-reset c.slots, UpTo-reset c.write_seq c.slots)
Step-IsSound {size} (fill c n w) v = write-IsSound size n w c v
Step-IsSound {size} (fail c n e status now) v = fail-IsSound size n e status now c v
Step-IsSound (clear c n) v = ground (arith, length-reset c.slots, UpTo-reset c.write_seq c.slots)
Step-IsSound (forget c n) v = ground arith
Step-IsSound (locate c n url) v = ground arith
Step-IsSound (announce c n result header) v = ground arith

-- After any interleaving of calls, from a new coordinator whose ring is not empty: the ring keeps its
-- size and the writer's position is in it, no slot is numbered past the writer's number, the client
-- count is the number of clients attached, and LastError holds a nil chunk. So a write of an error never
-- stores its chunk there.
pub Reach-IsSound :
    {id : Text} {size : ℕ} {s : System} → 0 < size → Reach id size s → IsSound size s
Reach-IsSound {id} {size} h here = new-IsSound id size h
Reach-IsSound h (next r st) = Step-IsSound st (Reach-IsSound h r)

all_fresh : (cs : List ChunkData) → map reset cs ≡ replicate (length cs) new_chunk_data
unfolding reset
all_fresh [] = refl
all_fresh (c ∷ cs) = ap (◌∷◌ new_chunk_data) (all_fresh cs)

-- When the last client leaves, the stream drains: every slot is as new, the writer has its signal, and
-- a write is refused. The next client to come makes the stream active again.
pub last_client_leaves :
    {id : Text} {size : ℕ} (c : StreamCoordinator) (w : ChunkData)
    → 0 < size
    → Reach id size (record { shared = c; clients = 1 })
    → let d = unregister_client c in
      (d.state ≡ draining)
      × (d.slots ≡ replicate size new_chunk_data)
      × (d.writer_chan ≡ true)
      × (has_client d ≡ false)
      × (write (some w) d ≡ (d, some (reset w), false))
      × ((register_client d).state ≡ active)
      × (has_client (register_client d) ≡ true)
unfolding unregister_client register_client has_client write
last_client_leaves c w h r =
    let v = Reach-IsSound h r in ground (arith, v.counted, v.size_eq, all_fresh c.slots)

-- A client that comes to a stream that is not active, while others are attached, does not make it
-- active: it is registered on a stream that refuses every write.
pub join_stopped :
    {id : Text} {size : ℕ} (c : StreamCoordinator) (n : ℕ) (w : ChunkData)
    → 0 < size
    → Reach id size (record { shared = c; clients = suc n })
    → suc n < max_int32
    → c.state ≢ active
    → let d = register_client c in
      (d.state ≡ c.state)
      × (d.client_count ≡ pos (suc (suc n)))
      × (write (some w) d ≡ (d, some (reset w), false))
unfolding register_client write
join_stopped c n w h r few stopped = let v = Reach-IsSound h r in ground (arith, v.counted)

-- A stream that is not active becomes active only by a client that comes while no other is attached.
pub only_first_client_restarts :
    {size : ℕ} {s t : System}
    → Step s t
    → IsSound size s
    → s.shared.state ≢ active
    → t.shared.state ≡ active
    → (s.clients ≡ 0) × (t.clients ≡ 1)
unfolding register_client unregister_client clear_buffer set_actual_url write write_error
only_first_client_restarts (come c n few) v stopped runs = ground (arith, v.counted)
only_first_client_restarts (leave c n) v stopped runs = ground (arith, v.counted)
only_first_client_restarts (fill c n none) v stopped runs = ground (arith, v.counted)
only_first_client_restarts (fill c n (some w)) v stopped runs = ground (arith, v.counted)
only_first_client_restarts (fail c n e status now) v stopped runs = ground (arith, v.counted)
only_first_client_restarts (clear c n) v stopped runs = ground (arith, v.counted)
only_first_client_restarts (forget c n) v stopped runs = ground (arith, v.counted)
only_first_client_restarts (locate c n url) v stopped runs = ground (arith, v.counted)
only_first_client_restarts (announce c n result header) v stopped runs = ground (arith, v.counted)
