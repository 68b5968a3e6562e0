-- ===== src/Coordinator/Pump.antt =====
-- What the writer's loop makes of the reads.
use streamweaver.Prelude.{
  ℕ, suc, ◌+◌, ◌≤◌, ◌<◌, ◌≡◌, ◌≢◌, refl, sym, ap, ◌∙◌, subst, Bool, true, false, none, some, List,
  [], ◌∷◌, map, arith, All, length, is_empty, Text, ltb, if◌then◌else◌,
}
use streamweaver.Backoff.{next}
use streamweaver.Config.{StreamConfig}
use streamweaver.Coordinator.{
  Failure, eof, canceled, failure, StreamCoordinator, ChunkData, active, draining, is_error, write,
}
use streamweaver.Coordinator.Loop.{
  Turn, LoopState, going, left, Process, should_timeout, should_retry, on_data, on_empty, settle,
  processed, on_turn, turn, turns, write_media, media_chunk, retry, new_loop, read_and_write_stream,
}
use streamweaver.Coordinator.Writing.{IsRing, writes, write-Wrote}

-- A turn in which nobody else changes the coordinator, and the context is not done.
pub record IsQuiet (t : Turn) : Type 0 where
  pub others_eq : (c : StreamCoordinator) → t.others c ≡ c
  pub not_done : t.done ≡ none

-- A quiet turn that reads bytes, and no error.
pub record IsSteady (t : Turn) : Type 0 where
  pub quiet : IsQuiet t
  pub has_bytes : is_empty t.bytes_read ≡ false
  pub no_error : t.error ≡ none

pub record IsEmpty (t : Turn) : Type 0 where
  pub quiet : IsQuiet t
  pub no_bytes : is_empty t.bytes_read ≡ true

-- Each turn comes before the timeout after the read before it.
abbrev pub IsPaced : StreamConfig → ℕ → List Turn → Type 0
IsPaced cfg last [] = Unit
IsPaced cfg last (t ∷ ts) = (should_timeout cfg last t.tested_at ≡ false) × IsPaced cfg t.read_at ts

abbrev pub chunk_of : Turn → ChunkData
chunk_of t = media_chunk t.read_at t.bytes_read

ltb-true : (a b : ℕ) → a < b → ltb a b ≡ true
ltb-true a b h = ground arith

ltb-false : (a b : ℕ) → b ≤ a → ltb a b ≡ false
ltb-false a b h = ground arith

pub if_false {ℓ} : {A : Type ℓ} {b : Bool} (x : A) {y : A} → b ≡ false → (if b then x else y) ≡ y
if_false x h = rw h

pub if_true {ℓ} : {A : Type ℓ} {b : Bool} {x : A} (y : A) → b ≡ true → (if b then x else y) ≡ x
if_true y h = rw h

module _ (cfg : StreamConfig) (process : Process) where
  on_turn-go :
      (t : Turn) (l : LoopState) (c : StreamCoordinator)
      → c.state ≡ active
      → t.done ≡ none
      → should_timeout cfg l.last_success t.tested_at ≡ false
      → on_turn cfg process t l c
        ≡ (if is_empty t.bytes_read then on_empty cfg process l c else on_data cfg process t l c)
  unfolding on_turn
  on_turn-go t l c a d p = ground arith

  pub turn-go :
      (t : Turn) (l : LoopState) (c : StreamCoordinator)
      → c.state ≡ active
      → IsQuiet t
      → should_timeout cfg l.last_success t.tested_at ≡ false
      → turn cfg process t l c
        ≡ (if is_empty t.bytes_read then on_empty cfg process l c else on_data cfg process t l c)
  unfolding turn
  turn-go t l c a q p =
      ap (on_turn cfg process t l) (q.others_eq c) ∙ on_turn-go t l c a q.not_done p

  on_data-no_error :
      (t : Turn) (l : LoopState) (c : StreamCoordinator)
      → t.error ≡ none
      → on_data cfg process t l c
        ≡ processed cfg process
            (some (
              settle cfg process t.ended_at
                (record l { last_success = t.read_at; zero_reads = 0 })))
            none
            (process t.read_at t.bytes_read c)
  unfolding on_data
  on_data-no_error t l c e = ground arith

  settle-last_success :
      (now : ℕ) (l : LoopState) → (settle cfg process now l).last_success ≡ l.last_success
  unfolding settle
  settle-last_success now l = ground arith

pub turn-steady :
    (cfg : StreamConfig) (t : Turn) (l : LoopState) (c : StreamCoordinator)
    → c.state ≡ active
    → IsSteady t
    → should_timeout cfg l.last_success t.tested_at ≡ false
    → (l' : LoopState) × (l'.last_success ≡ t.read_at)
      × (turn cfg write_media t l c ≡ going l' (write (some (chunk_of t)) c).0)
unfolding write_media processed
turn-steady cfg t l c a q p = (
  settle cfg write_media t.ended_at (record l { last_success = t.read_at; zero_reads = 0 }),
  settle-last_success cfg write_media t.ended_at
      (record l { last_success = t.read_at; zero_reads = 0 }),
  turn-go cfg write_media t l c a q.quiet p
      ∙ if_false (on_empty cfg write_media l c) q.has_bytes
      ∙ on_data-no_error cfg write_media t l c q.no_error,
)

pub media_chunk-plain : (now : ℕ) (b : Text) → is_error (media_chunk now b) ≡ false
unfolding media_chunk is_error
media_chunk-plain now b = refl

turns-steady :
    (cfg : StreamConfig) (ts : List Turn) (l : LoopState) (c : StreamCoordinator)
    → IsRing c
    → c.state ≡ active
    → All IsSteady ts
    → IsPaced cfg l.last_success ts
    → (l' : LoopState) × (turns cfg write_media ts l c ≡ going l' (writes (map chunk_of ts) c))
unfolding turns writes
turns-steady cfg [] l c r a q p = (l, refl)
turns-steady cfg (t ∷ ts) l c r a q p =
    let (l', s, e) = turn-steady cfg t l c a q.0 p.0 in
    let wrote = write-Wrote (chunk_of t) c r a in
    let open' =
      wrote.state_eq
      ∙ ap (λ b. if b then draining else active) (media_chunk-plain t.read_at t.bytes_read) in
    rw (e, turns)
      (turns-steady cfg ts l' _ wrote.ring open' q.1 (subst (λ x. IsPaced cfg x ts) (sym s) p.1))

-- While bytes come in time and without errors, the loop goes on, and has written a chunk for each read,
-- with its bytes and its time, in order.
pub pump-data :
    (cfg : StreamConfig) (ts : List Turn) (now : ℕ) (c : StreamCoordinator)
    → IsRing c
    → c.state ≡ active
    → All IsSteady ts
    → IsPaced cfg now ts
    → (l : LoopState) × (read_and_write_stream cfg write_media now ts c
        ≡ going l (writes (map chunk_of ts) c))
unfolding read_and_write_stream new_loop
pump-data cfg ts now c r a q p = turns-steady cfg ts (new_loop cfg now) c r a q p

turn-empty :
    (cfg : StreamConfig) (process : Process) (t : Turn) (l : LoopState) (c : StreamCoordinator)
    → c.state ≡ active
    → IsEmpty t
    → should_timeout cfg l.last_success t.tested_at ≡ false
    → turn cfg process t l c ≡ on_empty cfg process l c
turn-empty cfg process t l c a q p =
    turn-go cfg process t l c a q.quiet p ∙ if_true (on_data cfg process t l c) q.no_bytes

turns-empty :
    (cfg : StreamConfig) (process : Process) (t : Turn) (ts : List Turn) (l : LoopState)
    (c : StreamCoordinator)
    → c.state ≡ active
    → All IsEmpty (t ∷ ts)
    → All (λ u. should_timeout cfg l.last_success u.tested_at ≡ false) (t ∷ ts)
    → l.zero_reads + length ts ≡ 10
    → turns cfg process (t ∷ ts) l c ≡ left (some eof) c
unfolding turns
turns-empty cfg process t [] l c a q p h = rw (
  turn-empty cfg process t l c a q.0 p.0 ∙ if_true _ (ltb-true 10 (suc l.zero_reads) (omega arith)),
  turns,
)
turns-empty cfg process t (u ∷ ts) l c a q p h =
    rw
      (
        turn-empty cfg process t l c a q.0 p.0
            ∙ if_false _ (ltb-false 10 (suc l.zero_reads) (omega arith)),
        turns,
      )
      (turns-empty cfg process u ts (record l { zero_reads = suc l.zero_reads }) c a q.1 p.1
        (omega arith))

-- Eleven reads in a row that give no bytes end the stream as its regular end does, whatever errors they
-- gave; nothing is written.
pub pump-empty :
    (cfg : StreamConfig) (process : Process) (ts : List Turn) (now : ℕ) (c : StreamCoordinator)
    → c.state ≡ active
    → All IsEmpty ts
    → All (λ u. should_timeout cfg now u.tested_at ≡ false) ts
    → length ts ≡ 11
    → read_and_write_stream cfg process now ts c ≡ left (some eof) c
unfolding read_and_write_stream new_loop
pump-empty cfg process [] now c a q p h = ground arith
pump-empty cfg process (t ∷ ts) now c a q p h =
    turns-empty cfg process t ts (new_loop cfg now) c a q p (omega arith)

on_data-error :
    (cfg : StreamConfig) (process : Process) (t : Turn) (e : Failure) (l : LoopState)
    (c : StreamCoordinator)
    → t.error ≡ some e
    → e ≢ eof
    → should_retry cfg ≡ true
    → on_data cfg process t l c
      ≡ going
          (record l {
            last_success = t.read_at;
            zero_reads = 0;
            backoff = (next l.backoff).1;
            last_err = t.ended_at;
          })
          c
unfolding on_data retry
on_data-error cfg process t eof l c h n r = absurd (n refl)
on_data-error cfg process t canceled l c h n r = rw (h, r, on_data, retry)
on_data-error cfg process t (failure s) l c h n r = rw (h, r, on_data, retry)

-- Bytes that come together with an error other than the end of the stream are dropped: the loop waits,
-- and goes on, with the coordinator as it was.
pub pump-error :
    (cfg : StreamConfig) (process : Process) (t : Turn) (e : Failure) (l : LoopState)
    (c : StreamCoordinator)
    → c.state ≡ active
    → IsQuiet t
    → should_timeout cfg l.last_success t.tested_at ≡ false
    → is_empty t.bytes_read ≡ false
    → t.error ≡ some e
    → e ≢ eof
    → should_retry cfg ≡ true
    → turn cfg process t l c
      ≡ going
          (record l {
            last_success = t.read_at;
            zero_reads = 0;
            backoff = (next l.backoff).1;
            last_err = t.ended_at;
          })
          c
pump-error cfg process t e l c a q p b h n r =
    turn-go cfg process t l c a q p
    ∙ if_false (on_empty cfg process l c) b
    ∙ on_data-error cfg process t e l c h n r
