-- ===== src/Coordinator/Draining.antt =====
-- What a chunk with an error does to the stream, and who learns of it.
use streamweaver.Prelude.{
  ℕ, suc, ◌<◌, ◌≡◌, refl, sym, ap, ◌∙◌, true, false, Option, none, some, List, [], ◌∷◌, ◌++◌, arith,
  length, length-append,
}
use streamweaver.Coordinator.{
  ChunkData, StreamCoordinator, active, is_active, is_error, closed, write_error, new_chunk_data,
  Failure,
}
use streamweaver.Coordinator.Reading.{got, add_chunk, error_copy, resume, start, read_chunks}
use streamweaver.Coordinator.Writing.{
  IsRing, writes, IsPlain, IsRun, writes-Written, Written, writes-append, writes-active,
  write-Wrote, writes-IsRing,
}
use streamweaver.Coordinator.Copies.{delivered, read-Written, failing-last, start-Written}

IsPlain-IsRun-last : (ws : List ChunkData) (e : ChunkData) → IsPlain ws → IsRun (ws ++ e ∷ [])
IsPlain-IsRun-last [] e p = tt
IsPlain-IsRun-last (w ∷ []) e p = (p.0, tt)
IsPlain-IsRun-last (w ∷ v ∷ ws) e p = (p.0, IsPlain-IsRun-last (v ∷ ws) e p.1)

stops :
    (ws : List ChunkData) (e : ChunkData) (c : StreamCoordinator)
    → IsRing c
    → c.state ≡ active
    → IsPlain ws
    → is_error e ≡ true
    → is_active (writes (ws ++ e ∷ []) c).state ≡ false
unfolding writes
stops ws e c r a p h =
    let d = writes ws c in
    rw (writes-append ws (e ∷ []) c)
      (ground (arith, write-Wrote e d (writes-IsRing ws c r a p) (writes-active ws c r a p)))

-- A closed stream reads as a drained one.
resume-closed :
    (i : ℕ) (c : StreamCoordinator)
    → is_active c.state ≡ false
    → resume i (record c { state = closed }) ≡ resume i c
unfolding resume
resume-closed i c h = rw (resume, h)

start-closed :
    (p : Option ℕ) (c : StreamCoordinator) → start (record c { state = closed }) p ≡ start c p
unfolding start
start-closed none c = refl
start-closed (some i) c = refl

-- The chunk that reports the end of the stream.
unfoldable pub last_chunk : Option Failure → ℕ → ℕ → ChunkData
unfolding new_chunk_data
last_chunk err status now = record new_chunk_data { error = err; status = status; timestamp = now }

delivered-last :
    (ws : List ChunkData) (err : Option Failure) (status now : ℕ)
    → delivered (ws ++ last_chunk err status now ∷ []) ≡ delivered ws
unfolding delivered last_chunk add_chunk
delivered-last [] err status now = refl
delivered-last (w ∷ ws) err status now =
    ap (λ cs. add_chunk w cs) (delivered-last ws err status now)

module _ (ws : List ChunkData) (err : Option Failure) (status now : ℕ) (c : StreamCoordinator)
    (r : IsRing c) (a : c.state ≡ active) (p : IsPlain ws)
    (h : is_error (last_chunk err status now) ≡ true) (l : suc (length ws) < length c.slots) where
  abbrev end_chunk : ChunkData
  end_chunk = last_chunk err status now

  write_error-writes :
      write_error err status now (writes ws c)
      ≡ record (writes (ws ++ end_chunk ∷ []) c) { state = closed }
  unfolding write_error last_chunk writes
  write_error-writes = rw (writes-append ws (end_chunk ∷ []) c)

  all_Written : Written (ws ++ end_chunk ∷ []) c (writes (ws ++ end_chunk ∷ []) c)
  all_Written =
      writes-Written (ws ++ end_chunk ∷ []) c r a (IsPlain-IsRun-last ws end_chunk p)
        (omega (arith, length-append ws (end_chunk ∷ [])))

  some-all : 0 < length (ws ++ end_chunk ∷ [])
  some-all = omega (arith, length-append ws (end_chunk ∷ []))

  few-all : length (ws ++ end_chunk ∷ []) < length c.slots
  few-all = omega (arith, length-append ws (end_chunk ∷ []))

  start-all : start (writes (ws ++ end_chunk ∷ []) c) (some c.head) ≡ c.head
  start-all = start-Written (ws ++ end_chunk ∷ []) c _ some-all few-all all_Written

  resume-all :
      let d = writes (ws ++ end_chunk ∷ []) c in
      resume c.head d ≡ got (delivered ws) (some (error_copy end_chunk)) d.head
  unfolding read_chunks
  resume-all =
      ap (λ i. resume i (writes (ws ++ end_chunk ∷ []) c)) (sym start-all)
      ∙ rw (failing-last ws end_chunk h, delivered-last ws err status now) at
          (read-Written (ws ++ end_chunk ∷ []) c _ r some-all few-all all_Written)

  pub start-write_error : start (write_error err status now (writes ws c)) (some c.head) ≡ c.head
  start-write_error =
      rw write_error-writes
        (start-closed (some c.head) (writes (ws ++ end_chunk ∷ []) c) ∙ start-all)

  pub resume-write_error :
      let c' = write_error err status now (writes ws c) in
      resume c.head c' ≡ got (delivered ws) (some (error_copy end_chunk)) c'.head
  resume-write_error = rw write_error-writes (
      resume-closed c.head (writes (ws ++ end_chunk ∷ []) c) (stops ws end_chunk c r a p h)
      ∙ resume-all)
