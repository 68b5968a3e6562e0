-- ===== src/Coordinator/Media.antt =====
-- The media writer from the first read to the end of the stream, and the connection that it counts.
use streamweaver.Prelude.{
  ℕ, ◌≤◌, ◌≡◌, refl, sym, ap, ◌∙◌, subst, true, false, Option, none, some, List, [], ◌∷◌, ◌++◌, map,
  All, length, is_empty, Text, if◌then◌else◌, pos, max_int32,
}
use streamweaver.Config.{StreamConfig}
use streamweaver.Store.{
  ConcurrencyManager, Getenv, new_concurrency_manager, get_count, update_concurrency,
}
use streamweaver.Store.Counting.{Update, run, open_after, get_count-run}
use streamweaver.LoadBalancer.{LoadBalancerResult}
use streamweaver.Coordinator.{
  Failure, eof, StreamCoordinator, active, draining, write, write_error, status_eof,
}
use streamweaver.Coordinator.Loop.{
  Turn, LoopState, left, on_data, turns, write_media, processed, new_loop, read_and_write_stream,
  close_media, start_media_writer, open_media, on_empty,
}
use streamweaver.Coordinator.Writing.{IsRing, writes, write-Wrote}
use streamweaver.Coordinator.Pump.{
  IsQuiet, IsSteady, IsPaced, chunk_of, turn-go, turn-steady, if_false, media_chunk-plain,
}

-- A quiet turn that reads the last bytes, with the end of the stream.
pub record IsFinal (t : Turn) : Type 0 where
  pub quiet : IsQuiet t
  pub has_bytes : is_empty t.bytes_read ≡ false
  pub at_end : t.error ≡ some eof

on_data-eof :
    (cfg : StreamConfig) (t : Turn) (l : LoopState) (c : StreamCoordinator)
    → t.error ≡ some eof
    → on_data cfg write_media t l c ≡ left (some eof) (write (some (chunk_of t)) c).0
unfolding on_data write_media processed
on_data-eof cfg t l c e = rw (e, on_data)

turns-final :
    (cfg : StreamConfig) (ts : List Turn) (t : Turn) (l : LoopState) (c : StreamCoordinator)
    → IsRing c
    → c.state ≡ active
    → All IsSteady ts
    → IsFinal t
    → IsPaced cfg l.last_success (ts ++ t ∷ [])
    → turns cfg write_media (ts ++ t ∷ []) l c
      ≡ left (some eof) (writes (map chunk_of (ts ++ t ∷ [])) c)
unfolding turns writes
turns-final cfg [] t l c r a q f p =
    let here =
      turn-go cfg write_media t l c a f.quiet p.0
      ∙ if_false (on_empty cfg write_media l c) f.has_bytes
      ∙ on_data-eof cfg t l c f.at_end in
    rw (here, turns)
turns-final cfg (u ∷ ts) t l c r a q f p =
    let (l', s, e) = turn-steady cfg u l c a q.0 p.0 in
    let wrote = write-Wrote (chunk_of u) c r a in
    let still =
      wrote.state_eq
      ∙ ap (λ b. if b then draining else active) (media_chunk-plain u.read_at u.bytes_read) in
    rw (e, turns)
      (turns-final cfg ts t l' _ wrote.ring still q.1 f
        (subst (λ x. IsPaced cfg x (ts ++ t ∷ [])) (sym s) p.1))

-- A stream that is read to its end, in time, is written whole: a chunk for each read, in order, with
-- the bytes of the last read too, and then an end-of-stream error chunk.
pub media-eof :
    (cfg : StreamConfig) (ts : List Turn) (t : Turn) (now ended_at : ℕ) (c : StreamCoordinator)
    → IsRing c
    → c.state ≡ active
    → All IsSteady ts
    → IsFinal t
    → IsPaced cfg now (ts ++ t ∷ [])
    → close_media none ended_at (read_and_write_stream cfg write_media now (ts ++ t ∷ []) c)
      ≡ write_error (some eof) status_eof ended_at (writes (map chunk_of (ts ++ t ∷ [])) c)
unfolding close_media read_and_write_stream new_loop
media-eof cfg ts t now ended_at c r a q f p =
    rw (turns-final cfg ts t (new_loop cfg now) c r a q f p, close_media)

run-append :
    (env : Getenv) (us vs : List Update) (cm : ConcurrencyManager)
    → run env cm (us ++ vs) ≡ run env (run env cm us) vs
unfolding run
run-append env [] vs cm = refl
run-append env ((k, b) ∷ us) vs cm = run-append env us vs (update_concurrency env cm k b)

-- The writer counts a connection for the index of its result, and gives it back however its loop ends:
-- after the updates `us` before it, and those of others, `vs`, while it runs, each index has the count
-- that a connection opened before `vs` and closed after them leaves.
pub media-count :
    (env : Getenv) (cfg : StreamConfig) (result : LoadBalancerResult) (now : ℕ) (ts : List Turn)
    (ctx_err : Option Failure) (ended_at : ℕ) (c : StreamCoordinator) (us vs : List Update)
    (k : Text)
    → length (us ++ (result.index, true) ∷ (vs ++ (result.index, false) ∷ [])) ≤ max_int32
    → get_count
        (start_media_writer env cfg result now ts ctx_err ended_at
          (c, run env new_concurrency_manager us)
          (λ cm. run env cm vs)).1
        k
      ≡ some
          (pos (open_after 0 k (us ++ (result.index, true) ∷ (vs ++ (result.index, false) ∷ []))))
unfolding start_media_writer open_media run
media-count env cfg result now ts ctx_err ended_at c us vs k h =
    ap (λ cm. get_count cm k) (sym whole) ∙ get_count-run env k all h
  where
    all : List Update
    all = us ++ (result.index, true) ∷ (vs ++ (result.index, false) ∷ [])

    before : ConcurrencyManager
    before = update_concurrency env (run env new_concurrency_manager us) result.index true

    whole :
        run env new_concurrency_manager all
        ≡ update_concurrency env (run env before vs) result.index false
    whole =
        run-append env us _ new_concurrency_manager
        ∙ run-append env vs ((result.index, false) ∷ []) before
