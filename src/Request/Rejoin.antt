-- ===== src/Request/Rejoin.antt =====
-- Two orders of the clients and the writer of a stream that end badly: proxy/stream/media_stream.go with the writer of
-- proxy/stream/buffer/coordinator_media.go and the loop of handlers/stream_http.go.
use streamweaver.Prelude.{
  ℕ, suc, ◌<◌, ◌≡◌, refl, sym, ap, subst, ◌∙◌, true, false, none, some, [], ◌∷◌, arith, pos, length,
}
use streamweaver.Config.{StreamConfig}
use streamweaver.Coordinator.{
  StreamCoordinator, canceled, active, write_error, is_error, status_client_closed,
}
use streamweaver.Coordinator.Loop.{LoopState, left, turn, on_turn, write_media, close_media}
use streamweaver.Coordinator.Loop
use streamweaver.Coordinator.Writing.{IsRing, writes}
use streamweaver.Coordinator.Draining.{last_chunk}
use streamweaver.Request.{handle_exit_code}
use streamweaver.Viewer.Sending.{Sent, IsOpen}
use streamweaver.Viewer.Delivery.{IsAt}
use streamweaver.Viewer.Ending.{watch_turn-ended}
use streamweaver.Client.{StreamClient, is_writable}
use streamweaver.Viewer.{Turn, Position, finished, watch_turn}
use streamweaver.Viewer.Session.{
  Session, Writers, start_writer, join_stream, run_writer, cancel_writer, unregister, release,
}
use streamweaver.Viewer.Handover.{
  cancel_writer-active, cancel_writer-ctx, cancel_writer-starting, count-join, count-unregister,
  handed-IsLike, handed-IsRing, handed-running, handed_over, handed_coordinator, run_writer-ctx,
  start_writer-active, start_writer-starting, writers-release,
}

-- A client comes to a stream with no clients and no writer, begins a writer, and leaves before the writer's
-- goroutine has run. Then the goroutine is still to run, and it is given a nil context.
pub abandoned :
    (s : Session)
    → s.writers.active ≡ false
    → s.coordinator.client_count ≡ pos 0
    → let w = (release (unregister (join_stream s))).writers in
      (w.starting ≡ suc s.writers.starting) × (w.active ≡ true) × ((run_writer w).1 ≡ none)
unfolding join_stream unregister
abandoned s e h =
    let v = start_writer s.writers in
    rw
      (writers-release (unregister (join_stream s))
        (count-unregister (join_stream s) (count-join s h)))
      (
        cancel_writer-starting v ∙ start_writer-starting s.writers e,
        cancel_writer-active v ∙ start_writer-active s.writers,
        run_writer-ctx (cancel_writer v) (cancel_writer-ctx v),
      )

turn-done :
    (cfg : StreamConfig) (t : Loop.Turn) (l : LoopState) (c : StreamCoordinator)
    → t.others c ≡ c
    → t.done ≡ some canceled
    → c.state ≡ active
    → turn cfg write_media t l c ≡ left (some canceled) c
unfolding turn on_turn
turn-done cfg t l c o d a = ap (on_turn cfg write_media t l) o ∙ ground (arith, d, a)

closes :
    (now : ℕ) (c : StreamCoordinator)
    → close_media (some canceled) now (left (some canceled) c)
      ≡ write_error (some canceled) status_client_closed now (writes [] c)
unfolding close_media writes
closes now c = refl

canceled-IsError : (now : ℕ) → is_error (last_chunk (some canceled) status_client_closed now) ≡ true
unfolding is_error last_chunk
canceled-IsError now = refl

-- What the second client meets: `d` is the coordinator when the writer's next turn has ended it.
abbrev pub Meets :
    StreamConfig
    → Loop.Turn
    → LoopState
    → ℕ
    → Turn
    → Position
    → ℕ
    → StreamClient
    → Session
    → ℕ
    → Session
    → Type 0
Meets cfg t l now v p n sc s k s' =
    let d = close_media (some canceled) now (turn cfg write_media t l s'.coordinator) in
    (s'.writers.starting ≡ s.writers.starting)
    × (s'.writers.cancelled ≡ k ∷ s.writers.cancelled)
    × ((sc' : StreamClient) × Sent [] sc sc'
        × (watch_turn false v d p n sc
            ≡ finished
                (record { bytes_written = n; error = some canceled; status = status_client_closed })
                sc'))
    × (handle_exit_code status_client_closed ≡ true)

cancelled-some :
    (w : Writers) (k : ℕ) → w.cancel ≡ some k → (cancel_writer w).cancelled ≡ k ∷ w.cancelled
unfolding cancel_writer
cancelled-some w k e = ground (arith, e)

module _ (cfg : StreamConfig) (t : Loop.Turn) (l : LoopState) (now : ℕ) (v : Turn) (p : Position)
    (n : ℕ) (sc : StreamClient) where
  -- The only client of a stream leaves while the writer runs with context `k`, and another comes before the
  -- writer's next turn. No other writer is begun, and the context is cancelled; so in that turn the writer ends the
  -- stream. The second client, which stands at the writer's position, gets no bytes and the status of a client that
  -- has closed, on which the request handler ends its request without another try.
  pub rejoin :
      (s : Session) (k : ℕ)
      → s.writers.active ≡ true
      → s.writers.cancel ≡ some k
      → s.coordinator.client_count ≡ pos 1
      → IsRing s.coordinator
      → 1 < length s.coordinator.slots
      → ((c : StreamCoordinator) → t.others c ≡ c)
      → t.done ≡ some canceled
      → IsOpen v
      → is_writable sc ≡ true
      → IsAt p s.coordinator.head
      → Meets cfg t l now v p n sc s k (join_stream (release (unregister s)))
  unfolding handle_exit_code
  rejoin s k e u h r m o d q w i =
      let c = handed_coordinator s e h in
      let like = handed-IsLike s e h in
      let (sc', z, y) =
        watch_turn-ended [] (some canceled) status_client_closed now c (handed-IsRing s e h r)
          (handed-running s e h) tt (canceled-IsError now) (rw like.length_eq m) v p n sc q w
          (subst (IsAt p) (sym like.head_eq) i) in
      subst (Meets cfg t l now v p n sc s k) (sym (handed_over s e h)) (
        cancel_writer-starting s.writers,
        cancelled-some s.writers k u,
        (
          sc',
          z,
          rw (turn-done cfg t l c (o c) d (handed-running s e h)) (
              ap (λ d. watch_turn false v d p n sc) (closes now c)
              ∙ y
              ∙ ap
                  (λ m.
                    finished
                      (record {
                        bytes_written = m;
                        error = some canceled;
                        status = status_client_closed;
                      })
                      sc')
                  (omega arith)),
        ),
        refl,
      )
