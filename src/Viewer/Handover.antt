-- ===== src/Viewer/Handover.antt =====
-- The sections of clients that follow one another on a stream, by HandleStream of proxy/stream/media_stream.go.
use streamweaver.Prelude.{suc, ◌≡◌, refl, ap, ◌∙◌, true, false, none, arith, pos, length}
use streamweaver.Coordinator.{
  StreamCoordinator, active, draining, nil_chunk, register_client, unregister_client, clear_buffer,
}
use streamweaver.Coordinator.Lifecycle.{length-reset}
use streamweaver.Coordinator.Pump.{if_true}
use streamweaver.Coordinator.Writing.{IsRing}
use streamweaver.Viewer.Writers.{start_writer-same}
use streamweaver.Viewer.Session.{
  Session, Writers, start_writer, join_stream, run_writer, cancel_writer, unregister, release,
  forgotten,
}

-- The clients of the coordinator after each section.
pub count-join :
    (s : Session)
    → s.coordinator.client_count ≡ pos 0
    → (join_stream s).coordinator.client_count ≡ pos 1
unfolding join_stream register_client clear_buffer
count-join s h = ground (arith, h)

pub count-unregister :
    (s : Session)
    → s.coordinator.client_count ≡ pos 1
    → (unregister s).coordinator.client_count ≡ pos 0
unfolding unregister unregister_client clear_buffer
count-unregister s h = ground (arith, h)

pub writers-release :
    (s : Session)
    → s.coordinator.client_count ≡ pos 0
    → (release s).writers ≡ cancel_writer s.writers
unfolding release
writers-release s h = ground (arith, h)

pub cancel_writer-ctx : (w : Writers) → (cancel_writer w).ctx ≡ none
unfolding cancel_writer
cancel_writer-ctx w = ground arith

pub cancel_writer-starting : (w : Writers) → (cancel_writer w).starting ≡ w.starting
unfolding cancel_writer
cancel_writer-starting w = ground arith

pub cancel_writer-active : (w : Writers) → (cancel_writer w).active ≡ w.active
unfolding cancel_writer
cancel_writer-active w = ground arith

pub start_writer-starting :
    (w : Writers) → w.active ≡ false → (start_writer w).starting ≡ suc w.starting
unfolding start_writer
start_writer-starting w e = ground (arith, e)

pub start_writer-active : (w : Writers) → (start_writer w).active ≡ true
unfolding start_writer
start_writer-active w = ground arith

pub run_writer-ctx : (w : Writers) → w.ctx ≡ none → (run_writer w).1 ≡ none
unfolding run_writer
run_writer-ctx w e = ground (arith, e)

-- The ring of `c'` is that of `c` with other chunks.
pub record IsLike (c c' : StreamCoordinator) : Type 0 where
  pub length_eq : length c'.slots ≡ length c.slots
  pub head_eq : c'.head ≡ c.head
  pub silent : c.last_error ≡ nil_chunk → c'.last_error ≡ nil_chunk

IsLike-trans : (a b c : StreamCoordinator) → IsLike a b → IsLike b c → IsLike a c
IsLike-trans a b c p q = record {
  length_eq = q.length_eq ∙ p.length_eq;
  head_eq = q.head_eq ∙ p.head_eq;
  silent = λ h. q.silent (p.silent h);
}

unregister-IsLike :
    (s : Session)
    → s.coordinator.client_count ≡ pos 1
    → IsLike s.coordinator (unregister s).coordinator
unfolding unregister unregister_client clear_buffer
unregister-IsLike s h = record {
  length_eq = ground (arith, h, length-reset s.coordinator.slots);
  head_eq = ground (arith, h);
  silent = λ k. ground (arith, h, k);
}

unregister-draining :
    (s : Session) → s.coordinator.client_count ≡ pos 1 → (unregister s).coordinator.state ≡ draining
unfolding unregister unregister_client clear_buffer
unregister-draining s h = ground (arith, h)

release-eq :
    (s : Session)
    → s.coordinator.client_count ≡ pos 0
    → release s ≡ record {
      coordinator = record (forgotten s.coordinator) { writer_chan = false };
      writers = cancel_writer s.writers;
    }
unfolding release
release-eq s h = if_true s (rw h)

session-eq :
    {c d : StreamCoordinator} {w v : Writers}
    → c ≡ d
    → w ≡ v
    → ◌≡◌ {A = Session}
        (record { coordinator = c; writers = w })
        (record { coordinator = d; writers = v })
session-eq {c} {d} {w} {v} p q =
    ap (λ (x : StreamCoordinator). let s : Session = record { coordinator = x; writers = w } in s) p
    ∙ ap (λ (x : Writers). let s : Session = record { coordinator = d; writers = x } in s) q

join-eq :
    (s : Session)
    → s.writers.active ≡ true
    → join_stream s ≡ record { coordinator = register_client s.coordinator; writers = s.writers }
unfolding join_stream
join-eq s e =
    session-eq (ap register_client (if_true (forgotten s.coordinator) e))
      (start_writer-same s.writers e)

register-IsLike : (c : StreamCoordinator) → IsLike c (register_client c)
unfolding register_client
register-IsLike c = record { length_eq = refl; head_eq = refl; silent = λ k. k }

register-running :
    (c : StreamCoordinator) → c.client_count ≡ pos 0 → (register_client c).state ≡ active
unfolding register_client
register-running c h = ground (arith, h)

forgotten-IsLike : (c : StreamCoordinator) → IsLike c (record (forgotten c) { writer_chan = false })
unfolding clear_buffer
forgotten-IsLike c = record { length_eq = length-reset c.slots; head_eq = refl; silent = λ k. refl }

forgotten-count : (c : StreamCoordinator) → (forgotten c).client_count ≡ c.client_count
unfolding clear_buffer
forgotten-count c = refl

module _ (s : Session) (e : s.writers.active ≡ true) (h : s.coordinator.client_count ≡ pos 1) where
  abbrev pub handed_coordinator : StreamCoordinator
  handed_coordinator =
      register_client (record (forgotten (unregister s).coordinator) { writer_chan = false })

  -- The only client leaves while the writer runs, and another comes.
  pub handed_over :
      join_stream (release (unregister s))
      ≡ record { coordinator = handed_coordinator; writers = cancel_writer s.writers }
  unfolding unregister
  handed_over =
      ap join_stream (release-eq (unregister s) (count-unregister s h))
      ∙ join-eq
          (record {
            coordinator = record (forgotten (unregister s).coordinator) { writer_chan = false };
            writers = cancel_writer s.writers;
          })
          (cancel_writer-active s.writers ∙ e)

  pub handed-IsLike : IsLike s.coordinator handed_coordinator
  handed-IsLike =
      IsLike-trans s.coordinator (unregister s).coordinator handed_coordinator
        (unregister-IsLike s h)
        (IsLike-trans (unregister s).coordinator _ handed_coordinator
          (forgotten-IsLike (unregister s).coordinator) (register-IsLike _))

  pub handed-running : handed_coordinator.state ≡ active
  handed-running =
      register-running _ (forgotten-count (unregister s).coordinator ∙ count-unregister s h)

  pub handed-IsRing : IsRing s.coordinator → IsRing handed_coordinator
  handed-IsRing r = record {
    in_range = rw (handed-IsLike.head_eq, handed-IsLike.length_eq) r.in_range;
    silent = handed-IsLike.silent r.silent;
  }
