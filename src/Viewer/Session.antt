-- ===== src/Viewer/Session.antt =====
-- The section of HandleStream in proxy/stream/media_stream.go that starts the writer, and its cleanup: one
-- stream, its writer's context, and the goroutines of the writer. Contexts are numbered in the order made.
use streamweaver.Prelude.{
  ℕ, zero, suc, Bool, true, false, Option, none, some, List, [], ◌∷◌, pos, eqb_ℤ, if◌then◌else◌,
}
use streamweaver.Coordinator.{
  StreamCoordinator, nil_chunk, register_client, unregister_client, clear_buffer,
}

-- The writer's context and its cancel function, and its goroutines: `starting` counts those that are begun
-- and have not run yet, and `running` those that have.
pub record Writers : Type 0 where
  pub active : Bool
  pub ctx : Option ℕ
  pub cancel : Option ℕ
  pub contexts : ℕ
  pub cancelled : List ℕ
  pub starting : ℕ
  pub running : ℕ

pub record Session : Type 0 where
  pub coordinator : StreamCoordinator
  pub writers : Writers

unfoldable pub no_writers : Writers
no_writers = record {
  active = false;
  ctx = none;
  cancel = none;
  contexts = 0;
  cancelled = [];
  starting = 0;
  running = 0;
}

unfoldable pub make_context : Writers → Writers
make_context w = elim w.ctx [
  | some k ↦ w
  | none ↦ record w { ctx = some w.contexts; cancel = some w.contexts; contexts = suc w.contexts }
]

unfoldable pub start_writer : Writers → Writers
unfolding make_context
start_writer w =
    if w.active then w else record (make_context w) { active = true; starting = suc w.starting }

abbrev pub forgotten : StreamCoordinator → StreamCoordinator
forgotten c = clear_buffer (record c { last_error = nil_chunk })

-- The whole section, under InitializationMu.
unfoldable pub join_stream : Session → Session
unfolding start_writer register_client
join_stream s = record {
  coordinator =
      register_client (if s.writers.active then s.coordinator else forgotten s.coordinator);
  writers = start_writer s.writers;
}

-- The goroutine runs: it reads the context that the writer is given, `none` for a nil one.
unfoldable pub run_writer : Writers → Writers × Option ℕ
run_writer w = elim w.starting [
  | zero ↦ (w, none)
  | suc n ↦ (record w { starting = n; running = suc w.running }, w.ctx)
]

unfoldable pub end_writer : Writers → Writers
end_writer w = elim w.running [ zero ↦ w | suc n ↦ record w { running = n; active = false } ]

unfoldable pub cancel_writer : Writers → Writers
cancel_writer w = elim w.cancel [
  | none ↦ record w { ctx = none }
  | some k ↦ record w { ctx = none; cancel = none; cancelled = k ∷ w.cancelled }
]

-- The first part of the cleanup.
unfoldable pub unregister : Session → Session
unfolding unregister_client
unregister s = record s { coordinator = unregister_client s.coordinator }

-- The rest, which reads the count anew.
unfoldable pub release : Session → Session
unfolding clear_buffer cancel_writer
release s =
    if eqb_ℤ s.coordinator.client_count (pos 0)
    then record {
      coordinator = record (forgotten s.coordinator) { writer_chan = false };
      writers = cancel_writer s.writers;
    }
    else s
