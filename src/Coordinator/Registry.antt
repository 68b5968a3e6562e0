-- ===== src/Coordinator/Registry.antt =====
-- proxy/stream/buffer/registry.go: the coordinators by their key. A coordinator is named by its key;
-- each function is one call that no other interleaves with. `size` is the size of a ring.
use streamweaver.Prelude.{
  ℕ, Bool, true, Option, none, some, List, [], ◌∷◌, Text, text_eq, is_empty, Table, lookup, put,
  without, pos, eqb_ℤ, if◌then◌else◌,
}
use streamweaver.Coordinator.{
  StreamCoordinator, new_stream_coordinator, set_actual_url, get_actual_url,
}

-- The first coordinator that has the address, in the order of the map.
unfoldable pub find_by_url : Text → Table StreamCoordinator → Option Text
unfolding get_actual_url text_eq
find_by_url url [] = none
find_by_url url ((k, c) ∷ m) = if text_eq (get_actual_url c) url then some k else find_by_url url m

unfoldable pub get_coordinator_by_actual_url : Text → Table StreamCoordinator → Option Text
unfolding find_by_url is_empty
get_coordinator_by_actual_url url m = if is_empty url then none else find_by_url url m

unfoldable pub located : Text → StreamCoordinator → StreamCoordinator
unfolding set_actual_url is_empty
located url c = if is_empty url then c else set_actual_url url c

-- The key of the coordinator, and the map.
unfoldable pub get_or_create_coordinator :
    ℕ → Text → Text → Table StreamCoordinator → Text × Table StreamCoordinator
unfolding get_coordinator_by_actual_url located new_stream_coordinator lookup put
get_or_create_coordinator size stream_id url m = elim (get_coordinator_by_actual_url url m) [
  | some k ↦ (k, m)
  | none ↦ elim (lookup stream_id m) [
    | some c ↦ (stream_id, put stream_id (located url c) m)
    | none ↦ (stream_id, put stream_id (located url (new_stream_coordinator stream_id size)) m)
  ]
]

unfoldable pub remove_coordinator : Text → Table StreamCoordinator → Table StreamCoordinator
unfolding without
remove_coordinator id m = without id m

-- The coordinators that have a client stay.
unfoldable pub cleanup : Table StreamCoordinator → Table StreamCoordinator
cleanup [] = []
cleanup ((k, c) ∷ m) =
    let rest = cleanup m in if eqb_ℤ c.client_count (pos 0) then rest else (k, c) ∷ rest

-- What runCleanup receives: a tick, or the end. It runs until Shutdown.
pub data Signal : Type 0 where
  tick done : Signal

unfoldable pub run_cleanup : List Signal → Table StreamCoordinator → Table StreamCoordinator
unfolding cleanup
run_cleanup [] m = m
run_cleanup (tick ∷ signals) m = run_cleanup signals (cleanup m)
run_cleanup (done ∷ signals) m = m

-- Whether the channel is closed, and the map; closing it twice is a panic.
unfoldable pub shutdown : Bool × Table StreamCoordinator → Option (Bool × Table StreamCoordinator)
shutdown (closed, m) = if closed then none else some (true, [])
