-- ===== src/Coordinator/Cleanup.antt =====
-- Which coordinators the registry's cleanup removes.
use streamweaver.Prelude.{
  ◌≡◌, refl, ◌∙◌, ℕ, false, none, some, List, [], ◌∷◌, arith, Text, text_eq_refl, Table, lookup,
  lookup-put, put, pos, eqb_ℤ,
}
use streamweaver.Coordinator.{StreamCoordinator, new_stream_coordinator}
use streamweaver.Coordinator.Registry.{
  cleanup, run_cleanup, Signal, tick, done, get_or_create_coordinator,
  get_coordinator_by_actual_url, located,
}

cleanup-missing :
    (id : Text) (m : Table StreamCoordinator) → lookup id m ≡ none → lookup id (cleanup m) ≡ none
unfolding cleanup lookup
cleanup-missing id [] h = refl
cleanup-missing id ((k, c) ∷ m) h = ground (arith, h, cleanup-missing id m)

cleanup-put :
    (id : Text) (c : StreamCoordinator) (m : Table StreamCoordinator)
    → lookup id m ≡ none
    → c.client_count ≡ pos 0
    → lookup id (cleanup (put id c m)) ≡ none
unfolding cleanup lookup put
cleanup-put id c [] h z = ground (arith, z)
cleanup-put id c ((k, d) ∷ m) h z = ground (arith, h, z, cleanup-put id c m, cleanup-missing id m)

cleanup-occupied :
    (id : Text) (c : StreamCoordinator) (m : Table StreamCoordinator)
    → lookup id m ≡ some c
    → eqb_ℤ c.client_count (pos 0) ≡ false
    → lookup id (cleanup m) ≡ some c
unfolding cleanup lookup
cleanup-occupied id c [] h z = h
cleanup-occupied id c ((k, d) ∷ m) h z = ground (arith, h, z, cleanup-occupied id c m)

-- A coordinator that has a client stays as it is, however often the cleanup runs.
pub run_cleanup-occupied :
    (id : Text) (c : StreamCoordinator) (signals : List Signal) (m : Table StreamCoordinator)
    → lookup id m ≡ some c
    → eqb_ℤ c.client_count (pos 0) ≡ false
    → lookup id (run_cleanup signals m) ≡ some c
unfolding run_cleanup
run_cleanup-occupied id c [] m h z = h
run_cleanup-occupied id c (tick ∷ signals) m h z =
    run_cleanup-occupied id c signals (cleanup m) (cleanup-occupied id c m h z) z
run_cleanup-occupied id c (done ∷ signals) m h z = h

new-idle : (id : Text) (size : ℕ) → (new_stream_coordinator id size).client_count ≡ pos 0
unfolding new_stream_coordinator
new-idle id size = refl

create-missing :
    (size : ℕ) (id : Text) (m : Table StreamCoordinator)
    → lookup id m ≡ none
    → get_or_create_coordinator size id [] m ≡ (id, put id (new_stream_coordinator id size) m)
unfolding get_or_create_coordinator get_coordinator_by_actual_url located
create-missing size id m h = ground (arith, h)

-- A request for a stream without a coordinator is given a new one, as handleStream asks for it, and the cleanup runs
-- before the request's client is registered, as it may while the load balancer tries the sources. Then
-- the coordinator is out of the registry, and the next request for the stream is given another new one.
pub cleanup-handed_out :
    (size : ℕ) (id : Text) (m : Table StreamCoordinator)
    → lookup id m ≡ none
    → let m' = (get_or_create_coordinator size id [] m).1 in
      (lookup id m' ≡ some (new_stream_coordinator id size))
      × (lookup id (cleanup m') ≡ none)
      × (get_or_create_coordinator size id [] (cleanup m')
          ≡ (id, put id (new_stream_coordinator id size) (cleanup m')))
cleanup-handed_out size id m h =
    let c = new_stream_coordinator id size in
    let gone : lookup id (cleanup (put id c m)) ≡ none = cleanup-put id c m h (new-idle id size) in
    rw (create-missing size id m h) (
      lookup-put id id c m ∙ rw (text_eq_refl id) refl,
      gone,
      create-missing size id (cleanup (put id c m)) gone,
    )
