-- ===== src/Coordinator/RegistryExamples.antt =====
-- Two streams whose answers have the same address, and a stream whose coordinator is removed before its client comes.
use streamweaver.Prelude.{
  ◌≡◌, refl, none, some, [], Text, bytes, is_empty, Table, lookup, text_eq, put,
}
use streamweaver.Coordinator.{
  StreamCoordinator, new_stream_coordinator, set_actual_url, get_actual_url,
}
use streamweaver.Coordinator.Registry.{get_or_create_coordinator, find_by_url, cleanup}
use streamweaver.Coordinator.Cleanup.{cleanup-handed_out}

abbrev two_requests : Text × Table StreamCoordinator
two_requests =
    let (k, m') = get_or_create_coordinator 3 (bytes "a") (bytes "u") [] in
    get_or_create_coordinator 3 (bytes "b") (bytes "u") m'

shared : two_requests.0 ≡ bytes "a"
unfolding get_or_create_coordinator lookup text_eq is_empty find_by_url get_actual_url
    set_actual_url new_stream_coordinator put
shared = refl

cleanup-handed_out_example :
    let m' = (get_or_create_coordinator 3 (bytes "c") [] two_requests.1).1 in
    (lookup (bytes "c") m' ≡ some (new_stream_coordinator (bytes "c") 3))
    × (lookup (bytes "c") (cleanup m') ≡ none)
    × (get_or_create_coordinator 3 (bytes "c") [] (cleanup m')
        ≡ (bytes "c", put (bytes "c") (new_stream_coordinator (bytes "c") 3) (cleanup m')))
unfolding get_or_create_coordinator lookup text_eq is_empty find_by_url get_actual_url
    set_actual_url new_stream_coordinator put
cleanup-handed_out_example = cleanup-handed_out 3 (bytes "c") two_requests.1 refl
