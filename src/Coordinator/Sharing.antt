-- ===== src/Coordinator/Sharing.antt =====
-- Requests for one address share a coordinator.
use streamweaver.Prelude.{
  ℕ, ◌≡◌, refl, true, false, none, some, Option-cases, inl, inr, [], ◌∷◌, arith, Text, text_eq_iff,
  text_eq_refl, is_empty, Table, lookup, lookup-put, put,
}
use streamweaver.Coordinator.{
  StreamCoordinator, new_stream_coordinator, set_actual_url, get_actual_url,
}
use streamweaver.Coordinator.Registry.{
  find_by_url, get_coordinator_by_actual_url, located, get_or_create_coordinator,
}

find-put :
    (url k : Text) (c : StreamCoordinator) (m : Table StreamCoordinator)
    → find_by_url url m ≡ none
    → c.actual_url ≡ url
    → find_by_url url (put k c m) ≡ some k
unfolding find_by_url put get_actual_url
find-put url k c [] n h = ground (arith, text_eq_iff c.actual_url url)
find-put url k c ((j, d) ∷ m) n h =
    ground (arith, text_eq_iff c.actual_url url, find-put url k c m, text_eq_iff j k)

located-url :
    (url : Text) (c : StreamCoordinator)
    → is_empty url ≡ false
    → is_empty c.actual_url ≡ true
    → (located url c).actual_url ≡ url
unfolding located set_actual_url
located-url url c n e = ground arith

new_url : (id : Text) (size : ℕ) → is_empty (new_stream_coordinator id size).actual_url ≡ true
unfolding new_stream_coordinator is_empty
new_url id size = refl

module _ (size : ℕ) (url : Text) (given : is_empty url ≡ false) where
  created :
      (id : Text) (m : Table StreamCoordinator)
      → find_by_url url m ≡ none
      → ((c : StreamCoordinator) → lookup id m ≡ some c → is_empty c.actual_url ≡ true)
      → (c : StreamCoordinator) × (c.actual_url ≡ url)
        × (get_or_create_coordinator size id url m ≡ (id, put id c m))
  unfolding get_or_create_coordinator get_coordinator_by_actual_url
  created id m n free = elim (Option-cases (lookup id m)) [
    | inl e ↦ (
      located url (new_stream_coordinator id size),
      located-url url _ given (new_url id size),
      ground (arith, n, e),
    )
    | inr (c, e) ↦ (located url c, located-url url c given (free c e), ground (arith, n, e))
  ]

  found :
      (id k : Text) (m : Table StreamCoordinator)
      → find_by_url url m ≡ some k
      → get_or_create_coordinator size id url m ≡ (k, m)
  unfolding get_or_create_coordinator get_coordinator_by_actual_url
  found id k m e = rw (given, e, get_or_create_coordinator, get_coordinator_by_actual_url)

-- Where the coordinator of the first request's stream, if there is one, has no address yet: a second
-- request for the same address, under whatever stream, gets the coordinator that the first one got, and
-- changes nothing.
pub get_or_create_twice :
    (size : ℕ) (url id id' : Text) (m : Table StreamCoordinator)
    → is_empty url ≡ false
    → ((c : StreamCoordinator) → lookup id m ≡ some c → is_empty c.actual_url ≡ true)
    → let (k, m') = get_or_create_coordinator size id url m in
      get_or_create_coordinator size id' url m' ≡ (k, m')
get_or_create_twice size url id id' m given free = elim (Option-cases (find_by_url url m)) [
  | inr (k, e) ↦ rw (found size url given id k m e) (found size url given id' k m e)
  | inl n ↦
      let (c, u, e) = created size url given id m n free in
      rw e (found size url given id' id (put id c m) (find-put url id c m n u))
]

-- A coordinator that has another address keeps it: a request for its stream, with an address that no
-- coordinator has, gets the coordinator with the old address.
pub get_or_create_other :
    (size : ℕ) (url id : Text) (c : StreamCoordinator) (m : Table StreamCoordinator)
    → lookup id m ≡ some c
    → is_empty c.actual_url ≡ false
    → find_by_url url m ≡ none
    → let (k, m') = get_or_create_coordinator size id url m in (k ≡ id) × (lookup k m' ≡ some c)
unfolding get_or_create_coordinator get_coordinator_by_actual_url located set_actual_url
get_or_create_other size url id c m e h n =
    ground (arith, lookup-put id id c m, text_eq_refl id, e, n)
