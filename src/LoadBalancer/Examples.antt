-- ===== src/LoadBalancer/Examples.antt =====
-- A request for the stream "s", which two sources have, of which the first answers with an error.
use streamweaver.Prelude.{
  Table, ℕ, ◌≡◌, ◌⊎◌, refl, true, false, none, some, List, [], ◌∷◌, arith, Text, bytes, text_eq,
  lookup, put, contains, cut, strip_prefix, insertion_sort, ℤ, pos, ◌≤ℤ◌, if◌then◌else◌,
}
use streamweaver.StreamInfo.{StreamInfo}
use streamweaver.Store.{new_concurrency_manager}
use streamweaver.LoadBalancer.{
  all_urls_failed, Response, LoadBalancerResult, Result, ok, err, Slots, Reply, replied, failed,
  World, Instance, new_instance, tested_of,
}
use streamweaver.LoadBalancer.Names.{get_stream_id}
use streamweaver.LoadBalancer.Balance.{
  Setup, ended, Request, balance, try_all_streams, by_priority, first_open,
}
use streamweaver.LoadBalancer.Manager.{store_slots}
use streamweaver.LoadBalancer.Sources.{IsSource}
use streamweaver.LoadBalancer.Attempts.{balance-ok}
use streamweaver.LoadBalancer.Repeats.{AreNew, lap-once}
use streamweaver.LoadBalancer.Rounds.{round-best}
use streamweaver.LoadBalancer.Candidates.{try_stream_urls}
use streamweaver.LoadBalancer.Exhausted.{urls-IsSpent}
use streamweaver.LoadBalancer.Ending.{IsListed, balance-ends}

-- The full sources are listed.
abbrev listed_slots : Slots
listed_slots = record {
  Manager = List Text;
  is_full = contains;
  priority = λ m k. if contains m k then pos 0 else pos 1;
  full_iff = λ m k. ground arith;
}

abbrev answer : Response
answer = record { status_code = 200; header = []; request_path = none }

abbrev world : World listed_slots
world = record {
  manager = λ t. [];
  cancelled = λ t. false;
  fetch = λ t method url. if text_eq url (bytes "b") then replied answer else failed;
}

abbrev stream : StreamInfo
stream = record {
  title = bytes "s";
  tvg_id = [];
  tvg_ch_no = [];
  tvg_type = [];
  logo_url = [];
  group = [];
  urls = some (
      (bytes "1", (bytes "x", bytes "4:::a") ∷ [])
      ∷ (bytes "2", (bytes "y", bytes "7:::b") ∷ [])
      ∷ []);
  source_m3u = [];
  source_index = 0;
}

abbrev indexes : List Text
indexes = bytes "1" ∷ bytes "2" ∷ []

abbrev setup : Setup
setup = record {
  indexes = some indexes;
  has_client = true;
  max_retries = pos 1;
  index_sort = insertion_sort Text;
  sub_sort = insertion_sort (Text × ℤ);
  parse_slug = λ slug. if text_eq slug (bytes "s") then some stream else none;
}

abbrev request : Request
request = record { method = bytes "GET"; path = some (bytes "/p/s.ts") }

abbrev asked_both : Instance
asked_both = record {
  info = some stream;
  tested = (bytes "s", bytes "1|x" ∷ []) ∷ [];
  tick = 8;
  sent = bytes "2|y" ∷ bytes "1|x" ∷ [];
}

abbrev served : LoadBalancerResult
served = record { response = answer; url = bytes "b"; index = bytes "2"; sub_index = bytes "y" }

run :
    balance listed_slots world setup 2 3 true (some request) new_instance
    ≡ ended asked_both (ok served)
unfolding balance new_instance insertion_sort lookup put contains text_eq cut strip_prefix tested_of
    streamweaver.LoadBalancer.Candidates.try_stream_urls
    streamweaver.LoadBalancer.Names.sort_stream_sub_urls streamweaver.LoadBalancer.Names.address_of
run = refl

balance-ok_example :
    (q : Request) × (path : Text) × (info : StreamInfo) × (some request ≡ some q)
    × (q.path ≡ some path)
    × (setup.parse_slug (get_stream_id path) ≡ some info)
    × IsSource listed_slots world q.method info served
balance-ok_example =
    balance-ok listed_slots world setup 2 3 true (some request) new_instance asked_both served run

abbrev knows_stream : Instance
knows_stream = record { info = some stream; tested = []; tick = 0; sent = [] }

lap :
    try_all_streams listed_slots world setup (bytes "GET") (bytes "s") 3 knows_stream
    ≡ ended asked_both (ok served)
unfolding try_all_streams insertion_sort lookup put contains text_eq cut strip_prefix tested_of
    streamweaver.LoadBalancer.Candidates.try_stream_urls
    streamweaver.LoadBalancer.Names.sort_stream_sub_urls streamweaver.LoadBalancer.Names.address_of
lap = refl

lap-once_example : AreNew (tested_of knows_stream (bytes "s")) [] asked_both.sent
lap-once_example =
    lap-once listed_slots world setup (bytes "GET") (bytes "s") 3 knows_stream asked_both
      (ok served) lap

abbrev store_world : World (store_slots (λ name. bytes "2"))
unfolding store_slots
store_world = record {
  manager = λ t. new_concurrency_manager;
  cancelled = λ t. false;
  fetch = λ t method url. failed;
}

round-best_example :
    let index = first_open (bytes "1" ∷ []) (
      by_priority
        (store_slots (λ name. bytes "2"))
        store_world
        setup
        (bytes "GET")
        (bytes "s")
        new_instance
        indexes) in
    (contains indexes index ≡ true)
    × (contains (bytes "1" ∷ []) index ≡ false)
    × ((store_slots (λ name. bytes "2")).priority
          (store_world.manager new_instance.tick)
          (bytes "2")
        ≤ℤ (store_slots (λ name. bytes "2")).priority (store_world.manager new_instance.tick) index)
unfolding contains text_eq
round-best_example =
    round-best (store_slots (λ name. bytes "2")) store_world setup (bytes "GET") (bytes "s")
      new_instance indexes (bytes "1" ∷ []) (bytes "2") refl refl

abbrev full_world : World listed_slots
full_world = record world { manager = λ t. indexes }

indexes-IsListed : IsListed setup 3
unfolding IsListed contains text_eq
indexes-IsListed ks e = ground (arith, e)

balance-ends_example :
    (i' : Instance) × (r : Result LoadBalancerResult) × (balance listed_slots world setup 2 3 true
        (some request)
        new_instance
      ≡ ended i' r)
balance-ends_example =
    balance-ends listed_slots world setup 2 3 true (some request) new_instance indexes-IsListed
      (λ e. absurd (ground arith)) (omega arith)

abbrev dead_world : World listed_slots
dead_world = record world { fetch = λ t method url. failed }

abbrev asked_one : Instance
asked_one = record {
  info = some stream;
  tested = (bytes "s", bytes "1|x" ∷ []) ∷ [];
  tick = 2;
  sent = bytes "1|x" ∷ [];
}

abbrev one_url : Table Text
one_url = (bytes "x", bytes "4:::a") ∷ []

dead :
    try_stream_urls listed_slots dead_world
      (bytes "GET")
      (bytes "s")
      (bytes "1")
      (insertion_sort (Text × ℤ))
      true
      one_url
      knows_stream
    ≡ (asked_one, err all_urls_failed)
unfolding try_stream_urls insertion_sort lookup put contains text_eq cut strip_prefix tested_of
    streamweaver.LoadBalancer.Names.sort_stream_sub_urls streamweaver.LoadBalancer.Names.address_of
dead = refl

urls-IsSpent_example :
    (contains (tested_of asked_one (bytes "s")) (bytes "1|x") ≡ true)
    ⊎ ((t : ℕ) × (listed_slots.is_full (dead_world.manager t) (bytes "1") ≡ true))
unfolding lookup text_eq
urls-IsSpent_example =
    urls-IsSpent listed_slots dead_world (bytes "GET") (bytes "s") (bytes "1") one_url
      (insertion_sort (Text × ℤ)) knows_stream asked_one all_urls_failed (bytes "x") (bytes "4:::a")
      dead refl
