-- ===== src/LoadBalancer/Balance.antt =====
-- tryAllStreams, fetchBackendUrls and Balance.
use streamweaver.Prelude.{
  ℕ, zero, suc, Bool, true, false, ◌||◌, Option, none, some, List, [], ◌∷◌, Text, Table, lookup,
  contains, ltb, SliceSort, if◌then◌else◌, ℤ, pos, ltb_ℤ, eqb_ℤ, length, is_empty,
}
use streamweaver.StreamInfo.{StreamInfo}
use streamweaver.LoadBalancer.{
  LoadBalancerResult, BalanceError, nil_context, nil_request, empty_method, nil_url,
  fetching_sources, cancelling, exhausted, context_canceled, nil_index_provider, no_indexes,
  no_available_streams, no_urls, no_valid_urls, bad_slug, no_stream_info, Result, ok, err, Slots,
  World, Instance, clear_tested, waited,
}
use streamweaver.LoadBalancer.Names.{get_stream_id}
use streamweaver.LoadBalancer.Candidates.{try_stream_urls}

-- What the instance is made of besides its state: the index provider's list (`none` where there is no
-- provider), whether there is an HTTP client, and sort.Slice at the two types that it sorts.
pub record Setup : Type 0 where
  pub indexes : Option (List Text)
  pub has_client : Bool
  pub max_retries : ℤ
  pub index_sort : SliceSort Text
  pub sub_sort : SliceSort (Text × ℤ)
  pub parse_slug : Text → Option StreamInfo

-- The first index that is not done; the empty text where all are.
unfoldable pub first_open : List Text → List Text → Text
unfolding contains
first_open done [] = []
first_open done (k ∷ ks) = if contains done k then first_open done ks else k

-- `done[index] = true`
unfoldable pub mark_done : Text → List Text → List Text
unfolding contains
mark_done index done = if contains done index then done else index ∷ done

-- `out_of_fuel` where the rounds allowed were not enough.
pub data Outcome : Type 0 where
  out_of_fuel : Outcome
  ended : Instance → Result LoadBalancerResult → Outcome

module _ (s : Slots) (w : World s) (setup : Setup) (method stream_id : Text) where
  -- sort.Slice by falling priority, as the manager stands now.
  unfoldable pub by_priority : Instance → List Text → List Text
  by_priority i ks =
      let m = w.manager i.tick in
      setup.index_sort.sort (λ a b. ltb_ℤ (s.priority m b) (s.priority m a)) ks

  unfoldable pub try_index : StreamInfo → Text → Instance → Instance × Result LoadBalancerResult
  try_index info index i = elim info.urls [
    | none ↦ (i, err no_stream_info)
    | some urls ↦ elim (lookup index urls) [
      | none ↦ (i, err no_available_streams)
      | some inner ↦
          try_stream_urls s w method stream_id index setup.sub_sort setup.has_client inner i
    ]
  ]

  unfoldable pub has_index : StreamInfo → Text → Bool
  has_index info index = elim info.urls [
    | none ↦ false
    | some urls ↦ elim (lookup index urls) [ none ↦ false | some inner ↦ true ]
  ]

  -- After an index that failed: the context is looked at, but not after an index with no addresses.
  abbrev pub next_round :
      Bool → Instance × Result LoadBalancerResult → (Instance → Outcome) → Outcome
  next_round asked (i, ok r) again = ended i (ok r)
  next_round true (i, err e) again =
      let rest = again (waited i) in
      if w.cancelled i.tick then ended (waited i) (err context_canceled) else rest
  next_round false (i, err e) again = again i

  -- The loop over the indexes: `ks` is the slice, sorted in place in each round.
  unfoldable pub try_rounds : ℕ → StreamInfo → List Text → List Text → Instance → Outcome
  unfolding by_priority try_index has_index first_open mark_done waited
  try_rounds zero info ks done i = out_of_fuel
  try_rounds (suc fuel) info ks done i =
      let sorted = by_priority i ks in
      let index = first_open done sorted in
      let rest =
        next_round (has_index info index) (try_index info index (waited i))
          (try_rounds fuel info sorted (mark_done index done)) in
      if ltb (length done) (length ks) then rest else ended i (err no_available_streams)

  unfoldable pub try_all_streams : ℕ → Instance → Outcome
  unfolding try_rounds waited
  try_all_streams fuel i = elim setup.indexes [
    | none ↦ ended i (err nil_index_provider)
    | some [] ↦ ended i (err no_indexes)
    | some (k ∷ ks) ↦
        if w.cancelled i.tick then ended (waited i) (err context_canceled) else elim i.info [
          | none ↦ ended (waited i) (err no_stream_info)
          | some info ↦ try_rounds fuel info (k ∷ ks) [] (waited i)
        ]
  ]

-- Some index has an address.
unfoldable pub any_url : Table (Table Text) → Bool
any_url [] = false
any_url ((k, []) ∷ m) = any_url m
any_url ((k, e ∷ es) ∷ m) = true

unfoldable pub fetch_backend_urls : Setup → Text → Instance → Instance × Option BalanceError
unfolding any_url
fetch_backend_urls setup stream_id i = elim (setup.parse_slug stream_id) [
  | none ↦ (i, some bad_slug)
  | some stream ↦ elim stream.urls [
    | none ↦ (i, some no_urls)
    | some [] ↦ (i, some no_urls)
    | some (e ∷ es) ↦
        if any_url (e ∷ es)
        then (record i { info = some stream }, none)
        else (i, some no_valid_urls)
  ]
]

-- What Balance reads of an http.Request: the method, and the path of the URL, if there is one.
pub record Request : Type 0 where
  pub method : Text
  pub path : Option Text

abbrev pub is_canceled : BalanceError → Bool
is_canceled context_canceled = true
is_canceled _ = false

module _ (s : Slots) (w : World s) (setup : Setup) (method stream_id : Text) (rounds : ℕ) where
  -- A lap that failed: the tested candidates are forgotten, and the backoff may find the context done.
  abbrev pub after_lap : Outcome → (Instance → Outcome) → Outcome
  after_lap out_of_fuel again = out_of_fuel
  after_lap (ended i (ok r)) again = ended i (ok r)
  after_lap (ended i (err e)) again =
      let i' = clear_tested stream_id i in
      let rest = again (waited i') in
      if is_canceled e
      then ended i (err cancelling)
      else if w.cancelled i'.tick
      then ended (waited i') (err cancelling)
      else rest

  -- The laps from number `lap` on: up to `max_retries`, or without end where that is 0.
  unfoldable pub laps : ℕ → ℕ → Instance → Outcome
  unfolding try_all_streams clear_tested waited
  laps zero lap i = out_of_fuel
  laps (suc fuel) lap i =
      let rest =
        after_lap (try_all_streams s w setup method stream_id rounds i) (laps fuel (suc lap)) in
      if ltb_ℤ (pos lap) setup.max_retries || eqb_ℤ setup.max_retries (pos 0)
      then rest
      else ended i (err exhausted)

-- Whether the context is there, and the request; with fuel for the laps and for the rounds of each.
unfoldable pub balance :
    (s : Slots) → World s → Setup → ℕ → ℕ → Bool → Option Request → Instance → Outcome
unfolding get_stream_id fetch_backend_urls laps is_empty
balance s w setup laps_fuel rounds false req i = ended i (err nil_context)
balance s w setup laps_fuel rounds true none i = ended i (err nil_request)
balance s w setup laps_fuel rounds true (some req) i =
    if is_empty req.method then ended i (err empty_method) else elim req.path [
      | none ↦ ended i (err nil_url)
      | some path ↦
          let stream_id = get_stream_id path in
          let (i', bad) = fetch_backend_urls setup stream_id i in
          elim bad [
            | some e ↦ ended i' (err fetching_sources)
            | none ↦ laps s w setup req.method stream_id rounds laps_fuel 0 i'
          ]
    ]
