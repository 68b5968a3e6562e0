-- ===== src/LoadBalancer/Candidates.antt =====
-- tryStreamUrls: the sub-addresses of one index, in order.
use streamweaver.Prelude.{
  Bool, none, some, List, [], ◌∷◌, Text, Table, lookup, contains, ◌==◌, SliceSort, if◌then◌else◌, ℤ,
}
use streamweaver.LoadBalancer.{
  LoadBalancerResult, all_urls_failed, nil_http_client, Result, ok, err, Slots, Reply, bad_request,
  replied, World, Instance, tested_of, mark_tested, candidate, waited,
}
use streamweaver.LoadBalancer.Names.{address_of, sort_stream_sub_urls}

module _ (s : Slots) (w : World s) (method stream_id index : Text) where
  -- The answer to a request for the candidate. Every answer but a 200 marks it as tested.
  unfoldable pub judge : Text → Text → Reply → Instance → Instance × Result LoadBalancerResult
  unfolding mark_tested
  judge url sub_index (replied response) i =
      if response.status_code == 200
      then (i, ok (record { response = response; url = url; index = index; sub_index = sub_index }))
      else (mark_tested stream_id (candidate index sub_index) i, err all_urls_failed)
  judge url sub_index _ i =
      (mark_tested stream_id (candidate index sub_index) i, err all_urls_failed)

  -- A request that cannot be made is not sent.
  unfoldable pub note_sent : Text → Reply → Instance → Instance
  note_sent id bad_request i = i
  note_sent id _ i = record i { sent = id ∷ i.sent }

  unfoldable pub ask : Text → Text → Instance → Instance × Result LoadBalancerResult
  unfolding judge note_sent waited
  ask url sub_index i =
      let reply = w.fetch i.tick method url in
      judge url sub_index reply (waited (note_sent (candidate index sub_index) reply i))

  -- A candidate: skipped if it was tested, or if the index is full at the time; asked otherwise.
  unfoldable pub try_candidate : Text → Text → Instance → Instance × Result LoadBalancerResult
  unfolding tested_of waited ask
  try_candidate entry sub_index i =
      if contains (tested_of i stream_id) (candidate index sub_index)
      then (i, err all_urls_failed)
      else if s.is_full (w.manager i.tick) index
      then (waited i, err all_urls_failed)
      else ask (address_of entry) sub_index (waited i)

  abbrev on_failure :
      Instance × Result LoadBalancerResult
      → (Instance → Instance × Result LoadBalancerResult)
      → Instance × Result LoadBalancerResult
  on_failure (i, ok r) next = (i, ok r)
  on_failure (i, err e) next = next i

  unfoldable pub try_subs : Table Text → List Text → Instance → Instance × Result LoadBalancerResult
  unfolding try_candidate
  try_subs urls [] i = (i, err all_urls_failed)
  try_subs urls (sub_index ∷ rest) i = elim (lookup sub_index urls) [
    | none ↦ try_subs urls rest i
    | some entry ↦ on_failure (try_candidate entry sub_index i) (try_subs urls rest)
  ]

  -- `has_client` tells whether the HTTP client is there.
  unfoldable pub try_stream_urls :
      SliceSort (Text × ℤ) → Bool → Table Text → Instance → Instance × Result LoadBalancerResult
  unfolding try_subs
  try_stream_urls sub_sort has_client urls i =
      if has_client
      then try_subs urls (sort_stream_sub_urls sub_sort urls) i
      else (i, err nil_http_client)
