-- ===== src/LoadBalancer/Walk.antt =====
-- What each try of a candidate preserves holds at the end of a lap, however it ends.
use streamweaver.Prelude.{
  ℕ, zero, suc, ◌≡◌, Bool, true, false, Option-cases, Bool-cases, inl, inr, List, [], ◌∷◌, Text,
  Table, lookup, ltb, length, SliceSort, ℤ, contains,
}
use streamweaver.StreamInfo.{StreamInfo}
use streamweaver.LoadBalancer.{
  Reply, tested_of, candidate, LoadBalancerResult, Result, ok, err, Slots, World, Instance, waited,
}
use streamweaver.LoadBalancer.Candidates.{
  judge, note_sent, ask, try_candidate, try_subs, try_stream_urls,
}
use streamweaver.LoadBalancer.Balance.{
  Setup, Outcome, ended, out_of_fuel, has_index, by_priority, first_open, mark_done, next_round,
  try_index, try_rounds, try_all_streams,
}
use streamweaver.LoadBalancer.Names.{address_of}
use streamweaver.LoadBalancer.Sources.{result_cases}

-- `P` after a failure, and `Q` after a success.
abbrev pub Ends :
    (Instance → Type 0) → (Instance → Type 0) → Instance × Result LoadBalancerResult → Type 0
Ends P Q (i, ok r) = Q i
Ends P Q (i, err e) = P i

abbrev pub EndsIn : (Instance → Type 0) → (Instance → Type 0) → Outcome → Type 0
EndsIn P Q out_of_fuel = Unit
EndsIn P Q (ended i r) = Ends P Q (i, r)

module _ (s : Slots) (w : World s) (method stream_id index sub : Text) where
  -- The instance after a request for the candidate, with the reply.
  abbrev pub judged : Text → Reply → Instance → Instance × Result LoadBalancerResult
  judged url reply i =
      judge s w method stream_id index url sub reply
        (waited (note_sent s w method stream_id index (candidate index sub) reply i))

  module _ (P Q : Instance → Type 0) (wait : (i : Instance) → P i → P (waited i)) where
    pub try_candidate-Ends :
        (entry : Text) (i : Instance)
        → ((reply : Reply)
            → contains (tested_of i stream_id) (candidate index sub) ≡ false
            → P (waited i)
            → Ends P Q (judged (address_of entry) reply (waited i)))
        → P i
        → Ends P Q (try_candidate s w method stream_id index entry sub i)
    unfolding try_candidate ask
    try_candidate-Ends entry i judged-Ends h =
        elim (Bool-cases (contains (tested_of i stream_id) (candidate index sub))) [
          | inl c ↦ rw (c, try_candidate) h
          | inr c ↦ elim (Bool-cases (s.is_full (w.manager i.tick) index)) [
            | inl f ↦ rw (c, f, try_candidate) (wait i h)
            | inr f ↦
                rw (c, f, try_candidate)
                  (judged-Ends (w.fetch (suc i.tick) method (address_of entry)) c (wait i h))
          ]
        ]

module _ (s : Slots) (w : World s) (method stream_id : Text) (P Q : Instance → Type 0)
    (wait : (i : Instance) → P i → P (waited i))
    (step : (index entry sub : Text) (i : Instance)
      → P i
      → Ends P Q (try_candidate s w method stream_id index entry sub i)) where
  pub try_subs-Ends :
      (index : Text) (inner : Table Text) (subs : List Text) (i : Instance)
      → P i
      → Ends P Q (try_subs s w method stream_id index inner subs i)
  unfolding try_subs
  try_subs-Ends index inner [] i p = p
  try_subs-Ends index inner (sub ∷ subs) i p = elim (Option-cases (lookup sub inner)) [
    | inl e ↦ rw (e, try_subs) (try_subs-Ends index inner subs i p)
    | inr (entry, e) ↦
        let here = step index entry sub i p in
        elim (result_cases (try_candidate s w method stream_id index entry sub i)) [
          | inl (r, t) ↦ rw (e, t, try_subs) (rw t at here)
          | inr (e', t) ↦ rw (e, t, try_subs) (try_subs-Ends index inner subs _ (rw t at here))
        ]
  ]

  try_stream_urls-Ends :
      (index : Text) (sub_sort : SliceSort (Text × ℤ)) (has_client : Bool) (inner : Table Text)
      (i : Instance)
      → P i
      → Ends P Q (try_stream_urls s w method stream_id index sub_sort has_client inner i)
  unfolding try_stream_urls
  try_stream_urls-Ends index sub_sort true inner i p = try_subs-Ends index inner _ i p
  try_stream_urls-Ends index sub_sort false inner i p = p

  module _ (setup : Setup) where
    try_index-Ends :
        (info : StreamInfo) (index : Text) (i : Instance)
        → P i
        → Ends P Q (try_index s w setup method stream_id info index i)
    unfolding try_index
    try_index-Ends info index i p = elim (Option-cases info.urls) [
      | inl e ↦ rw (e, try_index) p
      | inr (urls, e) ↦ elim (Option-cases (lookup index urls)) [
        | inl f ↦ rw (e, f, try_index) p
        | inr (inner, f) ↦
            rw (e, f, try_index)
              (try_stream_urls-Ends index setup.sub_sort setup.has_client inner i p)
      ]
    ]

    next_round-EndsIn :
        (asked : Bool) (p : Instance × Result LoadBalancerResult) (again : Instance → Outcome)
        → Ends P Q p
        → ((i : Instance) → P i → EndsIn P Q (again i))
        → EndsIn P Q (next_round s w setup method stream_id asked p again)
    next_round-EndsIn asked (i, ok r) again p later = p
    next_round-EndsIn true (i, err e) again p later = elim (Bool-cases (w.cancelled i.tick)) [
      | inl c ↦ rw c (wait i p)
      | inr c ↦ rw c (later (waited i) (wait i p))
    ]
    next_round-EndsIn false (i, err e) again p later = later i p

    try_rounds-EndsIn :
        (fuel : ℕ) (info : StreamInfo) (ks done : List Text) (i : Instance)
        → P i
        → EndsIn P Q (try_rounds s w setup method stream_id fuel info ks done i)
    unfolding try_rounds
    try_rounds-EndsIn zero info ks done i p = tt
    try_rounds-EndsIn (suc fuel) info ks done i p =
        let sorted = by_priority s w setup method stream_id i ks in
        let index = first_open done sorted in
        elim (Bool-cases (ltb (length done) (length ks))) [
          | inl c ↦
              rw (c, try_rounds)
                (next_round-EndsIn (has_index s w setup method stream_id info index) _ _
                  (try_index-Ends info index (waited i) (wait i p))
                  (λ j q. try_rounds-EndsIn fuel info sorted (mark_done index done) j q))
          | inr c ↦ rw (c, try_rounds) p
        ]

    pub try_all-EndsIn :
        (fuel : ℕ) (i : Instance)
        → P i
        → EndsIn P Q (try_all_streams s w setup method stream_id fuel i)
    unfolding try_all_streams
    try_all-EndsIn fuel i p = elim (Option-cases setup.indexes) [
      | inl n ↦ rw (n, try_all_streams) p
      | inr ([], n) ↦ rw (n, try_all_streams) p
      | inr (k ∷ ks, n) ↦ elim (Bool-cases (w.cancelled i.tick)) [
        | inl c ↦ rw (n, c, try_all_streams) (wait i p)
        | inr c ↦ elim (Option-cases i.info) [
          | inl e ↦ rw (n, c, e, try_all_streams) (wait i p)
          | inr (info, e) ↦
              rw (n, c, e, try_all_streams) (try_rounds-EndsIn fuel info (k ∷ ks) [] _ (wait i p))
        ]
      ]
    ]
