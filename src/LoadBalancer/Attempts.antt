-- ===== src/LoadBalancer/Attempts.antt =====
-- A success of the load balancer, through its rounds and laps.
use streamweaver.Prelude.{
  ℕ, zero, suc, ◌≡◌, refl, subst, Bool, true, false, ◌||◌, Option, none, some, Option-cases,
  Bool-cases, inl, inr, ◌⊎◌, List, [], ◌∷◌, arith, Text, Table, ltb, ltb_ℤ, eqb_ℤ, pos, length,
  is_empty,
}
use streamweaver.StreamInfo.{StreamInfo}
use streamweaver.LoadBalancer.{
  Reply, bad_request, failed, no_response, replied, mark_tested, LoadBalancerResult, Result, ok,
  err, BalanceError, fetching_sources, Slots, World, Instance, waited, clear_tested,
}
use streamweaver.LoadBalancer.Names.{address_of, get_stream_id}
use streamweaver.LoadBalancer.Balance.{
  Setup, Outcome, ended, out_of_fuel, Request, has_index, by_priority, first_open, mark_done,
  next_round, after_lap, is_canceled, try_index, try_rounds, try_all_streams, laps, any_url,
  fetch_backend_urls, balance,
}
use streamweaver.LoadBalancer.Candidates.{judge, note_sent}
use streamweaver.LoadBalancer.Sources.{IsSource, try_index-ok}
use streamweaver.LoadBalancer.Walk.{Ends, judged, try_candidate-Ends, EndsIn, try_all-EndsIn}

module _ (s : Slots) (w : World s) (setup : Setup) (method stream_id : Text) where
  next_round-ok :
      (asked : Bool) (p : Instance × Result LoadBalancerResult) (again : Instance → Outcome)
      (i' : Instance) (r : LoadBalancerResult)
      → next_round s w setup method stream_id asked p again ≡ ended i' (ok r)
      → (p ≡ (i', ok r)) ⊎ ((j : Instance) × (again j ≡ ended i' (ok r)))
  next_round-ok asked (i, ok r') again i' r h = inl cc
  next_round-ok true (i, err e) again i' r h = elim (Bool-cases (w.cancelled i.tick)) [
    | inl c ↦ ground arith
    | inr c ↦ inr (waited i, rw c at h)
  ]
  next_round-ok false (i, err e) again i' r h = inr (i, h)

  try_rounds-ok :
      (fuel : ℕ) (info : StreamInfo) (ks done : List Text) (i i' : Instance)
      (r : LoadBalancerResult)
      → try_rounds s w setup method stream_id fuel info ks done i ≡ ended i' (ok r)
      → IsSource s w method info r
  unfolding try_rounds
  try_rounds-ok zero info ks done i i' r h = ground arith
  try_rounds-ok (suc fuel) info ks done i i' r h =
      let sorted = by_priority s w setup method stream_id i ks in
      let index = first_open done sorted in
      elim (Bool-cases (ltb (length done) (length ks))) [
        | inl c ↦
            elim (next_round-ok (has_index s w setup method stream_id info index)
              (try_index s w setup method stream_id info index (waited i))
              (try_rounds s w setup method stream_id fuel info sorted (mark_done index done)) i' r
              (rw (c, try_rounds) at h)) [
                | inl e ↦ try_index-ok s w setup method stream_id info index (waited i) i' r e
                | inr (j, e) ↦ try_rounds-ok fuel info sorted (mark_done index done) j i' r e
              ]
        | inr c ↦ ground arith
      ]

  try_all-ok :
      (fuel : ℕ) (info : StreamInfo) (i i' : Instance) (r : LoadBalancerResult)
      → i.info ≡ some info
      → try_all_streams s w setup method stream_id fuel i ≡ ended i' (ok r)
      → IsSource s w method info r
  unfolding try_all_streams waited
  try_all-ok fuel info i i' r e h = elim (Option-cases setup.indexes) [
    | inl n ↦ ground arith
    | inr ([], n) ↦ ground arith
    | inr (k ∷ ks, n) ↦ elim (Bool-cases (w.cancelled i.tick)) [
      | inl c ↦ ground arith
      | inr c ↦ try_rounds-ok fuel info (k ∷ ks) [] _ i' r (rw (n, c, e, try_all_streams) at h)
    ]
  ]

  abbrev KeepsInfo : Option StreamInfo → Instance → Type 0
  KeepsInfo f i = i.info ≡ f

  judged-info :
      (f : Option StreamInfo) (index url sub : Text) (reply : Reply) (i : Instance)
      → KeepsInfo f i
      → Ends (KeepsInfo f) (KeepsInfo f) (judged s w method stream_id index sub url reply i)
  unfolding judge note_sent mark_tested waited
  judged-info f index url sub bad_request i h = h
  judged-info f index url sub failed i h = h
  judged-info f index url sub no_response i h = h
  judged-info f index url sub (replied response) i h = ground (arith, h)

  try_all-info :
      (f : Option StreamInfo) (fuel : ℕ) (i : Instance)
      → i.info ≡ f
      → EndsIn (KeepsInfo f) (KeepsInfo f) (try_all_streams s w setup method stream_id fuel i)
  unfolding waited
  try_all-info f fuel i h =
      try_all-EndsIn s w method stream_id (KeepsInfo f) (KeepsInfo f) (λ i h. h)
        (λ index entry sub i h.
          try_candidate-Ends s w method stream_id index sub (KeepsInfo f) (KeepsInfo f) (λ i h. h)
            entry i (λ reply _ k. judged-info f index (address_of entry) sub reply (waited i) k) h)
        setup fuel i h

  after_lap-ok :
      (rounds : ℕ) (o : Outcome) (again : Instance → Outcome) (i' : Instance)
      (r : LoadBalancerResult)
      → after_lap s w setup method stream_id rounds o again ≡ ended i' (ok r)
      → (o ≡ ended i' (ok r))
        ⊎ ((j : Instance) × (e : BalanceError) × (o ≡ ended j (err e))
            × (again (waited (clear_tested stream_id j)) ≡ ended i' (ok r)))
  after_lap-ok rounds out_of_fuel again i' r h = ground arith
  after_lap-ok rounds (ended i (ok r')) again i' r h = inl h
  after_lap-ok rounds (ended i (err e)) again i' r h = elim (Bool-cases (is_canceled e)) [
    | inl c ↦ ground arith
    | inr c ↦ elim (Bool-cases (w.cancelled (clear_tested stream_id i).tick)) [
      | inl d ↦ ground arith
      | inr d ↦ inr (i, e, refl, rw (c, d) at h)
    ]
  ]

  laps-ok :
      (rounds fuel lap : ℕ) (info : StreamInfo) (i i' : Instance) (r : LoadBalancerResult)
      → i.info ≡ some info
      → laps s w setup method stream_id rounds fuel lap i ≡ ended i' (ok r)
      → IsSource s w method info r
  unfolding laps clear_tested waited
  laps-ok rounds zero lap info i i' r e h = ground arith
  laps-ok rounds (suc fuel) lap info i i' r e h =
      elim (Bool-cases (ltb_ℤ (pos lap) setup.max_retries || eqb_ℤ setup.max_retries (pos 0))) [
        | inr c ↦ ground arith
        | inl c ↦
            let again = laps s w setup method stream_id rounds fuel (suc lap) in
            elim (after_lap-ok rounds (try_all_streams s w setup method stream_id rounds i) again i'
              r (rw (c, laps) at h)) [
                | inl o ↦ try_all-ok rounds info i i' r e o
                | inr (j, x, o, k) ↦
                    laps-ok rounds fuel (suc lap) info _ i' r
                      (rw o at (try_all-info (some info) rounds i e)) k
              ]
      ]

fetched :
    (setup : Setup) (stream_id : Text) (info : StreamInfo) (e : Text × Table Text)
    (es : Table (Table Text)) (i : Instance)
    → setup.parse_slug stream_id ≡ some info
    → info.urls ≡ some (e ∷ es)
    → any_url (e ∷ es) ≡ true
    → fetch_backend_urls setup stream_id i ≡ (record i { info = some info }, none)
unfolding fetch_backend_urls
fetched setup stream_id info e es i f u v = ground arith

abbrev after_fetch :
    (s : Slots) → World s → Setup → Text → Text → ℕ → ℕ → Instance × Option BalanceError → Outcome
after_fetch s w setup method stream_id rounds fuel (i, some e) = ended i (err fetching_sources)
after_fetch s w setup method stream_id rounds fuel (i, none) =
    laps s w setup method stream_id rounds fuel 0 i

-- A successful answer of Balance: the request has a method and a path, and the result is an address of
-- the stream that the slug in the path stands for.
pub balance-ok :
    (s : Slots) (w : World s) (setup : Setup) (fuel rounds : ℕ) (has_context : Bool)
    (req : Option Request) (i i' : Instance) (r : LoadBalancerResult)
    → balance s w setup fuel rounds has_context req i ≡ ended i' (ok r)
    → (q : Request) × (path : Text) × (info : StreamInfo) × (req ≡ some q)
      × (q.path ≡ some path)
      × (setup.parse_slug (get_stream_id path) ≡ some info)
      × IsSource s w q.method info r
unfolding balance fetch_backend_urls
balance-ok s w setup fuel rounds false req i i' r h = ground arith
balance-ok s w setup fuel rounds true none i i' r h = ground arith
balance-ok s w setup fuel rounds true (some q) i i' r h = elim (Bool-cases (is_empty q.method)) [
  | inl c ↦ ground arith
  | inr c ↦ elim (Option-cases q.path) [
    | inl p ↦ ground arith
    | inr (path, p) ↦ elim (Option-cases (setup.parse_slug (get_stream_id path))) [
      | inl f ↦ ground arith
      | inr (info, f) ↦ elim (Option-cases info.urls) [
        | inl u ↦ ground arith
        | inr ([], u) ↦ ground arith
        | inr (e ∷ es, u) ↦ elim (Bool-cases (any_url (e ∷ es))) [
          | inl v ↦ (
            q,
            path,
            info,
            refl,
            p,
            f,
            laps-ok s w setup q.method (get_stream_id path) rounds fuel 0 info
                (record i { info = some info }) i' r refl
                (subst
                  (λ x.
                    after_fetch s w setup q.method (get_stream_id path) rounds fuel x
                    ≡ ended i' (ok r))
                  (fetched setup (get_stream_id path) info e es i f u v) (rw (c, p, balance) at h)),
          )
          | inr v ↦ ground arith
        ]
      ]
    ]
  ]
]
