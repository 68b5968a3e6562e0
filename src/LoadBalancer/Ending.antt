-- ===== src/LoadBalancer/Ending.antt =====
-- Balance ends.
use streamweaver.Prelude.{
  ℕ, zero, suc, ◌+◌, ◌<◌, ◌≡◌, ◌≢◌, refl, Bool, true, false, ◌||◌, Option, none, some, Option-cases,
  Bool-cases, inl, inr, List, [], ◌∷◌, arith, Text, length, ℤ, pos, pos_part, negsuc, ltb_ℤ, eqb_ℤ,
  is_empty,
}
use streamweaver.LoadBalancer.{
  LoadBalancerResult, Result, ok, err, context_canceled, cancelling, nil_index_provider, no_indexes,
  no_stream_info, nil_context, nil_request, empty_method, nil_url, fetching_sources, exhausted,
  Slots, World, Instance, waited, clear_tested,
}
use streamweaver.LoadBalancer.Names.{get_stream_id}
use streamweaver.LoadBalancer.Balance.{
  Setup, Outcome, ended, out_of_fuel, Request, after_lap, is_canceled, try_all_streams, laps,
  fetch_backend_urls, balance,
}
use streamweaver.LoadBalancer.Distinct.{IsDistinct}
use streamweaver.LoadBalancer.Rounds.{HasEnded, try_rounds-HasEnded}

lap_lt :
    (lap : ℕ) (m : ℤ) → m ≢ pos 0 → (ltb_ℤ (pos lap) m || eqb_ℤ m (pos 0)) ≡ true → lap < pos_part m
lap_lt lap (pos zero) n c = absurd (n refl)
lap_lt lap (pos (suc m)) n c = ground arith
lap_lt lap (negsuc m) n c = ground arith

-- The provider, if there is one, gives distinct indexes, fewer than the rounds.
unfoldable pub IsListed : Setup → ℕ → Type 0
IsListed setup rounds =
    (ks : List Text) → setup.indexes ≡ some ks → IsDistinct ks × (length ks < rounds)

module _ (s : Slots) (w : World s) (setup : Setup) (method stream_id : Text) (rounds : ℕ)
    (listed : IsListed setup rounds) where
  try_all-HasEnded :
      (i : Instance)
      → HasEnded s w setup method stream_id (try_all_streams s w setup method stream_id rounds i)
  unfolding try_all_streams IsListed
  try_all-HasEnded i = elim (Option-cases setup.indexes) [
    | inl n ↦ rw (n, try_all_streams) (i, err nil_index_provider, refl)
    | inr ([], n) ↦ rw (n, try_all_streams) (i, err no_indexes, refl)
    | inr (k ∷ ks, n) ↦ elim (Bool-cases (w.cancelled i.tick)) [
      | inl c ↦ rw (n, c, try_all_streams) (waited i, err context_canceled, refl)
      | inr c ↦ elim (Option-cases i.info) [
        | inl e ↦ rw (n, c, e, try_all_streams) (waited i, err no_stream_info, refl)
        | inr (info, e) ↦
            let (d, l) = listed (k ∷ ks) n in
            rw (n, c, e, try_all_streams)
              (try_rounds-HasEnded s w setup method stream_id rounds info (k ∷ ks) [] (waited i) d
                (omega arith) (omega arith))
      ]
    ]
  ]

  after_lap-HasEnded :
      (o : Outcome) (again : Instance → Outcome)
      → HasEnded s w setup method stream_id o
      → ((i : Instance) → HasEnded s w setup method stream_id (again i))
      → HasEnded s w setup method stream_id (after_lap s w setup method stream_id rounds o again)
  after_lap-HasEnded out_of_fuel again (i, r, e) h = ground arith
  after_lap-HasEnded (ended i (ok r)) again e h = (i, ok r, refl)
  after_lap-HasEnded (ended i (err x)) again e h = elim (Bool-cases (is_canceled x)) [
    | inl c ↦ rw c (i, err cancelling, refl)
    | inr c ↦ elim (Bool-cases (w.cancelled (clear_tested stream_id i).tick)) [
      | inl d ↦ rw (c, d) (waited (clear_tested stream_id i), err cancelling, refl)
      | inr d ↦ rw (c, d) (h (waited (clear_tested stream_id i)))
    ]
  ]

  laps-HasEnded :
      (fuel lap : ℕ) (i : Instance)
      → setup.max_retries ≢ pos 0
      → pos_part setup.max_retries < fuel + lap
      → 0 < fuel
      → HasEnded s w setup method stream_id (laps s w setup method stream_id rounds fuel lap i)
  unfolding laps
  laps-HasEnded zero lap i n h f = ground arith
  laps-HasEnded (suc fuel) lap i n h f =
      elim (Bool-cases (ltb_ℤ (pos lap) setup.max_retries || eqb_ℤ setup.max_retries (pos 0))) [
        | inr c ↦ rw (c, laps) (i, err exhausted, refl)
        | inl c ↦
            rw (c, laps)
              (after_lap-HasEnded _ _ (try_all-HasEnded i) (λ j.
                laps-HasEnded fuel (suc lap) j n (omega arith)
                  (ground (arith, lap_lt lap setup.max_retries n c))))
      ]

-- With a number of retries, Balance ends, whatever the addresses answer: where the provider's indexes
-- are distinct, one lap more than `max_retries` and one round more than there are indexes are enough.
pub balance-ends :
    (s : Slots) (w : World s) (setup : Setup) (fuel rounds : ℕ) (has_context : Bool)
    (req : Option Request) (i : Instance)
    → IsListed setup rounds
    → setup.max_retries ≢ pos 0
    → pos_part setup.max_retries < fuel
    → (i' : Instance) × (r : Result LoadBalancerResult) × (balance s w setup fuel rounds has_context
          req i
        ≡ ended i' r)
unfolding balance
balance-ends s w setup fuel rounds false req i l n h = (i, err nil_context, refl)
balance-ends s w setup fuel rounds true none i l n h = (i, err nil_request, refl)
balance-ends s w setup fuel rounds true (some q) i l n h = elim (Bool-cases (is_empty q.method)) [
  | inl c ↦ rw (c, balance) (i, err empty_method, refl)
  | inr c ↦ elim (Option-cases q.path) [
    | inl p ↦ rw (c, p, balance) (i, err nil_url, refl)
    | inr (path, p) ↦
        let stream_id = get_stream_id path in
        let (i', bad) = fetch_backend_urls setup stream_id i in
        elim (Option-cases bad) [
          | inr (e, b) ↦ rw (c, p, b, balance) (i', err fetching_sources, refl)
          | inl b ↦
              rw (c, p, b, balance)
                (laps-HasEnded s w setup q.method stream_id rounds l fuel 0 i' n (omega arith)
                  (omega arith))
        ]
  ]
]
