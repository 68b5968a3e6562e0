-- ===== src/LoadBalancer/Sources.antt =====
-- Where the answer of the load balancer comes from.
use streamweaver.Prelude.{
  ℕ, suc, ◌≡◌, refl, sym, ◌∙◌, subst, Bool, true, false, some, Option-cases, Bool-cases, inl, inr,
  ◌⊎◌, List, [], ◌∷◌, arith, Text, Table, lookup, SliceSort, ℤ, ==_iff, contains,
}
use streamweaver.StreamInfo.{StreamInfo}
use streamweaver.LoadBalancer.{
  LoadBalancerResult, BalanceError, Result, ok, err, Slots, Reply, bad_request, failed, no_response,
  replied, World, Instance, tested_of, candidate, waited,
}
use streamweaver.LoadBalancer.Names.{address_of}
use streamweaver.LoadBalancer.Candidates.{judge, ask, try_candidate, try_subs, try_stream_urls}
use streamweaver.LoadBalancer.Balance.{Setup, try_index}

-- The result names an entry of the index's addresses, at whose address a request was answered with
-- status 200, right after the index was found to have a free connection.
pub record IsAnswer (s : Slots) (w : World s) (method index : Text) (inner : Table Text)
    (r : LoadBalancerResult) : Type 0 where
  pub entry : Text
  pub found : lookup r.sub_index inner ≡ some entry
  pub url_eq : r.url ≡ address_of entry
  pub index_eq : r.index ≡ index
  pub status_eq : r.response.status_code ≡ 200
  pub asked_at : ℕ
  pub has_room : s.is_full (w.manager asked_at) index ≡ false
  pub answer : w.fetch (suc asked_at) method r.url ≡ replied r.response

pub result_cases :
    (p : Instance × Result LoadBalancerResult)
    → ((r : LoadBalancerResult) × (p ≡ (p.0, ok r))) ⊎ ((e : BalanceError) × (p ≡ (p.0, err e)))
result_cases (i, ok r) = inl (r, refl)
result_cases (i, err e) = inr (e, refl)

module _ (s : Slots) (w : World s) (method stream_id index : Text) (inner : Table Text) where
  judge-ok :
      (url sub : Text) (reply : Reply) (i i' : Instance) (r : LoadBalancerResult)
      → judge s w method stream_id index url sub reply i ≡ (i', ok r)
      → (reply ≡ replied r.response)
        × (r.response.status_code ≡ 200)
        × (r.url ≡ url)
        × (r.index ≡ index)
        × (r.sub_index ≡ sub)
  unfolding judge
  judge-ok url sub bad_request i i' r h = absurd cc
  judge-ok url sub failed i i' r h = absurd cc
  judge-ok url sub no_response i i' r h = absurd cc
  judge-ok url sub (replied response) i i' r h = ground (arith, ==_iff response.status_code 200)

  try_candidate-ok :
      (entry sub : Text) (i i' : Instance) (r : LoadBalancerResult)
      → lookup sub inner ≡ some entry
      → try_candidate s w method stream_id index entry sub i ≡ (i', ok r)
      → IsAnswer s w method index inner r
  unfolding try_candidate ask waited
  try_candidate-ok entry sub i i' r e h =
      elim (Bool-cases (contains (tested_of i stream_id) (candidate index sub))) [
        | inl c ↦ ground arith
        | inr c ↦ elim (Bool-cases (s.is_full (w.manager i.tick) index)) [
          | inl f ↦ ground arith
          | inr f ↦
              let (a, st, u, x, y) =
                judge-ok (address_of entry) sub _ _ i' r (rw (c, f, try_candidate, ask) at h) in
              record {
                entry = entry;
                found = rw y e;
                url_eq = u;
                index_eq = x;
                status_eq = st;
                asked_at = i.tick;
                has_room = f;
                answer = rw u a;
              }
        ]
      ]

  try_subs-ok :
      (subs : List Text) (i i' : Instance) (r : LoadBalancerResult)
      → try_subs s w method stream_id index inner subs i ≡ (i', ok r)
      → IsAnswer s w method index inner r
  unfolding try_subs
  try_subs-ok [] i i' r h = ground arith
  try_subs-ok (sub ∷ subs) i i' r h = elim (Option-cases (lookup sub inner)) [
    | inl e ↦ try_subs-ok subs i i' r (rw (e, try_subs) at h)
    | inr (entry, e) ↦ elim (result_cases (try_candidate s w method stream_id index entry sub i)) [
      | inl (r', t) ↦ try_candidate-ok entry sub i i' r e (t ∙ (rw (e, t, try_subs) at h))
      | inr (e', t) ↦ try_subs-ok subs _ i' r (rw (e, t, try_subs) at h)
    ]
  ]

  try_stream_urls-ok :
      (sub_sort : SliceSort (Text × ℤ)) (has_client : Bool) (i i' : Instance)
      (r : LoadBalancerResult)
      → try_stream_urls s w method stream_id index sub_sort has_client inner i ≡ (i', ok r)
      → IsAnswer s w method index inner r
  unfolding try_stream_urls
  try_stream_urls-ok sub_sort true i i' r h = try_subs-ok _ i i' r h
  try_stream_urls-ok sub_sort false i i' r h = ground arith

-- The answer is from the addresses of its index in the stream's information.
pub record IsSource (s : Slots) (w : World s) (method : Text) (info : StreamInfo)
    (r : LoadBalancerResult) : Type 0 where
  pub urls : Table (Table Text)
  pub urls_eq : info.urls ≡ some urls
  pub inner : Table Text
  pub inner_eq : lookup r.index urls ≡ some inner
  pub is_answer : IsAnswer s w method r.index inner r

module _ (s : Slots) (w : World s) (setup : Setup) (method stream_id : Text) where
  pub try_index-ok :
      (info : StreamInfo) (index : Text) (i i' : Instance) (r : LoadBalancerResult)
      → try_index s w setup method stream_id info index i ≡ (i', ok r)
      → IsSource s w method info r
  unfolding try_index
  try_index-ok info index i i' r h = elim (Option-cases info.urls) [
    | inl e ↦ ground arith
    | inr (urls, e) ↦ elim (Option-cases (lookup index urls)) [
      | inl f ↦ ground arith
      | inr (inner, f) ↦
          let a =
            try_stream_urls-ok s w method stream_id index inner setup.sub_sort setup.has_client i i'
              r (rw (e, f, try_index) at h) in
          record {
            urls = urls;
            urls_eq = e;
            inner = inner;
            inner_eq = rw a.index_eq f;
            is_answer = subst (λ k. IsAnswer s w method k inner r) (sym a.index_eq) a;
          }
    ]
  ]
