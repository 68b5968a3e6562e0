-- ===== src/Request/Retry.antt =====
-- How the loop of handlers/stream_http.go goes on after a playlist that cannot be shared.
use streamweaver.Prelude.{
  suc, ◌≡◌, ◌∙◌, Bool, true, false, some, List, [], ◌∷◌, ◌++◌, arith, Text, All, length, replicate,
  if◌then◌else◌, Bool-cases, inl, inr, lookup-put, text_eq_refl,
}
use streamweaver.LoadBalancer.{LoadBalancerResult}
use streamweaver.Store.{ConcurrencyManager}
use streamweaver.Coordinator.{status_m3u8_parsed, status_incompatible}
use streamweaver.Request.{Round, completed, result_of, handle_stream, handle_exit_code}
use streamweaver.Request.Url.{is_an_m3u8_media}
use streamweaver.Request.Instance.{
  Handlers, Route, by_shared, by_none, is_vod, is_invalid, mark_invalid, route_of, status_of,
  proxy_stream,
}

mark_invalid-marks :
    (url : Text) (cm : ConcurrencyManager) → is_invalid url (mark_invalid url cm) ≡ true
unfolding mark_invalid is_invalid
mark_invalid-marks url cm = elim (Bool-cases (is_invalid url cm)) [
  | inl e ↦ rw (e, mark_invalid) e
  | inr e ↦
      rw (mark_invalid, e) (ground (arith, lookup-put url url tt cm.invalid, text_eq_refl url))
]

module _ (h : Handlers) (lb : LoadBalancerResult) (cm : ConcurrencyManager) (v : is_vod lb ≡ false)
    (k : is_an_m3u8_media lb.response ≡ true) where
  -- A playlist that is marked is passed through, and the shared handler is not called.
  pub proxy_stream-marked :
      is_invalid lb.url cm ≡ true
      → proxy_stream h lb cm ≡ record {
        route = by_none;
        passed = true;
        status = if h.failover then status_m3u8_parsed else status_incompatible;
        manager = mark_invalid lb.url (h.meantime cm);
      }
  unfolding proxy_stream route_of status_of
  proxy_stream-marked i = rw (v, i, k)

  pub proxy_stream-fresh :
      is_invalid lb.url cm ≡ false
      → h.shared.status ≡ status_incompatible
      → proxy_stream h lb cm ≡ record {
        route = by_shared;
        passed = true;
        status = if h.failover then status_m3u8_parsed else status_incompatible;
        manager = mark_invalid lb.url (h.meantime cm);
      }
  unfolding proxy_stream route_of status_of
  proxy_stream-fresh i s = rw (v, i, s, k)

-- A round in which ProxyStream is called with `lb`, for a client that stays, and no mark is lost.
pub record Asks (lb : LoadBalancerResult) (failover : Bool) (r : Round) : Type 0 where
  pub result_eq : result_of r ≡ some lb
  pub open_in_stream : r.closed_in_stream ≡ false
  pub open_in_wait : r.closed_in_wait ≡ false
  pub failover_eq : r.handlers.failover ≡ failover
  pub keeps :
      (cm : ConcurrencyManager)
      → is_invalid lb.url cm ≡ true
      → is_invalid lb.url (r.handlers.meantime cm) ≡ true

module _ (lb : LoadBalancerResult) (r : Round) (rs : List Round) (cm cm' : ConcurrencyManager)
    (x : Route) where
  -- The round after which the loop goes on.
  handle_stream-again :
      Asks lb false r
      → proxy_stream r.handlers lb cm ≡ record {
        route = x;
        passed = true;
        status = if r.handlers.failover then status_m3u8_parsed else status_incompatible;
        manager = cm';
      }
      → handle_stream (r ∷ rs) cm
        ≡ (let rest = handle_stream rs cm' in record rest { trace = (lb, x) ∷ rest.trace })
  unfolding handle_stream handle_exit_code
  handle_stream-again a h =
      rw (handle_stream, a.result_eq, h, a.failover_eq, a.open_in_stream, a.open_in_wait)

  handle_stream-done :
      Asks lb true r
      → proxy_stream r.handlers lb cm ≡ record {
        route = x;
        passed = true;
        status = if r.handlers.failover then status_m3u8_parsed else status_incompatible;
        manager = cm';
      }
      → handle_stream (r ∷ rs) cm
        ≡ record { trace = (lb, x) ∷ []; ending = completed status_m3u8_parsed; manager = cm' }
  unfolding handle_stream handle_exit_code
  handle_stream-done a h = rw (handle_stream, a.result_eq, h, a.failover_eq, a.open_in_stream)

module _ (lb : LoadBalancerResult) (last : Round) (v : is_vod lb ≡ false)
    (k : is_an_m3u8_media lb.response ≡ true) (a : Asks lb true last) where
  marked-rounds :
      (rs : List Round) (cm : ConcurrencyManager)
      → All (Asks lb false) rs
      → is_invalid lb.url cm ≡ true
      → (cm' : ConcurrencyManager) × (handle_stream (rs ++ last ∷ []) cm ≡ record {
        trace = replicate (suc (length rs)) (lb, by_none);
        ending = completed status_m3u8_parsed;
        manager = cm';
      })
        × (is_invalid lb.url cm' ≡ true)
  marked-rounds [] cm q i = (
    _,
    handle_stream-done lb last [] cm _ by_none a (proxy_stream-marked last.handlers lb cm v k i),
    mark_invalid-marks lb.url (last.handlers.meantime cm),
  )
  marked-rounds (r ∷ rs) cm q i =
      let (cm', e, j) =
        marked-rounds rs _ q.1 (mark_invalid-marks lb.url (r.handlers.meantime cm)) in
      (
        cm',
        handle_stream-again lb r (rs ++ last ∷ []) cm _ by_none q.0
              (proxy_stream-marked r.handlers lb cm v k i)
            ∙ rw e,
        j,
      )

  -- A playlist, no video on demand, is what every round of a request is about, for a client that stays. It is not yet marked
  -- as impossible to share; the shared handler says so in the first round; and in all rounds but the last its passthrough fails.
  -- Then the request is completed in the last round, as passed through; the shared handler was called in the
  -- first round only, and the address is marked at the end.
  pub handle_stream-incompatible :
      (r : Round) (rs : List Round) (cm : ConcurrencyManager)
      → Asks lb false r
      → All (Asks lb false) rs
      → is_invalid lb.url cm ≡ false
      → r.handlers.shared.status ≡ status_incompatible
      → (cm' : ConcurrencyManager) × (handle_stream (r ∷ rs ++ last ∷ []) cm ≡ record {
        trace = (lb, by_shared) ∷ replicate (suc (length rs)) (lb, by_none);
        ending = completed status_m3u8_parsed;
        manager = cm';
      })
        × (is_invalid lb.url cm' ≡ true)
  handle_stream-incompatible r rs cm b q i s =
      let (cm', e, j) = marked-rounds rs _ q (mark_invalid-marks lb.url (r.handlers.meantime cm)) in
      (
        cm',
        handle_stream-again lb r (rs ++ last ∷ []) cm _ by_shared b
              (proxy_stream-fresh r.handlers lb cm v k i s)
            ∙ rw e,
        j,
      )
