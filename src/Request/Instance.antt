-- ===== src/Request/Instance.antt =====
-- ProxyStream of proxy/stream/stream_instance.go: how a stream is handled, and the status that the request
-- handler gets.
use streamweaver.Prelude.{
  ℕ, Bool, true, false, ◌&&◌, ◌||◌, none, some, Text, bytes, lookup, put, has_suffix, ◌==◌,
  if◌then◌else◌,
}
use streamweaver.LoadBalancer.{LoadBalancerResult}
use streamweaver.Store.{ConcurrencyManager}
use streamweaver.Coordinator.{status_m3u8_parsed, status_incompatible}
use streamweaver.Viewer.{StreamResult}
use streamweaver.Request.Url.{is_an_m3u8_media}

-- What the handlers give if they are called: the direct one, the shared one, and whether the passthrough
-- of the playlist has no error; and what becomes of the manager in the meantime.
pub record Handlers : Type 0 where
  pub direct : StreamResult
  pub shared : StreamResult
  pub failover : Bool
  pub meantime : ConcurrencyManager → ConcurrencyManager

-- The handler that is called.
pub data Route : Type 0 where
  by_direct by_shared by_none : Route

-- `passed` tells whether the playlist was passed through.
pub record Outcome : Type 0 where
  pub route : Route
  pub passed : Bool
  pub status : ℕ
  pub manager : ConcurrencyManager

unfoldable pub is_vod : LoadBalancerResult → Bool
unfolding has_suffix
is_vod lb = lb.response.status_code == 206 || has_suffix lb.url (bytes ".mp4")

unfoldable pub is_invalid : Text → ConcurrencyManager → Bool
unfolding lookup
is_invalid url cm = elim (lookup url cm.invalid) [ none ↦ false | some u ↦ true ]

unfoldable pub mark_invalid : Text → ConcurrencyManager → ConcurrencyManager
unfolding is_invalid put
mark_invalid url cm =
    if is_invalid url cm then cm else record cm { invalid = put url tt cm.invalid }

unfoldable pub route_of : LoadBalancerResult → ConcurrencyManager → Route
unfolding is_vod is_invalid
route_of lb cm =
    if is_vod lb then by_direct else if is_invalid lb.url cm then by_none else by_shared

unfoldable pub status_of : Handlers → Route → ℕ
status_of h by_direct = h.direct.status
status_of h by_shared = h.shared.status
status_of h by_none = status_incompatible

unfoldable pub proxy_stream : Handlers → LoadBalancerResult → ConcurrencyManager → Outcome
unfolding route_of status_of mark_invalid is_an_m3u8_media
proxy_stream h lb cm =
    let route = route_of lb cm in
    let after = h.meantime cm in
    if status_of h route == status_incompatible && is_an_m3u8_media lb.response
    then record {
      route = route;
      passed = true;
      status = if h.failover then status_m3u8_parsed else status_incompatible;
      manager = mark_invalid lb.url after;
    }
    else record { route = route; passed = false; status = status_of h route; manager = after }
