-- ===== src/Request.antt =====
-- One request for a stream: handlers/stream_http.go, around ProxyStream of proxy/stream/stream_instance.go.
-- The log and its use of the slug are left out.
pub mod Url
pub mod Instance
pub mod Retry
mod Rejoin
mod Examples
use streamweaver.Prelude.{
  ℕ, Bool, true, false, ◌||◌, Option, none, some, List, [], ◌∷◌, Text, bytes, text_eq, is_empty,
  trim_prefix, ◌==◌, if◌then◌else◌,
}
use streamweaver.LoadBalancer.{LoadBalancerResult}
use streamweaver.LoadBalancer.Names.{base_name, up_to}
use streamweaver.Store.{ConcurrencyManager}
use streamweaver.Coordinator.{
  StreamCoordinator, set_actual_url, get_actual_url, status_server_error, status_eof,
  status_m3u8_parse_error, status_incompatible,
}
use streamweaver.Request.Instance.{Handlers, Route, proxy_stream}

-- strings.Split(path.Base(p), ".")[0], without a leading slash; Split gives one part at least.
unfoldable pub extract_stream_url : Text → Text
unfolding base_name up_to trim_prefix
extract_stream_url path = trim_prefix (up_to b'.' (base_name path)) (bytes "/")

-- How the handler goes on with the coordinator that it holds: it asks the load balancer, or shares the
-- result of the writer, with the coordinator, or that of the registry for another address.
pub data Choice : Type 0 where
  balance : Choice
  keep : StreamCoordinator → LoadBalancerResult → Choice
  move : LoadBalancerResult → Choice

unfoldable pub choose : StreamCoordinator → Choice
unfolding set_actual_url get_actual_url is_empty text_eq
choose c = elim c.lb_result_on_write [
  | none ↦ balance
  | some r ↦
      if is_empty r.url
      then keep c r
      else if is_empty (get_actual_url c)
      then keep (set_actual_url r.url c) r
      else if text_eq (get_actual_url c) r.url
      then keep c r
      else move r
]

-- Whether the request is over.
unfoldable pub handle_exit_code : ℕ → Bool
handle_exit_code code =
    if code == status_incompatible
      || code == status_eof
      || code == status_server_error
      || code == status_m3u8_parse_error
    then false
    else true

-- A round of the loop: the coordinator as the handler sees it; the load balancer's answer, if it is asked,
-- where none is an error; what ProxyStream's handlers do; and whether the request's context is done while the
-- stream runs, and in the wait.
pub record Round : Type 0 where
  pub seen : StreamCoordinator
  pub balanced : Option LoadBalancerResult
  pub handlers : Handlers
  pub closed_in_stream : Bool
  pub closed_in_wait : Bool

-- `retrying` is the loop after all its rounds.
pub data Ending : Type 0 where
  retrying client_closed balancer_failed : Ending
  completed : ℕ → Ending

unfoldable pub result_of : Round → Option LoadBalancerResult
unfolding choose
result_of r = elim (choose r.seen) [
  | balance ↦ r.balanced
  | keep c result ↦ some result
  | move result ↦ some result
]

-- What ProxyStream was called with in each round, its route, the ending, and the manager.
pub record Served : Type 0 where
  pub trace : List (LoadBalancerResult × Route)
  pub ending : Ending
  pub manager : ConcurrencyManager

unfoldable pub handle_stream : List Round → ConcurrencyManager → Served
unfolding result_of handle_exit_code proxy_stream
handle_stream [] cm = record { trace = []; ending = retrying; manager = cm }
handle_stream (r ∷ rs) cm = elim (result_of r) [
  | none ↦ record { trace = []; ending = balancer_failed; manager = cm }
  | some result ↦
      let out = proxy_stream r.handlers result cm in
      let rest = handle_stream rs out.manager in
      let called : LoadBalancerResult × Route = (result, out.route) in
      if r.closed_in_stream
      then record { trace = called ∷ []; ending = client_closed; manager = out.manager }
      else if handle_exit_code out.status
      then record { trace = called ∷ []; ending = completed out.status; manager = out.manager }
      else if r.closed_in_wait
      then record { trace = called ∷ []; ending = client_closed; manager = out.manager }
      else record rest { trace = called ∷ rest.trace }
]
