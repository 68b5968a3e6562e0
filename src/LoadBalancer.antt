-- ===== src/LoadBalancer.antt =====
-- proxy/loadbalancer/instance.go: the choice of a stream address for a request. The instance belongs to
-- one request, so its fields are its own; the clock of the model, `tick`, counts its calls of what it
-- shares with others or asks of the outside. The log and the measuring of times are left out.
pub mod Names
pub mod Candidates
pub mod Balance
pub mod Manager
pub mod Sources
pub mod Attempts
pub mod Walk
pub mod Distinct
pub mod Repeats
pub mod Rounds
pub mod Exhausted
pub mod Ending
mod Examples
use streamweaver.Prelude.{
  ℕ, ◌≡◌, Bool, Option, none, some, List, [], ◌∷◌, ◌++◌, Text, bytes, Table, lookup, put, without,
  contains, ℤ, pos, leb_ℤ, suc, length,
}
use streamweaver.StreamInfo.{StreamInfo}

-- What the program reads of an http.Response: the status, the headers, and the path of the request
-- that it answers, if it has one.
pub record Response : Type 0 where
  pub status_code : ℕ
  pub header : Table (List Text)
  pub request_path : Option Text

pub record LoadBalancerResult : Type 0 where
  pub response : Response
  pub url : Text
  pub index : Text
  pub sub_index : Text

-- A value stands for the errors of the load balancer; `no_stream_info` is the panic on a nil
-- StreamInfo.
pub data BalanceError : Type 0 where
  nil_context nil_request empty_method nil_url fetching_sources cancelling exhausted : BalanceError
  context_canceled nil_index_provider no_indexes no_available_streams : BalanceError
  nil_http_client all_urls_failed no_urls no_valid_urls bad_slug no_stream_info : BalanceError

pub data Result {ℓ} (A : Type ℓ) : Type ℓ where
  ok : A → Result A
  err : BalanceError → Result A

-- What the load balancer reads of the concurrency manager, at one moment.
pub record Slots : Type 1 where
  pub Manager : Type 0
  pub is_full : Manager → Text → Bool
  pub priority : Manager → Text → ℤ
  pub full_iff : (m : Manager) (k : Text) → is_full m k ≡ leb_ℤ (priority m k) (pos 0)

-- How a try of an address ends: http.NewRequest fails, the client fails, it gives no response, or one.
pub data Reply : Type 0 where
  bad_request failed no_response : Reply
  replied : Response → Reply

-- What is outside of the instance, at each tick: the manager, which other requests change, whether the
-- context is done, and what a request with this method and address would get.
pub record World (s : Slots) : Type 0 where
  pub manager : ℕ → s.Manager
  pub cancelled : ℕ → Bool
  pub fetch : ℕ → Text → Text → Reply

-- `sent` lists the candidates for which a request was sent, the latest first. It stands for what the
-- HTTP client has seen.
pub record Instance : Type 0 where
  pub info : Option StreamInfo
  pub tested : Table (List Text)
  pub tick : ℕ
  pub sent : List Text

pub new_instance : Instance
new_instance = record { info = none; tested = []; tick = 0; sent = [] }

pub tested_of : Instance → Text → List Text
tested_of i stream_id = elim (lookup stream_id i.tested) [ none ↦ [] | some ids ↦ ids ]

pub get_num_tested_indexes : Instance → Text → ℕ
unfolding tested_of
get_num_tested_indexes i stream_id = length (tested_of i stream_id)

pub mark_tested : Text → Text → Instance → Instance
unfolding tested_of
mark_tested stream_id id i = record i {
  tested = put stream_id (tested_of i stream_id ++ id ∷ []) i.tested;
}

pub clear_tested : Text → Instance → Instance
clear_tested stream_id i = record i { tested = without stream_id i.tested }

abbrev pub candidate : Text → Text → Text
candidate index sub_index = index ++ bytes "|" ++ sub_index

pub waited : Instance → Instance
waited i = record i { tick = suc i.tick }
