-- ===== src/Env.antt =====
-- utils/env.go and utils/http.go: what the program reads of its environment, a list of texts of the form
-- NAME=value as os.Environ gives it.
pub mod Filters
mod Examples
use streamweaver.Prelude.{
  ℕ, Bool, true, false, not, Option, none, some, List, [], ◌∷◌, ◌++◌, Text, bytes, text_eq, cut,
  strip_prefix, trim_suffix, is_empty, Table, lookup, put, ℤ, atoi, if◌then◌else◌,
}

-- strings.SplitN(env, "=", 2): the first part.
unfoldable pub name_of : Text → Text
unfolding cut
name_of env = elim (cut (bytes "=") env) [ none ↦ env | some (name, value) ↦ name ]

unfoldable pub get_env : (Text → Option Text) → Text → Text
unfolding text_eq
get_env lookup_env env =
    if text_eq env (bytes "USER_AGENT")
    then elim (lookup_env (bytes "USER_AGENT")) [
      | none ↦ bytes "IPTV Smarters/1.0.3 (iPad; iOS 16.6.1; Scale/2.00)"
      | some user_agent ↦ user_agent
    ]
    else []

unfoldable pub m3u_indexes_of : List Text → List Text
unfolding name_of strip_prefix
m3u_indexes_of [] = []
m3u_indexes_of (env ∷ environ) =
    let rest = m3u_indexes_of environ in
    elim (strip_prefix (bytes "M3U_URL_") (name_of env)) [ none ↦ rest | some idx ↦ idx ∷ rest ]

-- What the first call has found is kept: `once` is none before it.
unfoldable pub get_m3u_indexes : List Text → Option (List Text) → List Text × Option (List Text)
unfolding m3u_indexes_of
get_m3u_indexes environ none = (m3u_indexes_of environ, some (m3u_indexes_of environ))
get_m3u_indexes environ (some indexes) = (indexes, some indexes)

-- The value of an entry for a filter, if its name is the prefix and an integer. `none` is the panic of an entry
-- without a value.
unfoldable pub filters_of : Text → List Text → Option (List Text)
unfolding cut strip_prefix atoi
filters_of prefix [] = some []
filters_of prefix (env ∷ environ) =
    let rest = filters_of prefix environ in
    elim (strip_prefix prefix (name_of env)) [
      | none ↦ rest
      | some idx ↦ if not (atoi idx).1 then rest else elim (cut (bytes "=") env) [
        | none ↦ none
        | some (name, value) ↦ elim rest [ none ↦ none | some values ↦ some (value ∷ values) ]
      ]
    ]

-- The filters of a name, and the cache.
unfoldable pub get_filters :
    List Text → Text → Table (List Text) → Option (List Text × Table (List Text))
unfolding filters_of lookup put
get_filters environ base filters = elim (lookup base filters) [
  | some cached ↦ some (cached, filters)
  | none ↦ elim (filters_of (base ++ bytes "_") environ) [
    | none ↦ none
    | some values ↦ some (values, put base values filters)
  ]
]

-- The host of a request, and whether it came by TLS.
pub record Origin : Type 0 where
  pub host : Text
  pub tls : Bool

unfoldable pub determine_base_url : Option Text → Option Origin → Text
determine_base_url (some base) r = trim_suffix base (bytes "/")
determine_base_url none none = []
determine_base_url none (some r) = (if r.tls then bytes "https://" else bytes "http://") ++ r.host

-- CustomHttpRequestWithContext: the headers of the request that HTTPClient.Do is given, or none for an error of
-- http.NewRequest.
pub record ClientRequest : Type 0 where
  pub method : Text
  pub url : Text
  pub header : Table (List Text)

unfoldable pub custom_http_request :
    (Text → Option Text) → (Text → Text → Bool) → Option Text → Text → Text → Option ClientRequest
unfolding put get_env
custom_http_request lookup_env accepts correlation_id method url =
    let header = put (bytes "User-Agent") (get_env lookup_env (bytes "USER_AGENT") ∷ []) [] in
    if not (accepts method url)
    then none
    else some (record {
      method = method;
      url = url;
      header = elim correlation_id [
        | none ↦ header
        | some id ↦ put (bytes "X-Correlation-Id") (id ∷ []) header
      ];
    })
