-- ===== src/Passthrough.antt =====
-- handlers/passthrough_http.go: an address in the path is fetched and its response passed on. The log is
-- left out.
pub mod Logos
mod Examples
use streamweaver.Prelude.{
  ℕ, Bool, Option, none, some, List, [], ◌∷◌, ◌++◌, Text, bytes, is_empty, strip_prefix, Table, put,
  if◌then◌else◌,
}
use streamweaver.Client.{ResponseWriter, Taken, taken_of, is_whole, add_headers}

-- An http.Request, of the client or to the source. `correlation_id` is what the context has under the key of
-- utils/correlation.go.
pub record Request : Type 0 where
  pub method : Text
  pub path : Text
  pub header : Table (List Text)
  pub body : Text
  pub correlation_id : Option Text

pub record ProxyRequest : Type 0 where
  pub method : Text
  pub url : Text
  pub header : Table (List Text)
  pub body : Text

-- The reads of the body, each with what the client takes of it.
pub record Response : Type 0 where
  pub status_code : ℕ
  pub header : Table (List Text)
  pub body : List (Text × Taken)

-- base64.URLEncoding, whether http.NewRequest takes the method and the address, and HTTPClient.Do; `none` is
-- an error.
pub record Net : Type 0 where
  pub decode_string : Text → Option Text
  pub is_accepted : Text → Text → Bool
  pub send : ProxyRequest → Option Response

-- http.Error with a status and a message, or what the client has got.
pub data Answer : Type 0 where
  refused : ℕ → Text → Answer
  forwarded : ResponseWriter → Answer

-- io.Copy, which ends at the first write that fails.
unfoldable pub copy_body : List (Text × Taken) → ResponseWriter → ResponseWriter
copy_body [] w = w
copy_body ((chunk, taken) ∷ rest) w =
    let w' = record w { body = w.body ++ taken_of taken chunk } in
    if is_whole taken then copy_body rest w' else w'

unfoldable pub respond : Response → ResponseWriter → ResponseWriter
unfolding add_headers copy_body
respond resp w =
    copy_body resp.body
      (record w { header = add_headers resp.header w.header; status = some resp.status_code })

unfoldable pub proxy_request : Request → Text → ProxyRequest
unfolding put
proxy_request r url = record {
  method = r.method;
  url = url;
  header = elim r.correlation_id [
    | none ↦ r.header
    | some id ↦ put (bytes "X-Correlation-Id") (id ∷ []) r.header
  ];
  body = r.body;
}

module _ (net : Net) where
  unfoldable pub forward : Request → Text → ResponseWriter → Answer
  unfolding proxy_request respond
  forward r url w =
      if net.is_accepted r.method url
      then elim (net.send (proxy_request r url)) [
        | none ↦ refused 502 (bytes "Error fetching the requested resource")
        | some resp ↦ forwarded (respond resp w)
      ]
      else refused 500 (bytes "Error creating request")

  unfoldable pub serve_http : Request → ResponseWriter → Answer
  unfolding strip_prefix is_empty forward
  serve_http r w = elim (strip_prefix (bytes "/a/") r.path) [
    | none ↦ refused 400 (bytes "Invalid URL provided")
    | some encoded ↦
        if is_empty encoded
        then refused 400 (bytes "No URL provided")
        else elim (net.decode_string encoded) [
          | none ↦ refused 400 (bytes "Failed to decode original URL")
          | some url ↦ forward r url w
        ]
  ]
