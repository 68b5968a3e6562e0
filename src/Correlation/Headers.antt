-- ===== src/Correlation/Headers.antt =====
-- What the passthrough handler tells a source of a request's id.
use streamweaver.Prelude.{
  ◌≡◌, refl, ◌∙◌, none, some, List, [], ◌∷◌, Text, text_eq_refl, Table, lookup, lookup-put,
}
use streamweaver.Client.{ResponseWriter}
use streamweaver.Viewer.{first_value}
use streamweaver.Passthrough.{Request, proxy_request}
use streamweaver.Correlation.{
  Context, correlation, utils, header_name, correlation_id_from_context, middleware,
}

-- A request without an id comes through the middleware of main.go to the passthrough handler, which reads the key of
-- `utils`, under which its context has nothing. The client is told the id that was made for it, but the headers of
-- the request to the source are those of the client, without the id.
pub middleware-unset :
    (generated method path url body : Text) (header : Table (List Text)) (ctx : Context)
    (w : ResponseWriter)
    → first_value header_name header ≡ []
    → correlation_id_from_context utils ctx ≡ none
    → let (ctx', w') = middleware correlation generated header ctx w in
      let r : Request = record {
        method = method;
        path = path;
        header = header;
        body = body;
        correlation_id = correlation_id_from_context utils ctx';
      } in
      (lookup header_name w'.header ≡ some (generated ∷ []))
      × ((proxy_request r url).header ≡ header)
unfolding middleware correlation_id_from_context proxy_request
middleware-unset generated method path url body header ctx w e n = (
  rw e (
      lookup-put header_name header_name (generated ∷ []) w.header
      ∙ rw (text_eq_refl header_name) refl),
  rw (n, proxy_request) refl,
)
