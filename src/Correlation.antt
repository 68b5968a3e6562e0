-- ===== src/Correlation.antt =====
-- correlation/context.go and correlation/middleware.go, with utils/correlation.go, which has the same functions over a key
-- of a type of its own.
pub mod Headers
use streamweaver.Prelude.{
  Bool, true, false, ◌&&◌, Option, none, some, List, [], ◌∷◌, Text, bytes, is_empty, Table, put,
  if◌then◌else◌,
}
use streamweaver.Client.{ResponseWriter}
use streamweaver.Viewer.{first_value}

-- The package whose contextKey a value is stored under.
pub data Package : Type 0 where
  correlation utils : Package

unfoldable pub same : Package → Package → Bool
same correlation correlation = true
same utils utils = true
same correlation utils = false
same utils correlation = false

-- The values of a context.Context, the latest first.
abbrev pub Context : Type 0
Context = List (Package × Text)

unfoldable pub with_correlation_id : Package → Context → Text → Context
with_correlation_id p ctx id = (p, id) ∷ ctx

unfoldable pub correlation_id_from_context : Package → Context → Option Text
unfolding same
correlation_id_from_context p [] = none
correlation_id_from_context p ((q, id) ∷ ctx) =
    let rest = correlation_id_from_context p ctx in if same p q then some id else rest

abbrev pub header_name : Text
header_name = bytes "X-Correlation-Id"

-- `generated` is a new id. The context of the request, and the response, whose headers have the id.
unfoldable pub middleware :
    Package → Text → Table (List Text) → Context → ResponseWriter → Context × ResponseWriter
unfolding with_correlation_id is_empty
middleware p generated header ctx w =
    let given = first_value header_name header in
    let id = if is_empty given then generated else given in
    (with_correlation_id p ctx id, record w { header = put header_name (id ∷ []) w.header })
