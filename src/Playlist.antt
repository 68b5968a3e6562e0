-- ===== src/Playlist.antt =====
-- handlers/m3u_http.go: who may read the merged playlist. The environment's text and the JSON parser
-- are parameters; the log is left out.
pub mod Access
mod Examples
use streamweaver.Prelude.{
  ℕ, Bool, true, false, ◌&&◌, ◌||◌, not, Option, none, some, List, [], ◌∷◌, Text, bytes, text_eq,
  is_empty, to_lower, Table, lookup, put, ltb, if◌then◌else◌,
}

-- `none` for the zero time, which never expires.
pub record Credential : Type 0 where
  pub username : Text
  pub password : Text
  pub expiration : Option ℕ

unfoldable pub add_all : List Credential → Table Credential → Table Credential
unfolding put to_lower
add_all [] m = m
add_all (c ∷ cs) m = add_all cs (put (to_lower c.username) c m)

-- The credentials of a new handler. A text that does not parse leaves none.
unfoldable pub load_credentials : (Text → Option (List Credential)) → Text → Table Credential
unfolding add_all is_empty to_lower text_eq
load_credentials unmarshal text =
    if is_empty text || text_eq (to_lower text) (bytes "none")
    then []
    else elim (unmarshal text) [ none ↦ [] | some creds ↦ add_all creds [] ]

unfoldable pub is_expired : ℕ → Credential → Bool
is_expired now c = elim c.expiration [ none ↦ false | some at ↦ ltb at now ]

unfoldable pub handle_auth : Table Credential → ℕ → Text → Text → Bool
unfolding is_expired lookup is_empty text_eq to_lower
handle_auth [] now user pass = true
handle_auth (e ∷ es) now user pass =
    if is_empty user || is_empty pass then false else elim (lookup (to_lower user) (e ∷ es)) [
      | none ↦ false
      | some cred ↦ if text_eq pass cred.password then not (is_expired now cred) else false
    ]

-- The answers of ServeHTTP.
pub data Answer : Type 0 where
  forbidden not_found : Answer
  file : Text → Answer

unfoldable pub serve_http : Table Credential → Text → ℕ → Text → Text → Answer
unfolding handle_auth is_empty
serve_http creds processed_path now user pass =
    if handle_auth creds now user pass
    then (if is_empty processed_path then not_found else file processed_path)
    else forbidden
