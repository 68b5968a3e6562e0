-- ===== src/Client.antt =====
-- proxy/client/client.go: the response to a client. The http.ResponseWriter is what it has got: the
-- status, the headers and the bytes. Flush changes nothing here.

use streamweaver.Prelude.{
  ℕ, Bool, true, false, Option, none, some, List, [], ◌∷◌, ◌++◌, Text, Table, lookup, put, take,
  length, if◌then◌else◌,
}

pub record ResponseWriter : Type 0 where
  pub status : Option ℕ
  pub header : Table (List Text)
  pub body : Text

-- `writer` is none for a nil ResponseWriter, through which a call panics.
pub record StreamClient : Type 0 where
  pub response_headers : Table (List Text)
  pub headers_sent : Bool
  pub writer : Option ResponseWriter

pub new_stream_client : Option ResponseWriter → StreamClient
new_stream_client w = record { response_headers = []; headers_sent = false; writer = w }

-- http.Header.Set and Add, on canonical keys.
unfoldable pub set_header : Text → Text → StreamClient → StreamClient
unfolding put
set_header key value sc =
    if sc.headers_sent
    then sc
    else record sc { response_headers = put key (value ∷ []) sc.response_headers }

unfoldable pub values_of : Text → Table (List Text) → List Text
unfolding lookup
values_of key h = elim (lookup key h) [ none ↦ [] | some vs ↦ vs ]

unfoldable pub add_headers : Table (List Text) → Table (List Text) → Table (List Text)
unfolding put values_of
add_headers [] h = h
add_headers ((key, values) ∷ rest) h = add_headers rest (put key (values_of key h ++ values) h)

-- `none` for a panic.
unfoldable pub write_header : ℕ → StreamClient → Option StreamClient
unfolding add_headers
write_header status sc = if sc.headers_sent then some sc else elim sc.writer [
  | none ↦ none
  | some w ↦ some (record sc {
    headers_sent = true;
    writer =
        some (record w { status = some status; header = add_headers sc.response_headers w.header });
  })
]

unfoldable pub is_writable : StreamClient → Bool
is_writable sc = elim sc.writer [ none ↦ false | some w ↦ true ]

-- What the ResponseWriter does with a Write: takes it whole, or some bytes of it with an error.
pub data Taken : Type 0 where
  whole : Taken
  part : ℕ → Taken

abbrev pub taken_of : Taken → Text → Text
taken_of whole b = b
taken_of (part n) b = take n b

abbrev pub is_whole : Taken → Bool
is_whole whole = true
is_whole (part n) = false

-- The client, the number of bytes taken, and whether there was no error; `none` for a panic.
unfoldable pub write : Taken → Text → StreamClient → Option (StreamClient × ℕ × Bool)
unfolding write_header
write t b sc = elim (write_header 200 sc) [
  | none ↦ none
  | some sc' ↦ elim sc'.writer [
    | none ↦ none
    | some w ↦ some (
      record sc' { writer = some (record w { body = w.body ++ taken_of t b }) },
      length (taken_of t b),
      is_whole t,
    )
  ]
]

-- The bytes that the client has got.
unfoldable pub body_of : StreamClient → Text
body_of sc = elim sc.writer [ none ↦ [] | some w ↦ w.body ]
