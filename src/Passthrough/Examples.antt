-- ===== src/Passthrough/Examples.antt =====
-- A logo of a source, and what the client gets for it.
use streamweaver.Prelude.{
  ◌≡◌, refl, true, none, some, [], ◌∷◌, ◌++◌, Text, bytes, text_eq, is_empty,
}
use streamweaver.Client.{ResponseWriter, whole, part, add_headers}
use streamweaver.Processing.{Parts, general_parser, is_web, tvg_logo_parser}
use streamweaver.Passthrough.{Request, Response, Net, forwarded, refused, copy_body, serve_http}
use streamweaver.Passthrough.Logos.{serve_http-logo}

abbrev logo : Text
logo = bytes "http://a/l.png"

abbrev parts : Parts
parts = record {
  find_attributes = λ line. [];
  substr_filter = λ t. t;
  scheme_and_host = λ t. some (bytes "http", bytes "a");
  url_encode = λ t. t;
  join_base = λ p. some p;
  encode = λ t. t;
  url_hash = λ t. t;
  decimal = λ n. [];
  streams_dir = [];
}

abbrev answer : Response
answer = record {
  status_code = 200;
  header = (bytes "Content-Type", bytes "image/png" ∷ []) ∷ [];
  body = (bytes "ab", whole) ∷ (bytes "c", whole) ∷ [];
}

abbrev net : Net
net = record { decode_string = λ t. some t; is_accepted = λ m u. true; send = λ q. some answer }

abbrev asked : Request
asked = record {
  method = bytes "GET";
  path = bytes "/a/" ++ logo;
  header = [];
  body = [];
  correlation_id = none;
}

abbrev fresh : ResponseWriter
fresh = record { status = none; header = []; body = [] }

serve_http-logo_example :
    serve_http net asked fresh
    ≡ forwarded
        (record { status = some 200; header = add_headers answer.header []; body = bytes "abc" })
unfolding general_parser is_web tvg_logo_parser text_eq is_empty
serve_http-logo_example =
    serve_http-logo parts net (λ p. p) logo (bytes "/a/" ++ logo) asked answer fresh refl refl refl
      refl refl refl refl refl (refl, (refl, tt))

no_address :
    serve_http net (record asked { path = bytes "/a/" }) fresh
    ≡ refused 400 (bytes "No URL provided")
unfolding serve_http
no_address = refl

-- The copy ends at the first write that fails.
broken : (copy_body ((bytes "ab", part 1) ∷ (bytes "c", whole) ∷ []) fresh).body ≡ bytes "a"
unfolding copy_body
broken = refl
