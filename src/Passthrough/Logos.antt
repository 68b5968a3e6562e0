-- ===== src/Passthrough/Logos.antt =====
-- The logo that a playlist names, asked of this server.
use streamweaver.Prelude.{
  ◌≡◌, ap, ◌∙◌, sym, true, false, some, List, [], ◌∷◌, ◌++◌, Text, bytes, is_empty, strip_prefix,
  if◌then◌else◌,
}
use mathlib.Core.List.{append_assoc, append-nil}
use streamweaver.Client.{ResponseWriter, Taken, is_whole, taken_of, add_headers}
use streamweaver.Segment.Rewriting.{AreWhole}
use streamweaver.Processing.{Parts, general_parser, is_web, tvg_logo_parser}
use streamweaver.Passthrough.{
  Request, Response, Net, forwarded, copy_body, respond, proxy_request, forward, serve_http,
}

-- The bytes of a response.
abbrev pub text_of : List (Text × Taken) → Text
text_of [] = []
text_of ((chunk, taken) ∷ rest) = chunk ++ text_of rest

copy_body-whole :
    (chunks : List (Text × Taken)) (w : ResponseWriter)
    → AreWhole chunks
    → copy_body chunks w ≡ record w { body = w.body ++ text_of chunks }
unfolding copy_body
copy_body-whole [] w a = ap (λ b. record w { body = b }) (sym (append-nil w.body))
copy_body-whole ((chunk, taken) ∷ rest) w a =
    ap
      (λ (t : Taken).
        let w' = record w { body = w.body ++ taken_of t chunk } in
        if is_whole t then copy_body rest w' else w')
      a.0
    ∙ copy_body-whole rest (record w { body = w.body ++ chunk }) a.1
    ∙ ap (λ b. record w { body = b }) (append_assoc w.body chunk (text_of rest))

tvg_logo_parser-web :
    (parts : Parts) (value final : Text)
    → is_web parts (general_parser value) ≡ true
    → parts.join_base (bytes "/a/" ++ parts.url_encode (general_parser value)) ≡ some final
    → tvg_logo_parser parts value ≡ final
unfolding tvg_logo_parser
tvg_logo_parser-web parts value final e j = rw (e, j)

serve_http-encoded :
    (net : Net) (r : Request) (encoded url : Text) (w : ResponseWriter)
    → r.path ≡ bytes "/a/" ++ encoded
    → is_empty encoded ≡ false
    → net.decode_string encoded ≡ some url
    → serve_http net r w ≡ forward net r url w
unfolding serve_http strip_prefix
serve_http-encoded net r encoded url w p n d = rw (p, n, d)

forward-ok :
    (net : Net) (r : Request) (url : Text) (resp : Response) (w : ResponseWriter)
    → net.is_accepted r.method url ≡ true
    → net.send (proxy_request r url) ≡ some resp
    → forward net r url w ≡ forwarded (respond resp w)
unfolding forward
forward-ok net r url resp w a s = rw (a, s)

-- An address of http or https with a host is the logo in a source, `join_base` makes an address of its encoding, and
-- the client asks this server for what the playlist has in place of the logo, where a path is
-- what it was joined as. The decoder gives back what was encoded, which is not empty. The request is accepted,
-- and the source answers it. Then the client, which takes all of it, gets the status, the headers and
-- the bytes that the source answers for the address of the logo, after what it had.
pub serve_http-logo :
    (parts : Parts) (net : Net) (path_of : Text → Text) (value final : Text) (r : Request)
    (resp : Response) (w : ResponseWriter)
    → let logo = general_parser value in
      let encoded = parts.url_encode logo in
      is_web parts logo ≡ true
      → parts.join_base (bytes "/a/" ++ encoded) ≡ some final
      → path_of final ≡ bytes "/a/" ++ encoded
      → r.path ≡ path_of (tvg_logo_parser parts value)
      → is_empty encoded ≡ false
      → net.decode_string encoded ≡ some logo
      → net.is_accepted r.method logo ≡ true
      → net.send (proxy_request r logo) ≡ some resp
      → AreWhole resp.body
      → serve_http net r w
        ≡ forwarded (record w {
          status = some resp.status_code;
          header = add_headers resp.header w.header;
          body = w.body ++ text_of resp.body;
        })
unfolding respond
serve_http-logo parts net path_of value final r resp w e j q p n d a s h =
    let logo = general_parser value in
    let path = p ∙ ap path_of (tvg_logo_parser-web parts value final e j) ∙ q in
    let w' = record w {
      header = add_headers resp.header w.header;
      status = some resp.status_code;
    } in
    serve_http-encoded net r (parts.url_encode logo) logo w path n d
    ∙ forward-ok net r logo resp w a s
    ∙ ap forwarded (copy_body-whole resp.body w' h)
