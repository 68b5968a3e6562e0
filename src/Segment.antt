-- ===== src/Segment.antt =====
-- proxy/stream/failovers: a playlist that is passed through to one client, each address in it replaced by one
-- of this server's; and handleSegmentStream of handlers/stream_http.go, which answers for such an address.
pub mod Rewriting
mod Examples
use streamweaver.Prelude.{
  ℕ, Bool, true, false, ◌⊎◌, inl, inr, Option, none, some, List, [], ◌∷◌, ◌++◌, Text, bytes, Table,
  is_empty, ◌==◌, if◌then◌else◌,
}
use streamweaver.LoadBalancer.{LoadBalancerResult}
use streamweaver.Client.{StreamClient, Taken, set_header, write, write_header, add_headers}
use streamweaver.Viewer.{first_value}
use streamweaver.Request.{extract_stream_url}
use streamweaver.Slug.{Codec, encode_slug, decode_slug, ParsePath, get_file_extension_from_url}

pub record M3U8Segment : Type 0 where
  pub url : Text
  pub source_m3u : Text

unfoldable pub generate_segment_url : Codec M3U8Segment → ParsePath → Text → M3U8Segment → Text
unfolding encode_slug get_file_extension_from_url
generate_segment_url codec parse base_url segment =
    let extension : Text = elim (get_file_extension_from_url parse segment.url) [
      | none ↦ []
      | some e ↦ e
    ] in
    base_url ++ bytes "/segment/" ++ encode_slug codec segment ++ extension

unfoldable pub parse_segment_id : Codec M3U8Segment → Text → Option M3U8Segment
unfolding decode_slug
parse_segment_id codec id = decode_slug codec id

-- After the lines, or an error of a write, or a panic of one.
pub data Passed : Type 0 where
  passed refused : StreamClient → Passed
  panicked : Passed

abbrev pub after_line : Option (StreamClient × ℕ × Bool) → (StreamClient → Passed) → Passed
after_line none next = panicked
after_line (some (sc, n, true)) next = next sc
after_line (some (sc, n, false)) next = refused sc

-- `resolve` is url.Parse of a line, made absolute by the base, and String; none is an error of url.Parse.
module _ (codec : Codec M3U8Segment) (parse : ParsePath) (base_url : Text)
    (resolve : Text → Option Text) (lb : LoadBalancerResult) where
  unfoldable pub segment_of : Text → M3U8Segment
  segment_of url = record { url = url; source_m3u = lb.index ++ bytes "|" ++ lb.sub_index }

  unfoldable pub process_url : Text → Text
  unfolding generate_segment_url segment_of
  process_url line = elim (resolve line) [
    | none ↦ line
    | some url ↦ generate_segment_url codec parse base_url (segment_of url)
  ]

  -- The text that a line is replaced by, if any.
  unfoldable pub line_text : Text → Option Text
  unfolding process_url
  line_text [] = none
  line_text (c ∷ line) = some (if c == b'#' then c ∷ line else process_url (c ∷ line))

  -- Each line, with what becomes of its write.
  unfoldable pub process_lines : List (Text × Taken) → StreamClient → Passed
  unfolding line_text write
  process_lines [] sc = passed sc
  process_lines ((line, taken) ∷ rest) sc = elim (line_text line) [
    | none ↦ process_lines rest sc
    | some text ↦
        after_line (write taken (text ++ bytes "\n") sc)
          (λ (sc' : StreamClient). process_lines rest sc')
  ]

  -- The address of the response is one that url.Parse reads.
  unfoldable pub process_m3u8_stream : List (Text × Taken) → StreamClient → Passed
  unfolding process_lines set_header first_value
  process_m3u8_stream lines sc =
      let content_type = bytes "Content-Type" in
      process_lines lines (set_header content_type (first_value content_type lb.response.header) sc)

-- What the server of a segment answers: its status, its header, and the bytes of each read of its body.
pub record Segment : Type 0 where
  pub status_code : ℕ
  pub header : Table (List Text)
  pub body : List (Text × Taken)

-- io.Copy, which ends with a write that is not whole.
unfoldable pub copy : List (Text × Taken) → StreamClient → Passed
unfolding write
copy [] sc = passed sc
copy ((b, taken) ∷ rest) sc = after_line (write taken b sc) (λ (sc' : StreamClient). copy rest sc')

abbrev fail : Text → Taken → StreamClient → Passed
fail message taken sc = elim (write_header 500 sc) [
  | none ↦ panicked
  | some sc' ↦ after_line (write taken message sc') (λ (sc'' : StreamClient). passed sc'')
]

-- `get` is the HTTP client's Get, whose error is a text; `parse_error` is the text of the error of
-- ParseSegmentId, and `taken` what becomes of the write of a message.
unfoldable pub handle_segment_stream :
    Codec M3U8Segment → (Text → Text ⊎ Segment) → Text → Taken → Text → StreamClient → Passed
unfolding parse_segment_id extract_stream_url copy add_headers is_empty
handle_segment_stream codec get parse_error taken path sc =
    let id = extract_stream_url path in
    if is_empty id then passed sc else elim (parse_segment_id codec id) [
      | none ↦ fail (bytes "Segment parsing error: " ++ parse_error) taken sc
      | some segment ↦ elim (get segment.url) [
        | inl message ↦ fail (bytes "Failed to fetch URL: " ++ message) taken sc
        | inr resp ↦
            let ready : StreamClient = record sc {
              response_headers = add_headers resp.header sc.response_headers;
            } in
            elim (write_header resp.status_code ready) [
              | none ↦ panicked
              | some sc' ↦ copy resp.body sc'
            ]
      ]
    ]
