-- ===== src/Processing.antt =====
-- From the lines of a source to the entries of the playlist: sourceproc/parser.go, the loop over lines and the compilation
-- of sourceproc/processor.go, and the parsers of utils/middlewares.go. Errors of files are left out.
mod Lines
mod Examples
use streamweaver.Prelude.{
  ℕ, Bool, true, false, ◌&&◌, ◌||◌, Option, none, some, List, [], ◌∷◌, ◌++◌, map, Text, bytes,
  text_eq, text_lt, is_empty, has_prefix, has_suffix, cut, to_lower, take, Table, lookup, put,
  SliceSort, ℤ, leb, not, ◌==◌, if◌then◌else◌,
}
use mathlib.Core.List.{reverse}
use streamweaver.StreamInfo.{StreamInfo}
use streamweaver.Disk.{has_slash}
use streamweaver.Sorting.{Json, Shard, flush_shard, read_shard, get_sort_key, add_to_sorter}

abbrev is_space : ℕ → Bool
is_space c = c == 32 || leb 9 c && leb c 13

unfoldable pub trim_left : (ℕ → Bool) → Text → Text
trim_left p [] = []
trim_left p (c ∷ s) = if p c then trim_left p s else c ∷ s

-- strings.Trim and TrimSpace, on the spaces of ASCII.
unfoldable pub trim : (ℕ → Bool) → Text → Text
unfolding trim_left
trim p s = reverse (trim_left p (reverse (trim_left p s)))

unfoldable pub trim_space : Text → Text
unfolding trim
trim_space s = trim is_space s

unfoldable pub general_parser : Text → Text
unfolding trim has_prefix has_suffix
general_parser value =
    if has_prefix value (bytes "\"") && has_suffix value (bytes "\"")
    then trim (λ c. c == b'"') value
    else value

-- strings.Replace of the first occurrence of a text that is not empty.
unfoldable pub without_first : Text → Text → Text
unfolding cut
without_first s old = elim (cut old s) [ none ↦ s | some (before, rest) ↦ before ++ rest ]

-- What is the libraries' and the environment's: the matches of the attribute pattern, each with its key and its
-- value; the filter of characters in titles; the scheme and the host of an address, if it can be parsed; URL-safe
-- base64; url.JoinPath with BASE_URL; base64, and the hash of an address in hexadecimal; a number as %d; and the
-- directory of the streams.
pub record Parts : Type 0 where
  pub find_attributes : Text → List (Text × Text × Text)
  pub substr_filter : Text → Text
  pub scheme_and_host : Text → Option (Text × Text)
  pub url_encode : Text → Text
  pub join_base : Text → Option Text
  pub encode : Text → Text
  pub url_hash : Text → Text
  pub decimal : ℕ → Text
  pub streams_dir : Text

pub record LineDetails : Type 0 where
  pub content : Text
  pub line_num : ℕ

module _ (parts : Parts) where
  unfoldable pub tvg_name_parser : Text → Text
  unfolding general_parser
  tvg_name_parser value = general_parser (parts.substr_filter value)

  -- An address of http or https, with a host.
  unfoldable pub is_web : Text → Bool
  unfolding text_eq is_empty
  is_web value = elim (parts.scheme_and_host value) [
    | none ↦ false
    | some (scheme, host) ↦
        (text_eq scheme (bytes "http") || text_eq scheme (bytes "https")) && not (is_empty host)
  ]

  unfoldable pub tvg_logo_parser : Text → Text
  unfolding general_parser is_web
  tvg_logo_parser value =
      let v = general_parser value in
      if is_web v
      then elim (parts.join_base (bytes "/a/" ++ parts.url_encode v)) [
        | none ↦ v
        | some final ↦ final
      ]
      else v

  unfoldable pub with_attribute : Text → Text → StreamInfo → StreamInfo
  unfolding text_eq to_lower tvg_name_parser tvg_logo_parser general_parser
  with_attribute key value s =
      let k = to_lower key in
      if text_eq k (bytes "tvg-id")
      then record s { tvg_id = general_parser value }
      else if text_eq k (bytes "tvg-chno")
          || text_eq k (bytes "channel-id")
          || text_eq k (bytes "channel-number")
      then record s { tvg_ch_no = general_parser value }
      else if text_eq k (bytes "tvg-name")
      then record s { title = tvg_name_parser value }
      else if text_eq k (bytes "tvg-type")
      then record s { tvg_type = general_parser value }
      else if text_eq k (bytes "tvg-group") || text_eq k (bytes "group-title")
      then record s { group = general_parser value }
      else if text_eq k (bytes "tvg-logo")
      then record s { logo_url = tvg_logo_parser value }
      else s

  -- The stream, and the line without the matches.
  unfoldable pub with_attributes : List (Text × Text × Text) → StreamInfo → Text → StreamInfo × Text
  unfolding with_attribute without_first trim_space
  with_attributes [] s line = (s, line)
  with_attributes ((whole, key, value) ∷ rest) s line =
      with_attributes rest (with_attribute (trim_space key) (trim_space value) s)
        (without_first line whole)

  abbrev pub new_stream : StreamInfo
  new_stream = record {
    title = [];
    tvg_id = [];
    tvg_ch_no = [];
    tvg_type = [];
    logo_url = [];
    group = [];
    urls = some [];
    source_m3u = [];
    source_index = 0;
  }

  unfoldable pub titled : Text → StreamInfo → StreamInfo
  unfolding cut trim_space tvg_name_parser
  titled line s = elim (cut (bytes ",") line) [
    | none ↦ s
    | some (before, rest) ↦ record s { title = tvg_name_parser (trim_space rest) }
  ]

  unfoldable pub file_path : Text → Text → Text → Text
  file_path title m3u_index url =
      let h = parts.url_hash url in
      parts.streams_dir
      ++ bytes "/"
      ++ take 3 h
      ++ bytes "/"
      ++ parts.encode title
      ++ bytes "_"
      ++ m3u_index
      ++ bytes "|"
      ++ h

  -- The stream of a line and its address, and the files by path. A name with a slash would be in a directory that is not there, so
  -- that the file is not written. An address that has its file already is not in the map of
  -- the stream.
  unfoldable pub parse_line :
      Table Text → Text → LineDetails → Text → Option StreamInfo × Table Text
  unfolding with_attributes
  parse_line files line next_line m3u_index =
      let url = trim_space next_line.content in
      let (s, rest) = with_attributes (parts.find_attributes line) new_stream line in
      let s' = titled rest s in
      let path = file_path s'.title m3u_index url in
      let number = parts.decimal next_line.line_num in
      let made : StreamInfo = record s' {
        urls = some ((m3u_index, []) ∷ []);
        source_m3u = m3u_index;
        source_index = next_line.line_num;
      } in
      let indexed : StreamInfo = record made {
        urls = some ((m3u_index, (parts.url_hash url, number ++ bytes ":::" ++ url) ∷ []) ∷ []);
      } in
      if is_empty s'.title then (none, files) else elim (lookup path files) [
        | some content ↦ (some made, files)
        | none ↦ (
          some indexed,
          if has_slash (parts.encode s'.title ++ bytes "_" ++ m3u_index)
              then files
              else put path (number ++ bytes ":::" ++ parts.encode url) files,
        )
      ]

  -- `keeps` is checkFilter. The line that waits for its address is empty if there is none.
  unfoldable pub handle_line :
      (StreamInfo → Bool)
      → Text
      → LineDetails
      → Text
      → Table Text
      → List StreamInfo × Text × Table Text
  unfolding parse_line trim_space has_prefix is_empty
  handle_line keeps m3u_index info current files =
      let line = trim_space info.content in
      let (stream, files') = parse_line files current info m3u_index in
      if has_prefix line (bytes "#EXTINF:")
      then ([], line, files)
      else if not (is_empty current) && not (has_prefix line (bytes "#"))
      then elim stream [
        | none ↦ ([], [], files')
        | some s ↦ (if keeps s then s ∷ [] else [], [], files')
      ]
      else ([], current, files)

  unfoldable pub handle_downloaded :
      (StreamInfo → Bool)
      → Text
      → List LineDetails
      → Text
      → Table Text
      → List StreamInfo × Table Text
  unfolding handle_line
  handle_downloaded keeps m3u_index [] current files = ([], files)
  handle_downloaded keeps m3u_index (info ∷ infos) current files =
      let (streams, current', files') = handle_line keeps m3u_index info current files in
      let (rest, files2) = handle_downloaded keeps m3u_index infos current' files' in
      (streams ++ rest, files2)

abbrev tag : Text → Text → Text
tag name value =
    if is_empty value then [] else bytes " " ++ name ++ bytes "=\"" ++ value ++ bytes "\""

-- `url` is the result of GenerateStreamURL.
unfoldable pub format_stream_entry : Text → StreamInfo → Text
unfolding is_empty
format_stream_entry url s =
    bytes "#EXTINF:-1"
    ++ tag (bytes "tvg-id") s.tvg_id
    ++ tag (bytes "tvg-chno") s.tvg_ch_no
    ++ tag (bytes "tvg-logo") s.logo_url
    ++ tag (bytes "tvg-group") s.group
    ++ tag (bytes "group-title") s.group
    ++ tag (bytes "tvg-type") s.tvg_type
    ++ tag (bytes "tvg-name") s.title
    ++ bytes ","
    ++ s.title
    ++ bytes "\n"
    ++ url
    ++ bytes "\n"

-- A stream without addresses is passed over; `shard` is the shard of its title.
unfoldable pub add_stream : Json → StreamInfo → Shard → Shard
unfolding add_to_sorter
add_stream json s shard = elim s.urls [
  | none ↦ shard
  | some [] ↦ shard
  | some (u ∷ us) ↦ add_to_sorter json s shard
]

-- The file, of the sorted entries.
unfoldable pub entries_text : (StreamInfo → Text) → List StreamInfo → Text
unfolding format_stream_entry
entries_text url_of [] = []
entries_text url_of (s ∷ ss) = format_stream_entry (url_of s) s ++ entries_text url_of ss

unfoldable pub compile_m3u : (StreamInfo → Text) → List StreamInfo → Text
unfolding entries_text
compile_m3u url_of ss = bytes "#EXTM3U\n" ++ entries_text url_of ss
