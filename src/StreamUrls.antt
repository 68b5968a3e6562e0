-- ===== src/StreamUrls.antt =====
-- sourceproc/filter.go and sourceproc/helpers.go: the addresses of a channel, from the files that Processing has stored,
-- when its slug is asked for.
pub mod Stored
pub mod RoundTrip
mod Examples
use streamweaver.Prelude.{
  Bool, true, false, not, Option, none, some, List, [], ◌∷◌, ◌++◌, Text, bytes, cut, strip_prefix,
  Table, put, if◌then◌else◌,
}
use streamweaver.StreamInfo.{StreamInfo}
use streamweaver.Slug.{Codec, decode_stream_slug}
use streamweaver.LoadBalancer.Names.{base_name}
use streamweaver.Disk.{has_slash}
use streamweaver.Processing.{Parts, trim_space}

-- base64.StdEncoding, and `glob`, which gives the files in the order of filepath.Glob.
pub record Reader : Type 0 where
  pub decode : Text → Option Text
  pub glob : Table Text → Table Text

module _ (parts : Parts) (reader : Reader) where
  unfoldable pub file_prefix : Text → Text → Text
  file_prefix title m3u_index = parts.encode title ++ bytes "_" ++ m3u_index

  -- Whether a path fits the pattern: the directory, one more, and a name that starts with the prefix. An index has no
  -- character that is special in a pattern.
  unfoldable pub is_match : Text → Text → Bool
  unfolding strip_prefix cut has_slash
  is_match prefix path = elim (strip_prefix (parts.streams_dir ++ bytes "/") path) [
    | none ↦ false
    | some rest ↦ elim (cut (bytes "/") rest) [
      | none ↦ false
      | some (shard, name) ↦ elim (strip_prefix prefix name) [
        | none ↦ false
        | some tail ↦ not (has_slash tail)
      ]
    ]
  ]

  -- The part of a name after the bar, if there is one bar.
  unfoldable pub hash_of : Text → Option Text
  unfolding cut base_name
  hash_of path = elim (cut (bytes "|") (base_name path)) [
    | none ↦ none
    | some (before, hash) ↦ elim (cut (bytes "|") hash) [ none ↦ some hash | some more ↦ none ]
  ]

  -- The number and the address of a file, which has number 0 if it has none.
  unfoldable pub split_content : Text → Text × Text
  unfolding cut
  split_content content = elim (cut (bytes ":::") content) [
    | none ↦ (bytes "0", content)
    | some split ↦ split
  ]

  unfoldable pub address_at : Text × Text → Option Text
  address_at (number, encoded) = elim (reader.decode encoded) [
    | none ↦ none
    | some url ↦ some (trim_space (number ++ bytes ":::" ++ url))
  ]

  unfoldable pub address_of : Text → Option Text
  unfolding split_content address_at trim_space
  address_of content = address_at (split_content content)

  unfoldable pub add_address : Option Text → Option Text → Table Text → Table Text
  unfolding put
  add_address none address urls = urls
  add_address (some hash) none urls = urls
  add_address (some hash) (some address) urls = put hash address urls

  -- One file: its address by its hash.
  unfoldable pub load_file : Text → Text → Text → Table Text → Table Text
  unfolding add_address
  load_file prefix path content urls =
      if is_match prefix path then add_address (hash_of path) (address_of content) urls else urls

  unfoldable pub load_files : Text → Table Text → Table Text → Table Text
  unfolding load_file
  load_files prefix [] urls = urls
  load_files prefix ((path, content) ∷ files) urls =
      load_files prefix files (load_file prefix path content urls)

  unfoldable pub load_stream_urls : Table Text → Text → Text → Table Text
  unfolding load_files file_prefix
  load_stream_urls files title m3u_index =
      load_files (file_prefix title m3u_index) (reader.glob files) []

  unfoldable pub load_all : Table Text → Text → List Text → Table (Table Text) → Table (Table Text)
  unfolding load_stream_urls put
  load_all files title [] urls = urls
  load_all files title (idx ∷ indexes) urls =
      load_all files title indexes (put idx (load_stream_urls files title idx) urls)

  unfoldable pub parse_stream_info_by_slug :
      Codec StreamInfo → List Text → Table Text → Text → Option StreamInfo
  unfolding decode_stream_slug load_all
  parse_stream_info_by_slug codec indexes files slug = elim (decode_stream_slug codec slug) [
    | none ↦ none
    | some s ↦ some (record s { urls = some (load_all files s.title indexes []) })
  ]
