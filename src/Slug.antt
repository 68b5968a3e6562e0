-- ===== src/Slug.antt =====
-- A value in an address: sourceproc/slug.go, with GenerateStreamURL of sourceproc/helpers.go and
-- utils/stream_url.go. JSON, zstd, base64 and url.Parse are the libraries'.
pub mod Names
pub mod RoundTrip
mod Examples
use streamweaver.Prelude.{
  Bool, Option, none, some, List, [], ◌∷◌, ◌++◌, Text, bytes, cut, is_empty, ◌==◌, if◌then◌else◌,
}
use mathlib.Core.List.{reverse}
use streamweaver.StreamInfo.{StreamInfo}
use streamweaver.Request.Url.{ext}

-- json.Marshal and Unmarshal, a zstd Encoder and Decoder, and base64.RawURLEncoding; `none` is an error.
pub record Codec {ℓ} (A : Type ℓ) : Type ℓ where
  pub marshal : A → Option Text
  pub unmarshal : Text → Option A
  pub compress : Text → Option Text
  pub decompress : Text → Option Text
  pub encode_to_string : Text → Text
  pub decode_string : Text → Option Text

module _ {ℓ} {A : Type ℓ} (codec : Codec A) where
  unfoldable pub encode_slug : A → Text
  encode_slug stream = elim (codec.marshal stream) [
    | none ↦ []
    | some json ↦ elim (codec.compress json) [ none ↦ [] | some b ↦ codec.encode_to_string b ]
  ]

  unfoldable pub decode_slug : Text → Option A
  decode_slug slug = elim (codec.decode_string slug) [
    | none ↦ none
    | some b ↦ elim (codec.decompress b) [ none ↦ none | some json ↦ codec.unmarshal json ]
  ]

-- DecodeSlug, whose result has an empty map of addresses.
unfoldable pub decode_stream_slug : Codec StreamInfo → Text → Option StreamInfo
unfolding decode_slug
decode_stream_slug codec slug = elim (decode_slug codec slug) [
  | none ↦ none
  | some stream ↦ some (record stream { urls = some [] })
]

-- The path of url.Parse, or none for an error.
abbrev pub ParsePath : Type 0
ParsePath = Text → Option Text

-- path.Ext is filepath.Ext here.
unfoldable pub get_file_extension_from_url : ParsePath → Text → Option Text
unfolding ext
get_file_extension_from_url parse url = elim (parse url) [
  | none ↦ none
  | some path ↦ some (ext path [])
]

-- strings.Split by "/".
unfoldable pub split_path : Text → List Text
split_path [] = [] ∷ []
split_path (c ∷ s) =
    let rest = split_path s in
    if c == b'/'
    then [] ∷ rest
    else elim rest [ [] ↦ (c ∷ []) ∷ [] | part ∷ parts ↦ (c ∷ part) ∷ parts ]

unfoldable pub join_path : List Text → Text
join_path [] = []
join_path (part ∷ []) = part
join_path (part ∷ next ∷ parts) = part ++ b'/' ∷ join_path (next ∷ parts)

abbrev pub inner {ℓ} : {A : Type ℓ} → List A → List A
inner [] = []
inner (x ∷ xs) = elim (reverse xs) [ [] ↦ [] | y ∷ ys ↦ reverse ys ]

unfoldable pub get_sub_path_from_url : ParsePath → Text → Option Text
unfolding split_path join_path
get_sub_path_from_url parse url = elim (parse url) [
  | none ↦ none
  | some path ↦ elim (split_path path) [
    | [] ↦ some (bytes "stream")
    | part ∷ [] ↦ some (bytes "stream")
    | part ∷ next ∷ parts ↦ some (join_path (inner (part ∷ next ∷ parts)))
  ]
]

-- The first extension that is not empty, in the order of the map.
unfoldable pub extension_of : ParsePath → List Text → Text
unfolding get_file_extension_from_url is_empty
extension_of parse [] = []
extension_of parse (url ∷ urls) =
    let later = extension_of parse urls in
    elim (get_file_extension_from_url parse url) [
      | none ↦ later
      | some e ↦ if is_empty e then later else e
    ]

-- `first` is the address whose path comes first through the channel, or none if no address has one; `urls`
-- are the addresses in the order of the map.
unfoldable pub generate_stream_url {ℓ} :
    {A : Type ℓ} → Codec A → ParsePath → Text → List Text → Option Text → A → Text
unfolding extension_of get_sub_path_from_url encode_slug cut
generate_stream_url codec parse base_url urls first stream =
    let e = extension_of parse urls in
    let sub_path : Option Text = elim first [
      | none ↦ none
      | some url ↦ get_sub_path_from_url parse url
    ] in
    let final_url : Text = elim sub_path [
      | none ↦ (base_url ++ bytes "/p/stream/") ++ encode_slug codec stream
      | some p ↦ base_url ++ bytes "/p/" ++ p ++ bytes "/" ++ encode_slug codec stream
    ] in
    elim (cut (bytes ".m3u") e) [ none ↦ final_url ++ e | some parts ↦ final_url ]
