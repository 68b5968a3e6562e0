-- ===== src/Slug/Examples.antt =====
-- An address of a channel, with a codec that keeps the title only.
use streamweaver.Prelude.{
  ◌≡◌, refl, none, some, [], ◌∷◌, Text, bytes, is_empty, strip_prefix, has_prefix, contains,
  text_eq, cut,
}
use streamweaver.LoadBalancer.Names.{get_stream_id}
use streamweaver.Request.{extract_stream_url}
use streamweaver.StreamInfo.{StreamInfo}
use streamweaver.Slug.{
  Codec, decode_stream_slug, generate_stream_url, extension_of, get_sub_path_from_url, encode_slug,
}
use streamweaver.Slug.RoundTrip.{all_path_chars, Keeps, ReadsPath, generate_stream_url-decode}

abbrev titled : Text → StreamInfo
titled t = record {
  title = t;
  tvg_id = [];
  tvg_ch_no = [];
  tvg_type = [];
  logo_url = [];
  group = [];
  urls = none;
  source_m3u = [];
  source_index = 0;
}

abbrev plain : Codec StreamInfo
plain = record {
  marshal = λ s. some s.title;
  unmarshal = λ t. some (titled t);
  compress = λ t. some t;
  decompress = λ t. some t;
  encode_to_string = λ t. t;
  decode_string = λ t. some t;
}

abbrev channel : StreamInfo
channel = record (titled (bytes "abc")) { group = bytes "news"; urls = some [] }

plain-Keeps : Keeps plain channel (titled (bytes "abc"))
unfolding is_empty
plain-Keeps = record {
  json = bytes "abc";
  packed = bytes "abc";
  marshal_eq = refl;
  compress_eq = refl;
  decode_eq = refl;
  decompress_eq = refl;
  unmarshal_eq = refl;
  some_text = refl;
  no_slash = (refl, (refl, (refl, tt)));
  no_dot = (refl, (refl, (refl, tt)));
}

abbrev stream_url : Text
stream_url =
    generate_stream_url plain (λ url. some url) (bytes "http://h") (bytes "/live/1/x.mp4" ∷ [])
      (some (bytes "/live/1/x.mp4")) channel

-- The path of a request at the host.
abbrev at_host : Text → Text
at_host url = elim (strip_prefix (bytes "http://h") url) [ none ↦ url | some path ↦ path ]

at_host-ReadsPath : ReadsPath at_host (bytes "http://h")
unfolding strip_prefix
at_host-ReadsPath = record { prefix = []; path_eq = λ p h. refl }

generate_stream_url-decode_example :
    (decode_stream_slug plain (extract_stream_url (at_host stream_url))
      ≡ some (record (titled (bytes "abc")) { urls = some [] }))
    × (decode_stream_slug plain (get_stream_id (at_host stream_url))
        ≡ some (record (titled (bytes "abc")) { urls = some [] }))
unfolding all_path_chars has_prefix strip_prefix contains text_eq generate_stream_url extension_of
    get_sub_path_from_url encode_slug cut
generate_stream_url-decode_example =
    generate_stream_url-decode plain (λ url. some url) at_host (bytes "http://h")
      (bytes "/live/1/x.mp4" ∷ []) (some (bytes "/live/1/x.mp4")) channel (titled (bytes "abc"))
      plain-Keeps at_host-ReadsPath (refl, refl)
