-- ===== src/Segment/Examples.antt =====
-- A playlist of three lines, passed through.
use streamweaver.Prelude.{false, none, some, List, [], ◌∷◌, Text, bytes}
use streamweaver.LoadBalancer.{LoadBalancerResult}
use streamweaver.Client.{StreamClient, Taken, whole}
use streamweaver.Slug.{Codec}
use streamweaver.Segment.{M3U8Segment}

abbrev playlist : LoadBalancerResult
playlist = record {
  response = record { status_code = 200; header = []; request_path = some (bytes "/a.m3u8") };
  url = bytes "http://s/a.m3u8";
  index = bytes "1";
  sub_index = bytes "x";
}

-- The address only, of a segment of this playlist.
abbrev plain : Codec M3U8Segment
plain = record {
  marshal = λ s. some s.url;
  unmarshal = λ t. some (record { url = t; source_m3u = bytes "1|x" });
  compress = λ t. some t;
  decompress = λ t. some t;
  encode_to_string = λ t. t;
  decode_string = λ t. some t;
}

abbrev viewer : StreamClient
viewer = record {
  response_headers = [];
  headers_sent = false;
  writer = some (record { status = none; header = []; body = [] });
}

abbrev head_lines : List (Text × Taken)
head_lines = (bytes "#EXTM3U", whole) ∷ []

abbrev tail_lines : List (Text × Taken)
tail_lines = (bytes "#EXT-X-ENDLIST", whole) ∷ []
