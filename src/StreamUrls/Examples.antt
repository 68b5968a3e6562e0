-- ===== src/StreamUrls/Examples.antt =====
-- One channel, stored for the sources 1 and 10.
use streamweaver.Prelude.{
  ◌≡◌, ◌≢◌, refl, none, some, [], ◌∷◌, ◌++◌, Text, bytes, is_empty, lookup, put,
}
use streamweaver.Processing.{Parts, LineDetails, parse_line, titled, trim_space, trim_left}
use streamweaver.StreamUrls.{Reader, load_stream_urls}
use streamweaver.StreamUrls.RoundTrip.{parse_line-load, parse_line-other_index}

abbrev parts : Parts
parts = record {
  find_attributes = λ line. [];
  substr_filter = λ t. t;
  scheme_and_host = λ t. none;
  url_encode = λ t. t;
  join_base = λ t. none;
  encode = λ t. t;
  url_hash = λ t. bytes "abc";
  decimal = λ n. b'3' ∷ [];
  streams_dir = bytes "s";
}

abbrev reader : Reader
reader = record { decode = λ t. some t; glob = λ files. files }

abbrev head : Text
head = bytes "#EXTINF:-1,A"

abbrev address : LineDetails
address = record { content = bytes "u"; line_num = 3 }

parse_line-load_example :
    lookup (bytes "abc") (
      load_stream_urls parts reader
        (parse_line parts [] head address (bytes "1")).1
        (bytes "A")
        (bytes "1"))
    ≡ some (trim_space (bytes "3" ++ bytes ":::" ++ bytes "u"))
unfolding parse_line titled is_empty trim_space trim_left lookup put
parse_line-load_example =
    parse_line-load parts reader [] [] [] head address (bytes "1") refl
      (record { no_slash = (refl, tt); no_bar = (refl, tt) })
      (record { no_slash = (refl, tt); no_bar = (refl, tt) })
      (record { no_slash = (refl, (refl, (refl, tt))); no_bar = (refl, (refl, (refl, tt))) })
      (refl, tt) refl tt refl refl

parse_line-other_index_example :
    (bytes "1" ≢ bytes "10")
    × (lookup (bytes "abc") (
          load_stream_urls parts reader
            (parse_line parts [] head address (bytes "10")).1
            (bytes "A")
            (bytes "1"))
        ≡ some (trim_space (bytes "3" ++ bytes ":::" ++ bytes "u")))
unfolding parse_line titled is_empty trim_space trim_left lookup put
parse_line-other_index_example =
    parse_line-other_index parts reader [] [] [] head address (bytes "1") b'0' [] refl
      (record { no_slash = (refl, tt); no_bar = (refl, tt) })
      (record { no_slash = (refl, tt); no_bar = (refl, tt) })
      (record { no_slash = (refl, tt); no_bar = (refl, tt) })
      (record { no_slash = (refl, (refl, (refl, tt))); no_bar = (refl, (refl, (refl, tt))) })
      (refl, tt) refl tt refl refl
