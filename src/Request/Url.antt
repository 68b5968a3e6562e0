-- ===== src/Request/Url.antt =====
-- utils/url.go: whether a response is a playlist.
use streamweaver.Prelude.{
  Bool, false, ◌||◌, none, some, List, [], ◌∷◌, Text, bytes, contains, to_lower, ◌==◌,
  if◌then◌else◌,
}
use streamweaver.LoadBalancer.{Response}
use streamweaver.Viewer.{first_value}

-- filepath.Ext: from the last dot after the last slash on.
unfoldable pub ext : Text → Text → Text
ext [] found = found
ext (c ∷ s) found = if c == b'/' then ext s [] else if c == b'.' then ext s (c ∷ s) else ext s found

abbrev pub known_mime_types : List Text
known_mime_types =
    bytes "application/x-mpegurl"
    ∷ bytes "text/plain"
    ∷ bytes "audio/x-mpegurl"
    ∷ bytes "audio/mpegurl"
    ∷ bytes "application/vnd.apple.mpegurl"
    ∷ []

abbrev pub known_extensions : List Text
known_extensions = bytes ".m3u" ∷ bytes ".m3u8" ∷ []

unfoldable pub is_an_m3u8_media : Response → Bool
unfolding ext contains to_lower first_value
is_an_m3u8_media resp =
    let condition_two : Bool = elim resp.request_path [
      | none ↦ false
      | some path ↦ contains known_extensions (to_lower (ext path []))
    ] in
    contains known_mime_types (to_lower (first_value (bytes "Content-Type") resp.header))
    || condition_two
