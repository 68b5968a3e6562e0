-- ===== src/Processor/Examples.antt =====
-- A source that breaks off after its first line.
use streamweaver.Prelude.{
  ◌≡◌, refl, true, false, some, [], ◌∷◌, Text, bytes, has_prefix, strip_prefix, is_empty, lookup,
  text_eq, trim_suffix, trim_prefix,
}
use streamweaver.Disk.{Disk}
use streamweaver.Download.{Fetched, answered, read_error, download_source, scan}
use streamweaver.Paths.{get_m3u_file_path_by_index}
use streamweaver.Processor.{final_path, publish}
use streamweaver.Processor.Sources.{download_source-torn}

-- The file of an earlier download is whole.
abbrev kept : Disk
kept = record {
  dirs = [];
  files = (bytes "t/1.m3u", bytes "#EXTM3U\n#EXTINF:-1,A\nhttp://a\n") ∷ [];
  broken = λ p. false;
}

abbrev torn : Text
torn = bytes "#EXTM3U\n"

abbrev fetch : Text → Fetched
fetch url = answered 200 torn true

abbrev later : Disk
later = (download_source (bytes "t") (λ idx. bytes "http://m") fetch (bytes "1") kept).1

download_source-torn_example :
    let result = (download_source (bytes "t") (λ idx. bytes "http://m") fetch (bytes "1") kept).0 in
    (result.errors ≡ read_error ∷ [])
    × (lookup
          (final_path (bytes "d") (bytes "t") (bytes "1"))
          (publish (bytes "d") (bytes "t") (bytes "1" ∷ []) (bytes "d/2.m3u.tmp") later).files
        ≡ some torn)
unfolding download_source is_empty strip_prefix has_prefix scan text_eq get_m3u_file_path_by_index
    trim_suffix trim_prefix
download_source-torn_example =
    download_source-torn (bytes "d") (bytes "t") (λ idx. bytes "http://m") fetch (bytes "1") torn
      (bytes "d/2.m3u.tmp") [] [] kept later refl refl refl refl refl refl refl refl refl refl tt tt
      (λ name. refl) refl refl
