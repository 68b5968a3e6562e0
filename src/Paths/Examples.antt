-- ===== src/Paths/Examples.antt =====
-- Clearing two playlists of earlier updates.
use streamweaver.Prelude.{
  ◌≡◌, refl, false, none, some, [], ◌∷◌, bytes, text_eq, strip_prefix, contains, lookup, without,
}
use streamweaver.Disk.{Disk, under, has_slash, read_dir, remove}
use streamweaver.Paths.{clear_old_processed_m3u, new_config, get_streams_dir_path}
use streamweaver.Paths.Clearing.{clear_old-only}

abbrev two_playlists : Disk
two_playlists = record {
  dirs = bytes "d" ∷ [];
  files = (bytes "d/2.m3u", []) ∷ (bytes "d/1.m3u", []) ∷ (bytes "m", []) ∷ [];
  broken = λ p. false;
}

clear_old-only_example :
    let disk' = (clear_old_processed_m3u (bytes "d") (bytes "d/2.m3u") two_playlists).0 in
    (lookup (under (bytes "d") (bytes "1.m3u")) disk'.files ≡ none)
    × (lookup (bytes "d/2.m3u") disk'.files ≡ lookup (bytes "d/2.m3u") two_playlists.files)
unfolding contains text_eq has_slash lookup clear_old_processed_m3u read_dir strip_prefix
clear_old-only_example =
    clear_old-only (bytes "d") (bytes "d/2.m3u") (bytes "1.m3u") [] two_playlists refl refl refl
      refl refl

-- The other files stay.
others_stay :
    lookup (bytes "m") (clear_old_processed_m3u (bytes "d") (bytes "d/2.m3u") two_playlists).0.files
    ≡ some []
unfolding clear_old_processed_m3u read_dir contains text_eq strip_prefix has_slash lookup remove
    without
others_stay = refl

default_streams : get_streams_dir_path (λ p. p) (new_config none none) ≡ bytes "./data/streams/"
unfolding get_streams_dir_path new_config
default_streams = refl
