-- ===== src/Download/Fallback.antt =====
-- What a download leaves on the disk.
use streamweaver.Prelude.{◌≡◌, refl, ◌∙◌, Bool-cases, inl, inr, Option, List, [], ◌∷◌, arith, Text}
use streamweaver.Disk.{Disk, mkdir_all, create}
use streamweaver.Paths.{get_m3u_file_path_by_index}
use streamweaver.Download.{
  Fetched, no_answer, silent, answered, handle_answer, handle_remote_url, download_source,
  stream_download_m3u_sources, open_file,
}

handle_answer-broken :
    (path idx : Text) (fallback : Option Text) (fetched : Fetched) (disk : Disk)
    → (handle_answer path idx fallback fetched disk).1.broken ≡ disk.broken
unfolding handle_answer create
handle_answer-broken path idx fallback no_answer disk = refl
handle_answer-broken path idx fallback silent disk = refl
handle_answer-broken path idx fallback (answered status body breaks) disk = ground arith

module _ (sources : Text) where
  handle_remote_url-broken :
      (idx : Text) (fetched : Fetched) (disk : Disk)
      → (handle_remote_url sources idx fetched disk).1.broken ≡ disk.broken
  unfolding handle_remote_url mkdir_all
  handle_remote_url-broken idx fetched disk = elim (Bool-cases (disk.broken sources)) [
    | inl b ↦ rw (b, handle_remote_url) refl
    | inr b ↦
        rw (b, handle_remote_url)
          (let disk' : Disk = record disk { dirs = sources ∷ disk.dirs } in
            let path = get_m3u_file_path_by_index sources idx in
            handle_answer-broken path idx (open_file path disk') fetched disk')
  ]

  module _ (address_of : Text → Text) (fetch : Text → Fetched) where
    download_source-broken :
        (idx : Text) (disk : Disk)
        → (download_source sources address_of fetch idx disk).1.broken ≡ disk.broken
    unfolding download_source
    download_source-broken idx disk =
        ground (arith, handle_remote_url-broken idx (fetch (address_of idx)) disk)

    pub downloads-broken :
        (indexes : List Text) (disk : Disk)
        → (stream_download_m3u_sources sources address_of fetch indexes disk).1.broken ≡ disk.broken
    unfolding stream_download_m3u_sources
    downloads-broken [] disk = refl
    downloads-broken (idx ∷ indexes) disk =
        downloads-broken indexes (download_source sources address_of fetch idx disk).1
        ∙ download_source-broken idx disk
