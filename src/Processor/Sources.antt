-- ===== src/Processor/Sources.antt =====
-- A source whose download breaks off, up to the file that is kept of it.
use streamweaver.Prelude.{
  ◌≡◌, refl, ap, ◌∙◌, Bool, true, false, Option, none, some, List, [], ◌∷◌, ◌++◌, arith, Text,
  bytes, text_eq, text_eq_refl, has_prefix, strip_prefix, is_empty, trim_suffix, lookup, lookup-put,
  put, without, if◌then◌else◌,
}
use streamweaver.Disk.{Disk, has_file, create, rename, or_same, under}
use streamweaver.Disk.Laws.{rename-ok}
use streamweaver.Download.{
  Fetched, answered, read_error, scan, buffer_size, scan_and_stream, handle_answer,
  handle_remote_url, download_source, open_file, SourceDownloaderResult,
}
use streamweaver.Download.Scanning.{scan-read}
use streamweaver.Paths.Clearing.{clear_old-Spared}
use streamweaver.Processor.{apply_new_remote_files, final_path, publish}
use streamweaver.Processor.Ending.{Apart, apply_new-Apart, renamed-Apart}

renamed-broken :
    (from to : Text) (disk : Disk) → (or_same (rename from to disk) disk).broken ≡ disk.broken
unfolding rename
renamed-broken from to disk = ground arith

module _ (dir sources : Text) where
  apply_new-broken :
      (indexes : List Text) (disk : Disk)
      → (apply_new_remote_files dir sources indexes disk).broken ≡ disk.broken
  unfolding apply_new_remote_files
  apply_new-broken [] disk = refl
  apply_new-broken (idx ∷ indexes) disk =
      let path = final_path dir sources idx in
      let new = path ++ bytes ".new" in
      apply_new-broken indexes
        (if has_file new disk then or_same (rename new path disk) disk else disk)
      ∙ ground (arith, renamed-broken new path disk)

  apply_new-append :
      (xs ys : List Text) (disk : Disk)
      → apply_new_remote_files dir sources (xs ++ ys) disk
        ≡ apply_new_remote_files dir sources ys (apply_new_remote_files dir sources xs disk)
  unfolding apply_new_remote_files
  apply_new-append [] ys disk = refl
  apply_new-append (idx ∷ xs) ys disk =
      let path = final_path dir sources idx in
      let new = path ++ bytes ".new" in
      apply_new-append xs ys
        (if has_file new disk then or_same (rename new path disk) disk else disk)

  -- The new file of one source, if there is one.
  apply_new_self :
      (idx content : Text) (ys : List Text) (disk : Disk)
      → let path = final_path dir sources idx in
        lookup (path ++ bytes ".new") disk.files ≡ some content
        → disk.broken (path ++ bytes ".new") ≡ false
        → disk.broken path ≡ false
        → Apart dir sources path ys
        → lookup path (apply_new_remote_files dir sources (idx ∷ ys) disk).files ≡ some content
  unfolding apply_new_remote_files has_file
  apply_new_self idx content ys disk h b b' a =
      let path = final_path dir sources idx in
      let new = path ++ bytes ".new" in
      let d : Disk = record disk { files = put path content (without new disk.files) } in
      let moved : (if has_file new disk then or_same (rename new path disk) disk else disk) ≡ d =
        rw (h, has_file) (rw (rename-ok new path content disk h b b') refl) in
      ap (λ (x : Disk). lookup path (apply_new_remote_files dir sources ys x).files) moved
      ∙ apply_new-Apart dir sources path ys d a
      ∙ lookup-put path path content (without new disk.files)
      ∙ rw (text_eq_refl path) refl

  publish-source :
      (xs ys : List Text) (idx content tmp : Text) (disk : Disk)
      → let path = final_path dir sources idx in
        let new = path ++ bytes ".new" in
        lookup new disk.files ≡ some content
        → disk.broken new ≡ false
        → disk.broken path ≡ false
        → Apart dir sources new xs
        → Apart dir sources path ys
        → ((name : Text) → text_eq (under dir name) path ≡ false)
        → text_eq (trim_suffix tmp (bytes ".tmp")) new ≡ false
        → text_eq tmp new ≡ false
        → lookup path (publish dir sources (xs ++ idx ∷ ys) tmp disk).files ≡ some content
  unfolding publish
  publish-source xs ys idx content tmp disk h b b' ax ay o np nt =
      let path = final_path dir sources idx in
      let new = path ++ bytes ".new" in
      let prod = trim_suffix tmp (bytes ".tmp") in
      let d = or_same (rename tmp prod disk) disk in
      let d1 = apply_new_remote_files dir sources xs d in
      let kept : d1.broken ≡ disk.broken = apply_new-broken xs d ∙ renamed-broken tmp prod disk in
      clear_old-Spared dir prod path (apply_new_remote_files dir sources (xs ++ idx ∷ ys) d)
        (λ name _. o name)
      ∙ ap (λ (x : Disk). lookup path x.files) (apply_new-append xs (idx ∷ ys) d)
      ∙ apply_new_self idx content ys d1
          (apply_new-Apart dir sources new xs d ax
            ∙ renamed-Apart dir sources tmp prod new disk (rename tmp prod disk) refl np nt
            ∙ h)
          (ap (λ (g : Text → Bool). g new) kept ∙ b) (ap (λ (g : Text → Bool). g path) kept ∙ b') ay

  handle_answer-new :
      (path idx body : Text) (fallback : Option Text) (breaks : Bool) (disk : Disk)
      → has_prefix body (bytes "#EXTM3U") ≡ true
      → disk.broken (path ++ bytes ".new") ≡ false
      → let (result, read) = scan_and_stream idx body breaks in
        handle_answer path idx fallback (answered 200 body breaks) disk
        ≡ (result, record disk { files = put (path ++ bytes ".new") read disk.files })
  unfolding handle_answer
  handle_answer-new path idx body fallback breaks disk p b =
      rw (p, handle_answer) (rw (b, create) refl)

  handle_remote_url-new :
      (idx body : Text) (breaks : Bool) (disk : Disk)
      → let new = final_path dir sources idx ++ bytes ".new" in
        let (result, read) = scan_and_stream idx body breaks in
        has_prefix body (bytes "#EXTM3U") ≡ true
        → disk.broken sources ≡ false
        → disk.broken new ≡ false
        → handle_remote_url sources idx (answered 200 body breaks) disk
          ≡ (result, record disk { dirs = sources ∷ disk.dirs; files = put new read disk.files })
  unfolding handle_remote_url
  handle_remote_url-new idx body breaks disk p bs bn =
      let disk' : Disk = record disk { dirs = sources ∷ disk.dirs } in
      let path = final_path dir sources idx in
      rw (bs, handle_remote_url)
        (handle_answer-new path idx body (open_file path disk') breaks disk' p bn)

  -- A source is fetched by its address, and its body starts as a playlist and then breaks off, with no line that is too
  -- long. That is an error of the source, which is only logged. If the processor then publishes its playlist `tmp`, on
  -- a disk where what was downloaded is still there, and the files of the sources are no other files, then the part that was
  -- read replaces the whole file that was kept of the source before.
  pub download_source-torn :
      (address_of : Text → Text) (fetch : Text → Fetched) (idx body tmp : Text) (xs ys : List Text)
      (disk later : Disk)
      → let path = final_path dir sources idx in
        let new = path ++ bytes ".new" in
        let (result, disk') = download_source sources address_of fetch idx disk in
        is_empty (address_of idx) ≡ false
        → strip_prefix (bytes "file://") (address_of idx) ≡ none
        → fetch (address_of idx) ≡ answered 200 body true
        → has_prefix body (bytes "#EXTM3U") ≡ true
        → (scan buffer_size 0 [] body).too_long ≡ false
        → disk.broken sources ≡ false
        → disk.broken new ≡ false
        → lookup new later.files ≡ lookup new disk'.files
        → later.broken new ≡ false
        → later.broken path ≡ false
        → Apart dir sources new xs
        → Apart dir sources path ys
        → ((name : Text) → text_eq (under dir name) path ≡ false)
        → text_eq (trim_suffix tmp (bytes ".tmp")) new ≡ false
        → text_eq tmp new ≡ false
        → (result.errors ≡ read_error ∷ [])
          × (lookup path (publish dir sources (xs ++ idx ∷ ys) tmp later).files ≡ some body)
  unfolding download_source
  download_source-torn address_of fetch idx body tmp xs ys disk later e s f p l bs bn k b b' ax ay o
        np nt =
      let new = final_path dir sources idx ++ bytes ".new" in
      let r = scan_and_stream idx body true in
      let got : download_source sources address_of fetch idx disk
          ≡ (r.0, record disk { dirs = sources ∷ disk.dirs; files = put new r.1 disk.files }) =
        rw (e, download_source)
          (rw (s, download_source) (rw f (handle_remote_url-new idx body true disk p bs bn))) in
      (
        ap (λ (x : SourceDownloaderResult × Disk). x.0.errors) got ∙ torn l,
        publish-source xs ys idx body tmp later
            (k
              ∙ ap (λ (x : SourceDownloaderResult × Disk). lookup new x.1.files) got
              ∙ lookup-put new new r.1 disk.files
              ∙ rw (text_eq_refl new) (ap some (read l)))
            b b' ax ay o np nt,
      )
    where
      torn :
          (scan buffer_size 0 [] body).too_long ≡ false
          → (scan_and_stream idx body true).0.errors ≡ read_error ∷ []
      torn h = unfold scan_and_stream in rw h refl

      read :
          (scan buffer_size 0 [] body).too_long ≡ false → (scan_and_stream idx body true).1 ≡ body
      read h = unfold scan_and_stream in scan-read buffer_size 0 [] body h
