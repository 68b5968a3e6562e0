-- ===== src/Updater/Serving.antt =====
-- What the M3U handler serves after an update.
use streamweaver.Prelude.{
  ◌≡◌, refl, ap, ◌∙◌, true, false, Option, none, some, List, [], ◌∷◌, ◌++◌, Text, bytes, lookup,
  put,
}
use streamweaver.Env.{determine_base_url}
use streamweaver.Sorting.{Shard}
use streamweaver.Sorting.Entries.Order.{sorted_entries}
use streamweaver.Processing.{compile_m3u}
use streamweaver.Disk.{Disk}
use streamweaver.Paths.{get_new_m3u_path}
use streamweaver.Processor.{
  M3uProcessor, Setup, Waited, returned, waiting, crashed, fresh, run, get_result_path,
}
use streamweaver.Processor.Ending.{Apart, Succeed, trim_suffix-append, workers-file}
use streamweaver.Processor.Playlist.{IsWritten, produced, worked, Answers, run-playlist}
use streamweaver.Updater.{
  Update, Updated, updated, stuck, panic, set_result, run_processor, update_with, update_sources,
}
use streamweaver.Updater.Boot.{new_processor-made}

-- What an update makes of the outcome of a run.
abbrev ended_as : Setup → List Shard → Text → Waited → Updated
ended_as setup shards path (returned true p disk) = updated path disk
ended_as setup shards path (returned false p disk) = set_result setup shards p disk
ended_as setup shards path waiting = stuck
ended_as setup shards path crashed = panic

module _ (setup : Setup) (shards : List Shard) where
  run_processor-ended :
      (u : Update) (base path : Text) (p : M3uProcessor) (disk : Disk) (o : Waited)
      → run setup (determine_base_url (some base) none) u.writes u.cancelled p disk ≡ o
      → run_processor setup shards u base path (some p) disk ≡ ended_as setup shards path o
  unfolding run_processor
  run_processor-ended u base path p disk (returned true p' disk') h = rw (h, run_processor) refl
  run_processor-ended u base path p disk (returned false p' disk') h = rw (h, run_processor) refl
  run_processor-ended u base path p disk waiting h = rw (h, run_processor) refl
  run_processor-ended u base path p disk crashed h = rw (h, run_processor) refl

  set_result-file :
      (p : M3uProcessor) (prod : Text) (disk : Disk)
      → p.file ≡ some (prod ++ bytes ".tmp")
      → set_result setup shards p disk ≡ updated prod disk
  unfolding set_result get_result_path
  set_result-file p prod disk f =
      rw (f, set_result, get_result_path) (rw (trim_suffix-append prod (bytes ".tmp")) refl)

  started_with :
      (u : Update) (base path : Text) (p : M3uProcessor) (disk : Disk)
      → u.ended ≡ false
      → u.base_url ≡ some base
      → update_with setup shards u path (some p) disk
        ≡ run_processor setup shards u base path (some p) disk
  unfolding update_with
  started_with u base path p disk e b = rw (e, update_with) (rw (b, update_with) refl)

  -- Every source gives an answer, an update runs to its end, no write to the disk fails, and the files of the sources are not among the processed playlists.
  -- Then the handler gets the path of a new playlist, and the file there is the playlist of the entries that the
  -- workers have put into the shards, from the streams of all sources.
  pub update-served :
      (u : Update) (base path : Text) (disk : Disk)
      → let prod = get_new_m3u_path setup.dir u.now in
        let tmp = prod ++ bytes ".tmp" in
        let disk0 : Disk = record disk {
          dirs = setup.dir ∷ disk.dirs;
          files = put tmp [] disk.files;
        } in
        u.ended ≡ false
        → u.base_url ≡ some base
        → u.cancelled ≡ false
        → disk.broken setup.dir ≡ false
        → disk.broken tmp ≡ false
        → disk.broken prod ≡ false
        → Succeed setup (setup.schedule (produced setup disk0).0)
        → IsWritten u.writes
        → Apart setup.dir setup.sources prod setup.indexes
        → Answers setup disk0
        → (disk' : Disk) × (update_sources setup shards u path disk ≡ updated prod disk')
          × (lookup prod disk'.files
              ≡ some (
                  compile_m3u
                    (setup.url_of (determine_base_url (some base) none))
                    (sorted_entries setup.sorter (worked setup disk0 (fresh tmp shards)).shards)))
  unfolding update_sources update_with
  update-served u base path disk e b c bd bt bp s w a y =
      let prod = get_new_m3u_path setup.dir u.now in
      let tmp = prod ++ bytes ".tmp" in
      let p0 = fresh tmp shards in
      let disk0 : Disk = record disk {
        dirs = setup.dir ∷ disk.dirs;
        files = put tmp [] disk.files;
      } in
      let url = determine_base_url (some base) none in
      let (disk', r, l) = run-playlist setup url prod u.writes p0 disk0 refl refl s w bt bp a y in
      let q : M3uProcessor = record (worked setup disk0 p0) { done = true } in
      (
        disk',
        ap (λ (made : Option M3uProcessor × Disk). update_with setup shards u path made.0 made.1)
              (new_processor-made setup.dir u.now shards disk bd bt)
            ∙ started_with u base path p0 disk0 e b
            ∙ run_processor-ended u base path p0 disk0 (returned false q disk')
                (ap (λ x. run setup url u.writes x p0 disk0) c ∙ r)
            ∙ set_result-file q prod disk' (
                workers-file setup (setup.schedule (produced setup disk0).0)
                  (record p0 { done = false })),
        l,
      )
