-- ===== src/Processor.antt =====
-- sourceproc/processor.go: an M3UProcessor from its temporary file to the playlist that replaces the old ones. The
-- parsing of the lines is Processing, and the download is Download. The goroutines are an order of the workers' turns.
pub mod Ending
pub mod Playlist
pub mod Sources
pub mod Titles
mod Examples
use streamweaver.Prelude.{
  ℕ, ◌+◌, Bool, true, false, ◌||◌, not, Option, none, some, List, [], ◌∷◌, ◌++◌, Text, bytes,
  trim_suffix, Table, lookup, put, set, get_elem?, if◌then◌else◌,
}
use streamweaver.StreamInfo.{StreamInfo}
use streamweaver.Sorting.{Shard}
use streamweaver.Sorting.Entries.{Sorter, ShardFaults, get_sorted_entries}
use streamweaver.Processing.{Parts, handle_downloaded, add_stream, compile_m3u}
use streamweaver.Download.{SourceDownloaderResult, Fetched, any_hangs, stream_download_m3u_sources}
use streamweaver.Disk.{Disk, mkdir_all, create, remove, rename, or_same, has_file}
use streamweaver.Paths.{
  Found, found, failed, panicked, get_new_m3u_path, get_m3u_file_path_by_index,
  get_latest_processed_m3u_path, clear_old_processed_m3u,
}

-- `done` says that revalidatingDone is closed. The shards are those of the sorting manager.
pub record M3uProcessor : Type 0 where
  pub stream_count : ℕ
  pub file : Option Text
  pub done : Bool
  pub critical_error_occurred : Bool
  pub shards : List Shard

abbrev pub fresh : Text → List Shard → M3uProcessor
fresh path shards = record {
  stream_count = 0;
  file = some path;
  done = false;
  critical_error_occurred = false;
  shards = shards;
}

-- The temporary file is made, and its directory. `none` is the nil processor of an error.
unfoldable pub create_result_file : Text → Text → Disk → Option Disk × Disk
unfolding mkdir_all create
create_result_file dir path disk = elim (mkdir_all dir disk) [
  | none ↦ (none, disk)
  | some disk' ↦ (create path [] disk', disk')
]

unfoldable pub new_processor : Text → Text → List Shard → Disk → Option M3uProcessor × Disk
unfolding create_result_file
new_processor dir now shards disk =
    let path = get_new_m3u_path dir now ++ bytes ".tmp" in
    let (made, disk') = create_result_file dir path disk in
    elim made [ none ↦ (none, disk') | some disk'' ↦ (some (fresh path shards), disk'') ]

unfoldable pub mark_critical_error : M3uProcessor → M3uProcessor
mark_critical_error p = record p { critical_error_occurred = true }

-- A stream that a worker takes, with whether AddToSorter gives an error.
abbrev pub Arrival : Type 0
Arrival = StreamInfo × Bool

-- What the writes of the playlist give: an error of the header, of an entry, or of Flush, with the faults of the shards; and what is
-- in the file after an error.
pub record Writes : Type 0 where
  pub header_fails : Bool
  pub entry_fails : Bool
  pub shard_faults : ShardFaults
  pub flush_fails : Bool
  pub torn : Text

-- What the processing of a request to update has from other parts and from outside: the parsers of a line, the filter, the
-- sorting manager with its shards, GenerateStreamURL for a base, the sources with their addresses and answers, and
-- the order in which the workers take the streams.
pub record Setup : Type 0 where
  pub parts : Parts
  pub keeps : StreamInfo → Bool
  pub shard_of : Text → ℕ
  pub sorter : Sorter
  pub url_of : Text → StreamInfo → Text
  pub indexes : List Text
  pub address_of : Text → Text
  pub fetch : Text → Fetched
  pub schedule : List StreamInfo → List Arrival
  pub dir : Text
  pub sources : Text

module _ (setup : Setup) where
  unfoldable pub add_to_shards : StreamInfo → List Shard → List Shard
  unfolding add_stream
  add_to_shards s shards = elim (get_elem? shards (setup.shard_of s.title)) [
    | none ↦ shards
    | some shard ↦ set shards (setup.shard_of s.title) (add_stream setup.sorter.json s shard)
  ]

  -- A worker's turn: a stream without addresses is passed over.
  unfoldable pub worker : Arrival → M3uProcessor → M3uProcessor
  unfolding add_to_shards mark_critical_error
  worker (s, fails) p =
      let counted : M3uProcessor = record p { stream_count = p.stream_count + 1 } in
      elim s.urls [
        | none ↦ p
        | some [] ↦ p
        | some (u ∷ us) ↦
            if fails
            then mark_critical_error counted
            else record counted { shards = add_to_shards s p.shards }
      ]

  -- The turns of all workers, in the order in which they come.
  unfoldable pub workers : List Arrival → M3uProcessor → M3uProcessor
  unfolding worker
  workers [] p = p
  workers (arrival ∷ arrivals) p = workers arrivals (worker arrival p)

  -- The streams of all sources, and the files that they are stored in.
  unfoldable pub produce : List SourceDownloaderResult → Table Text → List StreamInfo × Table Text
  produce [] files = ([], files)
  produce (r ∷ rs) files =
      let (streams, files') = handle_downloaded setup.parts setup.keeps r.index r.lines [] files in
      let (rest, files'') = produce rs files' in (streams ++ rest, files'')

  -- compileM3U: whether it fails, and the file.
  unfoldable pub write_playlist : Text → Writes → M3uProcessor → Bool × Text
  write_playlist base_url w p = elim (get_sorted_entries setup.sorter w.shard_faults p.shards) [
    | none ↦ (true, w.torn)
    | some entries ↦
        if w.header_fails || w.entry_fails || w.flush_fails
        then (true, w.torn)
        else (false, compile_m3u (setup.url_of base_url) entries)
  ]

  unfoldable pub compile : Text → Writes → M3uProcessor → Disk → M3uProcessor × Disk
  unfolding write_playlist mark_critical_error put
  compile base_url w p disk =
      let (fails, content) = write_playlist base_url w p in
      let p' : M3uProcessor = record p { done = true } in
      (
        if fails then mark_critical_error p' else p',
        elim p.file [
          | none ↦ disk
          | some path ↦ record disk { files = put path content disk.files }
        ],
      )

  unfoldable pub process_streams : Text → Writes → M3uProcessor → Disk → M3uProcessor × Disk
  process_streams base_url w p disk =
      let (results, disk') =
        stream_download_m3u_sources setup.sources setup.address_of setup.fetch setup.indexes disk in
      let (streams, files) = produce results disk'.files in
      compile base_url w (workers (setup.schedule streams) (record p { done = false }))
        (record disk' { files = files })

-- Wait returns with an error of the context or without one, waits, or panics on a nil file.
pub data Waited : Type 0 where
  returned : Bool → M3uProcessor → Disk → Waited
  waiting crashed : Waited

-- `sources` is the directory of the downloaded sources.
module _ (dir sources : Text) where
  abbrev pub final_path : Text → Text
  final_path m3u_index = get_m3u_file_path_by_index sources m3u_index

  unfoldable pub apply_new_remote_files : List Text → Disk → Disk
  unfolding has_file
  apply_new_remote_files [] disk = disk
  apply_new_remote_files (idx ∷ indexes) disk =
      let path = final_path idx in
      apply_new_remote_files indexes (
        if has_file (path ++ bytes ".new") disk
        then or_same (rename (path ++ bytes ".new") path disk) disk
        else disk)

  unfoldable pub clean_failed_remote_files : List Text → Disk → Disk
  clean_failed_remote_files [] disk = disk
  clean_failed_remote_files (idx ∷ indexes) disk =
      clean_failed_remote_files indexes
        (or_same (remove (final_path idx ++ bytes ".new") disk) disk)

  unfoldable pub publish : List Text → Text → Disk → Disk
  publish indexes path disk =
      let prod = trim_suffix path (bytes ".tmp") in
      (clear_old_processed_m3u dir prod
        (apply_new_remote_files indexes (or_same (rename path prod disk) disk))).0

  -- `cancelled` says that the select takes the context's end.
  unfoldable pub wait : List Text → Bool → M3uProcessor → Disk → Waited
  wait indexes cancelled p disk = elim p.file [
    | none ↦ if cancelled || p.done then crashed else waiting
    | some path ↦
        let cleaned = clean_failed_remote_files indexes (or_same (remove path disk) disk) in
        if cancelled
        then returned true p cleaned
        else if not p.done
        then waiting
        else if p.critical_error_occurred
        then returned false (record p { file = none }) cleaned
        else returned false p (publish indexes path disk)
  ]

unfoldable pub get_result_path : Text → M3uProcessor → Disk → Found
get_result_path dir p disk = elim p.file [
  | none ↦ elim (get_latest_processed_m3u_path dir disk) [
    | found path ↦ found path
    | failed ↦ found []
    | panicked ↦ panicked
  ]
  | some path ↦ found (trim_suffix path (bytes ".tmp"))
]

-- Run: Start, which is over when all streams are processed, whatever becomes of the context, and Wait.
unfoldable pub run : Setup → Text → Writes → Bool → M3uProcessor → Disk → Waited
run setup base_url w cancelled p disk =
    let (p', disk') = process_streams setup base_url w p disk in
    if any_hangs setup.sources setup.address_of setup.fetch setup.indexes disk
    then waiting
    else wait setup.dir setup.sources setup.indexes cancelled p' disk'
