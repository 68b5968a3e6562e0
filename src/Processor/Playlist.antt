-- ===== src/Processor/Playlist.antt =====
-- The playlist that a run without errors leaves.
use streamweaver.Prelude.{
  ◌≡◌, ◌≢◌, refl, ap, sym, subst, if◌then◌else◌, ◌∙◌, Bool, true, false, some, List, ◌++◌, arith,
  Text, bytes, text_eq_refl, lookup, lookup-put, put,
}
use streamweaver.StreamInfo.{StreamInfo}
use streamweaver.Processing.{compile_m3u}
use streamweaver.Sorting.Entries.Order.{IsReadable, sorted_entries, get_sorted_entries-readable}
use streamweaver.Download.{any_hangs, stream_download_m3u_sources}
use streamweaver.Download.Fallback.{downloads-broken}
use streamweaver.Disk.{Disk}
use streamweaver.Processor.{
  M3uProcessor, Setup, Writes, returned, waiting, workers, produce, compile, process_streams,
  publish, wait, run,
}
use streamweaver.Processor.Ending.{Apart, publish-playlist, workers-file, workers-critical, Succeed}

-- No write of the playlist fails.
pub record IsWritten (w : Writes) : Type 0 where
  pub header : w.header_fails ≡ false
  pub entry : w.entry_fails ≡ false
  pub shards : IsReadable w.shard_faults
  pub flush : w.flush_fails ≡ false

pub wait-published :
    (dir sources : Text) (indexes : List Text) (p : M3uProcessor) (path : Text) (disk : Disk)
    → p.file ≡ some path
    → p.done ≡ true
    → p.critical_error_occurred ≡ false
    → wait dir sources indexes false p disk
      ≡ returned false p (publish dir sources indexes path disk)
unfolding wait
wait-published dir sources indexes p path disk f d c = ground (arith, f, d, c)

module _ (setup : Setup) where
  -- The disk after the downloads, and the streams and the files after the parsing.
  abbrev pub downloaded : Disk → Disk
  downloaded disk =
      (stream_download_m3u_sources setup.sources setup.address_of setup.fetch setup.indexes disk).1

  abbrev pub produced : Disk → List StreamInfo × List (Text × Text)
  produced disk =
      produce setup
        (stream_download_m3u_sources setup.sources setup.address_of setup.fetch setup.indexes
          disk).0
        (downloaded disk).files

  -- Every source gives an answer.
  abbrev pub Answers : Disk → Type 0
  Answers disk = any_hangs setup.sources setup.address_of setup.fetch setup.indexes disk ≡ false

  -- The processor after the workers.
  abbrev pub worked : Disk → M3uProcessor → M3uProcessor
  worked disk p = workers setup (setup.schedule (produced disk).0) (record p { done = false })

  compile-written :
      (base path : Text) (w : Writes) (p : M3uProcessor) (disk : Disk)
      → IsWritten w
      → p.file ≡ some path
      → compile setup base w p disk ≡ (
        record p { done = true },
        record disk {
          files =
              put path
                (compile_m3u (setup.url_of base) (sorted_entries setup.sorter p.shards))
                disk.files;
        },
      )
  unfolding compile
  compile-written base path w p disk h f = ground (
    arith,
    f,
    h.header,
    h.entry,
    h.flush,
    get_sorted_entries-readable setup.sorter w.shard_faults p.shards h.shards,
  )

  pub run-playlist :
      (base prod : Text) (w : Writes) (p : M3uProcessor) (disk : Disk)
      → p.file ≡ some (prod ++ bytes ".tmp")
      → p.critical_error_occurred ≡ false
      → Succeed setup (setup.schedule (produced disk).0)
      → IsWritten w
      → disk.broken (prod ++ bytes ".tmp") ≡ false
      → disk.broken prod ≡ false
      → Apart setup.dir setup.sources prod setup.indexes
      → Answers disk
      → (disk' : Disk) × (run setup base w false p disk
          ≡ returned false (record (worked disk p) { done = true }) disk')
        × (lookup prod disk'.files
            ≡ some (
                compile_m3u
                  (setup.url_of base)
                  (sorted_entries setup.sorter (worked disk p).shards)))
  unfolding run process_streams
  run-playlist base prod w p disk f c s h b b' a no_hang =
      let tmp = prod ++ bytes ".tmp" in
      let q = worked disk p in
      let content = compile_m3u (setup.url_of base) (sorted_entries setup.sorter q.shards) in
      let turns = setup.schedule (produced disk).0 in
      let p0 : M3uProcessor = record p { done = false } in
      let d : Disk = record (downloaded disk) { files = (produced disk).1 } in
      let d' : Disk = record d { files = put tmp content d.files } in
      let file : q.file ≡ some tmp = workers-file setup turns p0 ∙ f in
      let calm : q.critical_error_occurred ≡ false = workers-critical setup turns p0 s ∙ c in
      let kept : d.broken ≡ disk.broken =
        downloads-broken setup.sources setup.address_of setup.fetch setup.indexes disk in
      (
        publish setup.dir setup.sources setup.indexes tmp d',
        rw no_hang refl
            ∙ ap
                (λ (r : M3uProcessor × Disk).
                  wait setup.dir setup.sources setup.indexes false r.0 r.1)
                (compile-written base tmp w q d h file)
            ∙ wait-published setup.dir setup.sources setup.indexes (record q { done = true }) tmp d'
                file refl calm,
        publish-playlist setup.dir setup.sources setup.indexes prod content d'
            (lookup-put tmp tmp content d.files ∙ rw (text_eq_refl tmp) refl)
            (ap (λ (g : Text → Bool). g tmp) kept ∙ b) (ap (λ (g : Text → Bool). g prod) kept ∙ b')
            a,
      )

  wait-ends :
      (cancelled : Bool) (p : M3uProcessor) (disk : Disk)
      → p.done ≡ true
      → wait setup.dir setup.sources setup.indexes cancelled p disk ≢ waiting
  unfolding wait
  wait-ends cancelled p disk d = ground (arith, d)

  compile-done :
      (base : Text) (w : Writes) (p : M3uProcessor) (disk : Disk)
      → (compile setup base w p disk).0.done ≡ true
  unfolding compile
  compile-done base w p disk = ground arith

  -- Wait finds the processor done.
  pub run-ends :
      (base : Text) (w : Writes) (cancelled : Bool) (p : M3uProcessor) (disk : Disk)
      → Answers disk
      → run setup base w cancelled p disk ≢ waiting
  unfolding run process_streams
  run-ends base w cancelled p disk no_hang =
      let q = worked disk p in
      let d : Disk = record (downloaded disk) { files = (produced disk).1 } in
      let (p', disk') = compile setup base w q d in
      subst
        (λ b.
          (if b then waiting else wait setup.dir setup.sources setup.indexes cancelled p' disk')
          ≢ waiting)
        (sym no_hang) (wait-ends cancelled p' disk' (compile-done base w q d))

  pub run-hangs :
      (base : Text) (w : Writes) (cancelled : Bool) (p : M3uProcessor) (disk : Disk)
      → any_hangs setup.sources setup.address_of setup.fetch setup.indexes disk ≡ true
      → run setup base w cancelled p disk ≡ waiting
  unfolding run
  run-hangs base w cancelled p disk h = rw h refl
