-- ===== src/Processor/Ending.antt =====
-- What the disk has when an M3UProcessor ends.
use streamweaver.Prelude.{
  ◌≡◌, refl, ◌∙◌, Bool-cases, inl, inr, false, Option, none, some, List, [], ◌∷◌, ◌++◌, arith, All,
  Text, bytes, text_eq, text_eq_refl, trim_suffix, trim_prefix, lookup, lookup-put, put, without,
  if◌then◌else◌,
}
use mathlib.Core.List.{reverse, reverse-append, reverse-reverse}
use streamweaver.Disk.{Disk, has_file, rename, or_same}
use streamweaver.Disk.Laws.{strip_prefix-append, rename-some, rename-ok}
use streamweaver.Paths.Clearing.{clear_old-Spared, latest-Spared}
use streamweaver.Processor.{
  M3uProcessor, Setup, Arrival, worker, workers, apply_new_remote_files, final_path, publish,
}

pub trim_suffix-append : (s p : Text) → trim_suffix (s ++ p) p ≡ s
unfolding trim_suffix trim_prefix
trim_suffix-append s p =
    rw (reverse-append s p)
      (rw (strip_prefix-append (reverse p) (reverse s), trim_prefix) (reverse-reverse s))

module _ (dir sources : Text) where
  -- A path that is neither of the files of any source.
  abbrev pub Apart : Text → List Text → Type 0
  Apart q = All (λ idx.
      (text_eq (final_path dir sources idx) q ≡ false)
      × (text_eq (final_path dir sources idx ++ bytes ".new") q ≡ false))

  pub renamed-Apart :
      (from to q : Text) (disk : Disk) (o : Option Disk)
      → rename from to disk ≡ o
      → text_eq to q ≡ false
      → text_eq from q ≡ false
      → lookup q (or_same o disk).files ≡ lookup q disk.files
  renamed-Apart from to q disk none r t f = refl
  renamed-Apart from to q disk (some d) r t f = rename-some from to disk d r q ∙ rw (t, f)

  pub apply_new-Apart :
      (q : Text) (indexes : List Text) (disk : Disk)
      → Apart q indexes
      → lookup q (apply_new_remote_files dir sources indexes disk).files ≡ lookup q disk.files
  unfolding apply_new_remote_files
  apply_new-Apart q [] disk a = refl
  apply_new-Apart q (idx ∷ indexes) disk a =
      let path = final_path dir sources idx in
      let new = path ++ bytes ".new" in
      elim (Bool-cases (has_file new disk)) [
        | inl h ↦
            apply_new-Apart q indexes
              (if has_file new disk then or_same (rename new path disk) disk else disk) a.1
            ∙ rw h (renamed-Apart new path q disk (rename new path disk) refl a.0.0 a.0.1)
        | inr h ↦
            apply_new-Apart q indexes
              (if has_file new disk then or_same (rename new path disk) disk else disk) a.1
            ∙ rw h refl
      ]

  -- The temporary file becomes the playlist, whatever the removal of the others gives.
  pub publish-playlist :
      (indexes : List Text) (prod content : Text) (disk : Disk)
      → lookup (prod ++ bytes ".tmp") disk.files ≡ some content
      → disk.broken (prod ++ bytes ".tmp") ≡ false
      → disk.broken prod ≡ false
      → Apart prod indexes
      → lookup prod (publish dir sources indexes (prod ++ bytes ".tmp") disk).files ≡ some content
  unfolding publish
  publish-playlist indexes prod content disk h b b' a =
      let tmp = prod ++ bytes ".tmp" in
      let d : Disk = record disk { files = put prod content (without tmp disk.files) } in
      rw (trim_suffix-append prod (bytes ".tmp"), publish)
        (rw (rename-ok tmp prod content disk h b b') (
          clear_old-Spared dir prod prod (apply_new_remote_files dir sources indexes d)
            (latest-Spared dir prod)
          ∙ apply_new-Apart prod indexes d a
          ∙ lookup-put prod prod content (without tmp disk.files)
          ∙ rw (text_eq_refl prod)))

-- What the workers leave of a processor.
module _ (setup : Setup) where
  worker-file : (a : Arrival) (p : M3uProcessor) → (worker setup a p).file ≡ p.file
  unfolding worker
  worker-file (s, fails) p = ground arith

  pub workers-file :
      (turns : List Arrival) (p : M3uProcessor) → (workers setup turns p).file ≡ p.file
  unfolding workers
  workers-file [] p = refl
  workers-file (a ∷ turns) p = workers-file turns (worker setup a p) ∙ worker-file a p

  abbrev pub Succeed : List Arrival → Type 0
  Succeed = All (λ a. a.1 ≡ false)

  worker-critical :
      (a : Arrival) (p : M3uProcessor)
      → a.1 ≡ false
      → (worker setup a p).critical_error_occurred ≡ p.critical_error_occurred
  unfolding worker
  worker-critical (s, fails) p h = ground (arith, h)

  pub workers-critical :
      (turns : List Arrival) (p : M3uProcessor)
      → Succeed turns
      → (workers setup turns p).critical_error_occurred ≡ p.critical_error_occurred
  unfolding workers
  workers-critical [] p h = refl
  workers-critical (a ∷ turns) p h =
      workers-critical turns (worker setup a p) h.1 ∙ worker-critical a p h.0
