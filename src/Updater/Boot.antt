-- ===== src/Updater/Boot.antt =====
-- An update that is given up, and the next start of the program.
use streamweaver.Prelude.{
  ◌≡◌, refl, ap, ◌∙◌, subst, ◌⊎◌, ◌≢◌, ◌<◌, All, length, inl, inr, Bool, Bool-cases, true, false,
  ◌||◌, Option, none, some, List, [], ◌∷◌, ◌++◌, arith, Text, bytes, text_eq, text_eq_refl,
  has_suffix, has_prefix, contains, lookup, lookup-put, put,
}
use mathlib.Core.List.{reverse, reverse-append, append_assoc}
use streamweaver.Sorting.{Shard}
use streamweaver.Disk.{Disk, under, has_slash, read_dir, DirEntry}
use streamweaver.Disk.Laws.{file_entry, read_dir-Lists, strip_prefix-append}
use streamweaver.Paths.{get_latest_processed_m3u_path, panicked, get_new_m3u_path}
use streamweaver.Paths.Latest.{get_latest-tmp, get_latest-last}
use streamweaver.Processor.{M3uProcessor, Setup, fresh, new_processor}
use streamweaver.Updater.{
  Update, updated, Started, started, update_with, update_sources, initialize, or_default,
}

has_suffix-append : (s p : Text) → has_suffix (s ++ p) p ≡ true
unfolding has_suffix has_prefix
has_suffix-append s p =
    rw (reverse-append s p) (rw (strip_prefix-append (reverse p) (reverse s), has_prefix) refl)

has_slash-append : (s t : Text) → has_slash (s ++ t) ≡ (has_slash s || has_slash t)
unfolding has_slash
has_slash-append [] t = refl
has_slash-append (c ∷ s) t = ground (arith, has_slash-append s t)

m3u-plain : has_slash (bytes ".m3u") ≡ false
unfolding has_slash
m3u-plain = refl

tmp-plain : has_slash (bytes ".tmp") ≡ false
unfolding has_slash
tmp-plain = refl

-- The temporary file of an update, by its name.
abbrev pub tmp_name : Text → Text
tmp_name now = (now ++ bytes ".m3u") ++ bytes ".tmp"

tmp_name-plain : (now : Text) → has_slash now ≡ false → has_slash (tmp_name now) ≡ false
tmp_name-plain now h =
    has_slash-append (now ++ bytes ".m3u") (bytes ".tmp")
    ∙ rw (has_slash-append now (bytes ".m3u")) (rw (h, m3u-plain, tmp-plain) refl)

tmp_path : (dir now : Text) → get_new_m3u_path dir now ++ bytes ".tmp" ≡ under dir (tmp_name now)
unfolding get_new_m3u_path
tmp_path dir now = append_assoc dir (b'/' ∷ now ++ bytes ".m3u") (bytes ".tmp")

-- A new processor, if its directory and its file can be made.
pub new_processor-made :
    (dir now : Text) (shards : List Shard) (disk : Disk)
    → disk.broken dir ≡ false
    → disk.broken (get_new_m3u_path dir now ++ bytes ".tmp") ≡ false
    → let path = get_new_m3u_path dir now ++ bytes ".tmp" in
      new_processor dir now shards disk ≡ (
        some (fresh path shards),
        record disk { dirs = dir ∷ disk.dirs; files = put path [] disk.files },
      )
unfolding new_processor
new_processor-made dir now shards disk b b' = ground (arith, b, b')

tmp-IsListed :
    (dir now : Text) (disk : Disk)
    → has_slash now ≡ false
    → let path = get_new_m3u_path dir now ++ bytes ".tmp" in
      get_latest_processed_m3u_path dir
        (record disk { dirs = dir ∷ disk.dirs; files = put path [] disk.files })
      ≡ panicked
unfolding contains
tmp-IsListed dir now disk h =
    let path = get_new_m3u_path dir now ++ bytes ".tmp" in
    let disk' : Disk = record disk { dirs = dir ∷ disk.dirs; files = put path [] disk.files } in
    let stored : lookup path disk'.files ≡ some [] =
      lookup-put path path [] disk.files ∙ rw (text_eq_refl path) refl in
    let (es, r, (xs, ys, e)) =
      read_dir-Lists dir (tmp_name now) (tmp_name-plain now h) disk' [] (rw (text_eq_refl dir) refl)
        (subst (λ q. lookup q disk'.files ≡ some []) (tmp_path dir now) stored) in
    get_latest-tmp dir disk' xs ys (file_entry (tmp_name now)) (r ∙ ap some e)
      (has_suffix-append (now ++ bytes ".m3u") (bytes ".tmp"))

-- An update is given up, because its context has ended or because BASE_URL is not set. The handler keeps its path; the
-- temporary file stays, and the next start of the program, unless it clears the processed playlists, panics.
pub update-given_up :
    (setup : Setup) (shards : List Shard) (u : Update) (path : Text) (disk : Disk)
    (accepts : Text → Bool) (clear_on_boot sync_cron sync_on_boot path' : Text)
    → disk.broken setup.dir ≡ false
    → disk.broken (get_new_m3u_path setup.dir u.now ++ bytes ".tmp") ≡ false
    → has_slash u.now ≡ false
    → (u.ended ≡ true) ⊎ (u.base_url ≡ none)
    → text_eq (or_default clear_on_boot (bytes "false")) (bytes "true") ≡ false
    → (disk' : Disk) × (update_sources setup shards u path disk ≡ updated path disk')
      × (initialize setup.dir accepts clear_on_boot sync_cron sync_on_boot path' disk'
          ≡ Started.panic)
unfolding update_sources update_with initialize
update-given_up setup shards u path disk accepts clear_on_boot sync_cron sync_on_boot path' b b' h e
      c =
    let tmp = get_new_m3u_path setup.dir u.now ++ bytes ".tmp" in
    (
      record disk { dirs = setup.dir ∷ disk.dirs; files = put tmp [] disk.files },
      ap (λ (made : Option M3uProcessor × Disk). update_with setup shards u path made.0 made.1)
            (new_processor-made setup.dir u.now shards disk b b')
          ∙ given_up (some (fresh tmp shards)) _ e,
      rw c (rw (tmp-IsListed setup.dir u.now disk h, initialize) refl),
    )
  where
    given_up :
        (p : Option M3uProcessor) (d : Disk)
        → (u.ended ≡ true) ⊎ (u.base_url ≡ none)
        → update_with setup shards u path p d ≡ updated path d
    given_up p d (inl ended) = rw ended refl
    given_up p d (inr unset) = elim (Bool-cases u.ended) [
      | inl ended ↦ rw ended refl
      | inr going ↦ rw going (rw (unset, update_with) refl)
    ]

under-longer : (dir name : Text) → length name < length (under dir name)
under-longer [] name = omega arith
under-longer (c ∷ dir) name = omega (arith, under-longer dir name)

-- The program starts on processed playlists, none of which is temporary, without clearing them, and cron takes the
-- schedule. The handler gets the name of the last one alone, which is not the path of that file.
pub initialize-name :
    (dir : Text) (accepts : Text → Bool) (clear_on_boot sync_cron sync_on_boot path : Text)
    (disk : Disk) (xs : List DirEntry) (e : DirEntry)
    → text_eq (or_default clear_on_boot (bytes "false")) (bytes "true") ≡ false
    → accepts (or_default sync_cron (bytes "0 0 * * *")) ≡ true
    → read_dir dir disk ≡ some (xs ++ e ∷ [])
    → All (λ f. has_suffix f.name (bytes ".tmp") ≡ false) (xs ++ e ∷ [])
    → (initialize dir accepts clear_on_boot sync_cron sync_on_boot path disk
        ≡ started e.name disk (text_eq (or_default sync_on_boot (bytes "true")) (bytes "true")))
      × (e.name ≢ under dir e.name)
unfolding initialize
initialize-name dir accepts clear_on_boot sync_cron sync_on_boot path disk xs e c s r a = (
  rw c (rw (get_latest-last dir disk xs e r a, initialize) (rw s refl)),
  λ h. absurd (omega (arith, under-longer dir e.name, ap length h)),
)
