-- ===== src/Paths/Clearing.antt =====
-- What is left of the processed playlists when the old ones are cleared.
use streamweaver.Prelude.{
  ◌≡◌, refl, ◌∙◌, Bool, Bool-cases, inl, inr, true, false, Option, none, some, List, [], ◌∷◌, ◌++◌,
  arith, Text, text_eq, text_eq_refl, contains, lookup,
}
use streamweaver.Disk.{Disk, DirEntry, under, has_slash, remove, read_dir}
use streamweaver.Disk.Laws.{file_entry, read_dir-Lists, remove-some}
use streamweaver.Paths.{clear_entries, clear_old_processed_m3u}

-- What an outcome of a removal, in the middle of the loop, goes on to.
abbrev after : Text → Text → List DirEntry → Disk → Option Disk → Disk × Bool
after dir latest es disk none = (disk, false)
after dir latest es disk (some disk') = clear_entries dir latest es disk'

-- A statement on the loop at an entry, by what happens to the entry.
clear_entries-cases {ℓ} :
    (P : Disk × Bool → Type ℓ) (dir latest : Text) (e : DirEntry) (es : List DirEntry) (disk : Disk)
    → (e.is_dir ≡ true → P (clear_entries dir latest es disk))
    → (e.is_dir ≡ false
        → text_eq (under dir e.name) latest ≡ true
        → P (clear_entries dir latest es disk))
    → (e.is_dir ≡ false
        → text_eq (under dir e.name) latest ≡ false
        → P (after dir latest es disk (remove (under dir e.name) disk)))
    → P (clear_entries dir latest (e ∷ es) disk)
unfolding clear_entries
clear_entries-cases P dir latest e es disk h k l = elim (Bool-cases e.is_dir) [
  | inl d ↦ rw (d, clear_entries) (h d)
  | inr d ↦ elim (Bool-cases (text_eq (under dir e.name) latest)) [
    | inl t ↦ rw (d, clear_entries) (rw (t, clear_entries) (k d t))
    | inr t ↦
        rw (d, clear_entries)
          (rw (t, clear_entries)
            (elim (remove (under dir e.name) disk)
                as (λ (o : Option Disk).
                  P (after dir latest es disk o)
                  → P (elim o as (λ x. Disk × Bool) [
                    | none ↦ (disk, false)
                    | some disk' ↦ clear_entries dir latest es disk'
                  ])) [ none ↦ λ p. p | some disk' ↦ λ p. p ]
              (l d t)))
  ]
]

module _ (dir latest : Text) where
  -- A path that is the latest one, or of another directory.
  abbrev pub Spared : Text → Type 0
  Spared q =
      (name : Text) → text_eq (under dir name) latest ≡ false → text_eq (under dir name) q ≡ false

  after-Spared :
      (q : Text) (e : DirEntry) (es : List DirEntry) (disk : Disk) (o : Option Disk)
      → remove (under dir e.name) disk ≡ o
      → text_eq (under dir e.name) q ≡ false
      → ((d : Disk) → lookup q (clear_entries dir latest es d).0.files ≡ lookup q d.files)
      → lookup q (after dir latest es disk o).0.files ≡ lookup q disk.files
  after-Spared q e es disk none r t ih = refl
  after-Spared q e es disk (some d) r t ih = ih d ∙ remove-some (under dir e.name) disk d r q ∙ rw t

  clear_entries-Spared :
      (q : Text) (es : List DirEntry) (disk : Disk)
      → Spared q
      → lookup q (clear_entries dir latest es disk).0.files ≡ lookup q disk.files
  unfolding clear_entries
  clear_entries-Spared q [] disk s = refl
  clear_entries-Spared q (e ∷ es) disk s =
      clear_entries-cases (λ r. lookup q r.0.files ≡ lookup q disk.files) dir latest e es disk
        (λ d. clear_entries-Spared q es disk s) (λ d t. clear_entries-Spared q es disk s)
        (λ d t.
          after-Spared q e es disk (remove (under dir e.name) disk) refl (s e.name t)
            (λ d'. clear_entries-Spared q es d' s))

  clear_entries-none :
      (q : Text) (es : List DirEntry) (disk : Disk)
      → lookup q disk.files ≡ none
      → lookup q (clear_entries dir latest es disk).0.files ≡ none
  unfolding clear_entries
  clear_entries-none q [] disk h = h
  clear_entries-none q (e ∷ es) disk h =
      clear_entries-cases (λ r. lookup q r.0.files ≡ none) dir latest e es disk
        (λ d. clear_entries-none q es disk h) (λ d t. clear_entries-none q es disk h)
        (λ d t.
          after-none e es disk (remove (under dir e.name) disk) refl h
            (λ d' h'. clear_entries-none q es d' h'))
    where
      after-none :
          (e : DirEntry) (es : List DirEntry) (disk : Disk) (o : Option Disk)
          → remove (under dir e.name) disk ≡ o
          → lookup q disk.files ≡ none
          → ((d : Disk)
              → lookup q d.files ≡ none
              → lookup q (clear_entries dir latest es d).0.files ≡ none)
          → lookup q (after dir latest es disk o).0.files ≡ none
      after-none e es disk none r h ih = h
      after-none e es disk (some d) r h ih =
          ih d (remove-some (under dir e.name) disk d r q ∙ ground (arith, h))

  clear_entries-gone :
      (e : DirEntry) (xs ys : List DirEntry) (disk : Disk)
      → e.is_dir ≡ false
      → text_eq (under dir e.name) latest ≡ false
      → (clear_entries dir latest (xs ++ e ∷ ys) disk).1 ≡ true
      → lookup (under dir e.name) (clear_entries dir latest (xs ++ e ∷ ys) disk).0.files ≡ none
  unfolding clear_entries
  clear_entries-gone e [] ys disk f n =
      clear_entries-cases (λ r. r.1 ≡ true → lookup (under dir e.name) r.0.files ≡ none) dir latest
        e ys disk (λ d. absurd (cc)) (λ d t. absurd (cc))
        (λ d t. after-gone (remove (under dir e.name) disk) refl)
    where
      after-gone :
          (o : Option Disk)
          → remove (under dir e.name) disk ≡ o
          → (after dir latest ys disk o).1 ≡ true
          → lookup (under dir e.name) (after dir latest ys disk o).0.files ≡ none
      after-gone none r h = absurd (cc)
      after-gone (some d) r h = clear_entries-none (under dir e.name) ys d (
          remove-some (under dir e.name) disk d r (under dir e.name)
          ∙ rw (text_eq_refl (under dir e.name)))
  clear_entries-gone e (x ∷ xs) ys disk f n =
      clear_entries-cases (λ r. r.1 ≡ true → lookup (under dir e.name) r.0.files ≡ none) dir latest
        x (xs ++ e ∷ ys) disk (λ d. clear_entries-gone e xs ys disk f n)
        (λ d t. clear_entries-gone e xs ys disk f n)
        (λ d t.
          after-gone (remove (under dir x.name) disk) (λ d'. clear_entries-gone e xs ys d' f n))
    where
      after-gone :
          (o : Option Disk)
          → ((d : Disk)
              → (clear_entries dir latest (xs ++ e ∷ ys) d).1 ≡ true
              → lookup (under dir e.name) (clear_entries dir latest (xs ++ e ∷ ys) d).0.files
                ≡ none)
          → (after dir latest (xs ++ e ∷ ys) disk o).1 ≡ true
          → lookup (under dir e.name) (after dir latest (xs ++ e ∷ ys) disk o).0.files ≡ none
      after-gone none ih h = absurd (cc)
      after-gone (some d) ih h = ih d h

  pub clear_old-Spared :
      (q : Text) (disk : Disk)
      → Spared q
      → lookup q (clear_old_processed_m3u dir latest disk).0.files ≡ lookup q disk.files
  unfolding clear_old_processed_m3u
  clear_old-Spared q disk s =
      elim (read_dir dir disk)
        as (λ (o : Option (List DirEntry)).
          lookup q
            (elim o as (λ x. Disk × Bool) [
              | none ↦ (disk, false)
              | some files ↦ clear_entries dir latest files disk
            ]).0.files
          ≡ lookup q disk.files) [ none ↦ refl | some es ↦ clear_entries-Spared q es disk s ]

  pub latest-Spared : Spared latest
  latest-Spared name h = h

-- The old playlists are cleared without an error. A file of the directory that is not the latest is then gone, and the latest
-- is what it was.
pub clear_old-only :
    (dir latest name content : Text) (disk : Disk)
    → contains disk.dirs dir ≡ true
    → has_slash name ≡ false
    → lookup (under dir name) disk.files ≡ some content
    → text_eq (under dir name) latest ≡ false
    → (clear_old_processed_m3u dir latest disk).1 ≡ true
    → let disk' = (clear_old_processed_m3u dir latest disk).0 in
      (lookup (under dir name) disk'.files ≡ none)
      × (lookup latest disk'.files ≡ lookup latest disk.files)
unfolding clear_old_processed_m3u
clear_old-only dir latest name content disk d p h n ok =
    let (es, r, (xs, ys, e)) = read_dir-Lists dir name p disk content d h in
    (gone es xs ys r e ok, clear_old-Spared dir latest latest disk (latest-Spared dir latest))
  where
    gone :
        (es xs ys : List DirEntry)
        → read_dir dir disk ≡ some es
        → es ≡ xs ++ file_entry name ∷ ys
        → (clear_old_processed_m3u dir latest disk).1 ≡ true
        → lookup (under dir name) (clear_old_processed_m3u dir latest disk).0.files ≡ none
    gone es xs ys r e =
        rw (r, clear_old_processed_m3u)
          (rw e (clear_entries-gone dir latest (file_entry name) xs ys disk refl n))
