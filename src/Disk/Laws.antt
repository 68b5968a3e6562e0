-- ===== src/Disk/Laws.antt =====
-- What a directory lists, and what stays of the files.
use streamweaver.Prelude.{
  ◌≡◌, refl, ap, Bool-cases, inl, inr, true, false, Option, none, some, List, [], ◌∷◌, ◌++◌, arith,
  Text, bytes, text_eq, text_eq_iff, text_lt, strip_prefix, contains, Table, lookup, lookup-put,
  lookup-without, put, without, ==_iff, if◌then◌else◌,
}
use streamweaver.Disk.{
  Disk, DirEntry, remove, rename, under, has_slash, name_in, insert_entry, file_entries,
  dir_entries, read_dir,
}

-- An entry stands somewhere among others.
abbrev pub Lists : DirEntry → List DirEntry → Type 0
Lists e es = (xs : List DirEntry) × (ys : List DirEntry) × (es ≡ xs ++ e ∷ ys)

pub strip_prefix-append : (p s : Text) → strip_prefix p (p ++ s) ≡ some s
unfolding strip_prefix
strip_prefix-append [] s = refl
strip_prefix-append (c ∷ p) s = rw ((==_iff c c).1 refl) (strip_prefix-append p s)

strip_prefix-under :
    (dir name : Text) → strip_prefix (dir ++ bytes "/") (under dir name) ≡ some name
unfolding strip_prefix
strip_prefix-under [] name = refl
strip_prefix-under (c ∷ dir) name = rw ((==_iff c c).1 refl) (strip_prefix-under dir name)

pub name_in-under :
    (dir name : Text) → has_slash name ≡ false → name_in dir (under dir name) ≡ some name
unfolding name_in
name_in-under dir name h = rw (strip_prefix-under dir name, name_in, h)

insert_entry-Lists : (e : DirEntry) (es : List DirEntry) → Lists e (insert_entry e es)
unfolding insert_entry
insert_entry-Lists e [] = ([], [], refl)
insert_entry-Lists e (f ∷ fs) = elim (Bool-cases (text_lt f.name e.name)) [
  | inl lt ↦ let (xs, ys, h) = insert_entry-Lists e fs in rw lt (f ∷ xs, ys, ap (λ gs. f ∷ gs) h)
  | inr ge ↦ rw ge ([], f ∷ fs, refl)
]

insert_entry-keeps :
    (d e : DirEntry) (xs ys : List DirEntry) → Lists e (insert_entry d (xs ++ e ∷ ys))
unfolding insert_entry
insert_entry-keeps d e [] ys = elim (Bool-cases (text_lt e.name d.name)) [
  | inl lt ↦ rw lt ([], insert_entry d ys, refl)
  | inr ge ↦ rw ge (d ∷ [], ys, refl)
]
insert_entry-keeps d e (x ∷ xs) ys = elim (Bool-cases (text_lt x.name d.name)) [
  | inl lt ↦
      let (before, after, h) = insert_entry-keeps d e xs ys in
      rw lt (x ∷ before, after, ap (λ gs. x ∷ gs) h)
  | inr ge ↦ rw ge (d ∷ x ∷ xs, ys, refl)
]

insert_entry-Lists_other :
    (d e : DirEntry) (es : List DirEntry) → Lists e es → Lists e (insert_entry d es)
insert_entry-Lists_other d e es (xs, ys, h) = rw h (insert_entry-keeps d e xs ys)

-- A file by the name in its directory.
abbrev pub file_entry : Text → DirEntry
file_entry name = record { name = name; is_dir = false }

module _ (dir name : Text) (plain : has_slash name ≡ false) where
  file_entries-Lists :
      (files : Table Text) (content : Text)
      → lookup (under dir name) files ≡ some content
      → Lists (file_entry name) (file_entries dir files)
  unfolding file_entries lookup
  file_entries-Lists [] content h = absurd (cc)
  file_entries-Lists ((path, c) ∷ files) content h =
      elim (Bool-cases (text_eq path (under dir name))) [
        | inl e ↦ rw ((text_eq_iff path (under dir name)).0 e) (
            rw (name_in-under dir name plain, file_entries)
              (insert_entry-Lists (file_entry name) (file_entries dir files)))
        | inr ne ↦
            let ih = file_entries-Lists files content (rw ne at h) in
            elim (name_in dir path)
              as (λ (o : Option Text). Lists (file_entry name) (elim o as (λ x. List DirEntry) [
                | none ↦ file_entries dir files
                | some n ↦
                    insert_entry (record { name = n; is_dir = false }) (file_entries dir files)
              ])) [
                | none ↦ ih
                | some n ↦
                    insert_entry-Lists_other (file_entry n) (file_entry name)
                      (file_entries dir files) ih
              ]
      ]

  dir_entries-Lists :
      (dirs : List Text) (es : List DirEntry)
      → Lists (file_entry name) es
      → Lists (file_entry name) (dir_entries dir dirs es)
  unfolding dir_entries
  dir_entries-Lists [] es h = h
  dir_entries-Lists (path ∷ dirs) es h =
      let ih = dir_entries-Lists dirs es h in
      elim (name_in dir path)
        as (λ (o : Option Text). Lists (file_entry name) (elim o as (λ x. List DirEntry) [
          | none ↦ dir_entries dir dirs es
          | some n ↦ insert_entry (record { name = n; is_dir = true }) (dir_entries dir dirs es)
        ])) [
          | none ↦ ih
          | some n ↦
              insert_entry-Lists_other (record { name = n; is_dir = true }) (file_entry name)
                (dir_entries dir dirs es) ih
        ]

  -- A file of a directory is in its list.
  pub read_dir-Lists :
      (disk : Disk) (content : Text)
      → contains disk.dirs dir ≡ true
      → lookup (under dir name) disk.files ≡ some content
      → (es : List DirEntry) × (read_dir dir disk ≡ some es) × Lists (file_entry name) es
  unfolding read_dir
  read_dir-Lists disk content d h = (
    dir_entries dir disk.dirs (file_entries dir disk.files),
    rw d,
    dir_entries-Lists disk.dirs (file_entries dir disk.files)
        (file_entries-Lists disk.files content h),
  )

-- What a removal leaves, if there is no error.
pub remove-some :
    (path : Text) (disk disk' : Disk)
    → remove path disk ≡ some disk'
    → (q : Text) → lookup q disk'.files ≡ (if text_eq path q then none else lookup q disk.files)
unfolding remove
remove-some path disk disk' h q = ground (arith, h, lookup-without path q disk.files)

-- What a renaming leaves, if there is no error.
pub rename-some :
    (from to : Text) (disk disk' : Disk)
    → rename from to disk ≡ some disk'
    → (q : Text)
    → lookup q disk'.files ≡ (
        if text_eq to q
        then lookup from disk.files
        else if text_eq from q
        then none
        else lookup q disk.files)
unfolding rename
rename-some from to disk disk' h q = grind (arith, lookup-put, lookup-without)

pub rename-ok :
    (from to content : Text) (disk : Disk)
    → lookup from disk.files ≡ some content
    → disk.broken from ≡ false
    → disk.broken to ≡ false
    → rename from to disk ≡ some (record disk { files = put to content (without from disk.files) })
unfolding rename
rename-ok from to content disk h b b' = rw (h, rename) (rw (b, b'))
