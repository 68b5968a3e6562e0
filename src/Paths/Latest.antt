-- ===== src/Paths/Latest.antt =====
-- What the newest processed playlist is taken to be.
use streamweaver.Prelude.{
  ℕ, suc, ◌≤◌, ◌<◌, ◌≡◌, refl, ap, ◌∙◌, true, false, none, some, List, [], ◌∷◌, ◌++◌, ◌-◌, arith,
  Text, bytes, has_suffix, All, length, get_elem?, length-append,
}
use streamweaver.Disk.{Disk, DirEntry, read_dir}
use streamweaver.Paths.{
  found, panicked, name_of, valid_files, latest_of, get_latest_processed_m3u_path,
}

abbrev pub IsTmp : DirEntry → Type 0
IsTmp e = has_suffix e.name (bytes ".tmp") ≡ true

length-valid-le : (es : List DirEntry) → length (valid_files es) ≤ length es
unfolding valid_files
length-valid-le [] = omega arith
length-valid-le (e ∷ es) = ground (arith, length-valid-le es)

length-valid-lt :
    (xs ys : List DirEntry) (e : DirEntry)
    → IsTmp e
    → length (valid_files (xs ++ e ∷ ys)) < length (xs ++ e ∷ ys)
unfolding valid_files
length-valid-lt [] ys e t = rw t (omega (arith, length-valid-le ys))
length-valid-lt (x ∷ xs) ys e t = ground (arith, length-valid-lt xs ys e t)

get_elem?-none_of_le {ℓ} :
    {A : Type ℓ} (xs : List A) (i : ℕ) → length xs ≤ i → get_elem? xs i ≡ none
get_elem?-none_of_le [] i h = refl
get_elem?-none_of_le (x ∷ xs) ℕ.zero h = absurd (omega arith)
get_elem?-none_of_le (x ∷ xs) (suc i) h = get_elem?-none_of_le xs i (omega arith)

-- What latest_of does with entries, of which there is one.
latest_of-cons :
    (es : List DirEntry)
    → 0 < length es
    → latest_of es ≡ name_of (get_elem? (valid_files es) (length es - 1))
unfolding latest_of
latest_of-cons [] h = absurd (omega arith)
latest_of-cons (e ∷ es) h = refl

length-middle-pos : (xs ys : List DirEntry) (e : DirEntry) → 0 < length (xs ++ e ∷ ys)
length-middle-pos [] ys e = omega arith
length-middle-pos (x ∷ xs) ys e = omega arith

-- A directory of processed playlists that lists a temporary file, at whatever place: to look for the newest playlist panics.
pub get_latest-tmp :
    (dir : Text) (disk : Disk) (xs ys : List DirEntry) (e : DirEntry)
    → read_dir dir disk ≡ some (xs ++ e ∷ ys)
    → IsTmp e
    → get_latest_processed_m3u_path dir disk ≡ panicked
unfolding get_latest_processed_m3u_path
get_latest-tmp dir disk xs ys e r t =
    let es = xs ++ e ∷ ys in
    rw (r, get_latest_processed_m3u_path)
      (latest_of-cons es (length-middle-pos xs ys e)
        ∙ ap name_of (
            get_elem?-none_of_le (valid_files es) (length es - 1)
              (omega (arith, length-valid-lt xs ys e t))))

valid_files-none :
    (es : List DirEntry)
    → All (λ e. has_suffix e.name (bytes ".tmp") ≡ false) es
    → valid_files es ≡ es
unfolding valid_files
valid_files-none [] a = refl
valid_files-none (e ∷ es) a = rw (a.0, valid_files-none es a.1)

get_elem?-last {ℓ} :
    {A : Type ℓ} (xs : List A) (x : A) (i : ℕ) → i ≡ length xs → get_elem? (xs ++ x ∷ []) i ≡ some x
get_elem?-last [] x i h = rw h
get_elem?-last (y ∷ xs) x i h = rw h (get_elem?-last xs x (length xs) refl)

-- Without a temporary file it is the last name of the directory, without the path of the directory.
pub get_latest-last :
    (dir : Text) (disk : Disk) (xs : List DirEntry) (e : DirEntry)
    → read_dir dir disk ≡ some (xs ++ e ∷ [])
    → All (λ e. has_suffix e.name (bytes ".tmp") ≡ false) (xs ++ e ∷ [])
    → get_latest_processed_m3u_path dir disk ≡ found e.name
unfolding get_latest_processed_m3u_path
get_latest-last dir disk xs e r a =
    let es = xs ++ e ∷ [] in
    rw (r, get_latest_processed_m3u_path)
      (latest_of-cons es (length-middle-pos xs [] e)
        ∙ ap (λ fs. name_of (get_elem? fs (length es - 1))) (valid_files-none es a)
        ∙ ap name_of
            (get_elem?-last xs e (length es - 1) (omega (arith, length-append xs (e ∷ [])))))
