-- ===== src/StreamUrls/Stored.antt =====
-- What is stored of an address, and what is found again.
use streamweaver.Prelude.{
  ℕ, ◌≡◌, ◌≢◌, refl, ap, ◌∙◌, Bool-cases, inl, inr, ◌⊎◌, text_eq, text_eq_iff, true, false, Option,
  none, some, [], ◌∷◌, ◌++◌, arith, All, All-append, Text, bytes, cut, strip_prefix, take, Table,
  lookup, lookup-put, text_eq_refl, ◌==◌, if◌then◌else◌,
}
use mathlib.Core.List.{append_assoc}
use streamweaver.LoadBalancer.Names.{base_name}
use streamweaver.Slug.Names.{Lacks, base_name-last, append-cons}
use streamweaver.Disk.{has_slash}
use streamweaver.Disk.Laws.{strip_prefix-append}
use streamweaver.Processing.{Parts, trim_space}
use streamweaver.StreamUrls.{
  Reader, file_prefix, is_match, hash_of, split_content, address_at, address_of, add_address,
  load_file, load_files,
}

==-false_comm : (c d : ℕ) → (d == c) ≡ false → (c == d) ≡ false
==-false_comm c d h = ground (arith, h)

cut-Lacks :
    (c : ℕ) (more t rest : Text)
    → Lacks c t
    → cut (c ∷ more) (t ++ (c ∷ more ++ rest)) ≡ some (t, rest)
unfolding cut
cut-Lacks c more [] rest h = rw (strip_prefix-append (c ∷ more) rest, cut) refl
cut-Lacks c more (d ∷ t) rest h =
    rw (==-false_comm c d h.0, cut) (rw (cut-Lacks c more t rest h.1, cut) refl)

cut-none : (c : ℕ) (t : Text) → Lacks c t → cut (c ∷ []) t ≡ none
unfolding cut strip_prefix
cut-none c [] h = refl
cut-none c (d ∷ t) h = rw (==-false_comm c d h.0, cut) (rw (cut-none c t h.1, cut) refl)

pub Lacks-has_slash : (t : Text) → Lacks b'/' t → has_slash t ≡ false
unfolding has_slash
Lacks-has_slash [] h = refl
Lacks-has_slash (c ∷ t) h = rw h.0 (Lacks-has_slash t h.1)

Lacks-take : (n c : ℕ) (t : Text) → Lacks c t → Lacks c (take n t)
Lacks-take ℕ.zero c t h = tt
Lacks-take (ℕ.suc n) c [] h = tt
Lacks-take (ℕ.suc n) c (d ∷ t) h = (h.0, Lacks-take n c t h.1)

module _ (parts : Parts) (reader : Reader) (title idx more h : Text) where
  -- The name of a file before the bar.
  abbrev pub stem : Text
  stem = parts.encode title ++ bytes "_" ++ (idx ++ more)

  abbrev place : Text
  place = parts.streams_dir ++ bytes "/" ++ take 3 h

  abbrev pub stored_path : Text
  stored_path =
      parts.streams_dir
      ++ bytes "/"
      ++ take 3 h
      ++ bytes "/"
      ++ parts.encode title
      ++ bytes "_"
      ++ (idx ++ more)
      ++ bytes "|"
      ++ h

  stored_path-name : stored_path ≡ place ++ b'/' ∷ (stem ++ b'|' ∷ h)
  stored_path-name = simp append_assoc refl

  -- A file that was stored for the index followed by `more` fits the pattern of the index.
  pub stored-is_match :
      Lacks b'/' (parts.encode title)
      → Lacks b'/' more
      → Lacks b'/' h
      → is_match parts reader (file_prefix parts reader title idx) stored_path ≡ true
  unfolding is_match file_prefix
  stored-is_match le lm lh =
      let tail = more ++ b'|' ∷ h in
      let prefix = parts.encode title ++ bytes "_" ++ idx in
      let plain : has_slash tail ≡ false =
        Lacks-has_slash tail
          (All-append (λ d. (d == b'/') ≡ false) more (b'|' ∷ h) lm (refl, lh)) in
      rw (split, is_match)
        (rw (cut-Lacks b'/' [] (take 3 h) (prefix ++ tail) (Lacks-take 3 b'/' h lh), is_match)
          (rw (strip_prefix-append prefix tail, is_match) (rw plain refl)))
    where
      split :
          strip_prefix (parts.streams_dir ++ bytes "/") stored_path
          ≡ some (
              take 3 h
              ++ (b'/' ∷ [] ++ ((parts.encode title ++ bytes "_" ++ idx) ++ (more ++ b'|' ∷ h))))
      split =
          ap (strip_prefix (parts.streams_dir ++ bytes "/")) apart
          ∙ strip_prefix-append (parts.streams_dir ++ bytes "/") (
              take 3 h
              ++ (b'/' ∷ [] ++ ((parts.encode title ++ bytes "_" ++ idx) ++ (more ++ b'|' ∷ h))))
        where
          apart :
              stored_path
              ≡ (parts.streams_dir ++ bytes "/")
                ++ (take 3 h
                    ++ (b'/' ∷ []
                        ++ ((parts.encode title ++ bytes "_" ++ idx) ++ (more ++ b'|' ∷ h))))
          apart = simp append_assoc refl

  pub stored-hash_of :
      Lacks b'/' stem
      → Lacks b'|' stem
      → Lacks b'/' h
      → Lacks b'|' h
      → hash_of parts reader stored_path ≡ some h
  unfolding hash_of
  stored-hash_of ls lb lh lc =
      let name = stem ++ b'|' ∷ h in
      let base : base_name stored_path ≡ name =
        ap base_name stored_path-name
        ∙ base_name-last place name (append-cons stem b'|' h)
            (All-append (λ d. (d == b'/') ≡ false) stem (b'|' ∷ h) ls (refl, lh)) in
      rw (base, hash_of)
        (rw (cut-Lacks b'|' [] stem h lb, hash_of) (rw (cut-none b'|' h lc, hash_of) refl))

  pub stored-address_of :
      (number url : Text)
      → Lacks b':' number
      → reader.decode (parts.encode url) ≡ some url
      → address_of parts reader (number ++ bytes ":::" ++ parts.encode url)
        ≡ some (trim_space (number ++ bytes ":::" ++ url))
  unfolding address_of
  stored-address_of number url l d =
      let split : split_content parts reader (number ++ bytes ":::" ++ parts.encode url)
          ≡ (number, parts.encode url) =
        split_content-number number (parts.encode url) l in
      ap (address_at parts reader) split ∙ rw (d, address_at) refl
    where
      split_content-number :
          (number text : Text)
          → Lacks b':' number
          → split_content parts reader (number ++ bytes ":::" ++ text) ≡ (number, text)
      split_content-number number text l =
          unfold split_content in
          rw (append_assoc number (bytes ":::") text)
            (rw (cut-Lacks b':' (bytes "::") number text l, split_content) refl)

  -- No file but this one has its hash.
  abbrev pub Others : Table Text → Type 0
  Others = All (λ f. hash_of parts reader f.0 ≢ some h)

  load_file-other :
      (prefix path content : Text) (urls : Table Text)
      → hash_of parts reader path ≢ some h
      → lookup h (load_file parts reader prefix path content urls) ≡ lookup h urls
  unfolding load_file
  load_file-other prefix path content urls n =
      elim (Bool-cases (is_match parts reader prefix path)) [
        | inl m ↦
            rw m (add_address-other (hash_of parts reader path) (address_of parts reader content) n)
        | inr m ↦ rw m refl
      ]
    where
      add_address-other :
          (o a : Option Text)
          → o ≢ some h
          → lookup h (add_address parts reader o a urls) ≡ lookup h urls
      add_address-other none a n = refl
      add_address-other (some g) none n = refl
      add_address-other (some g) (some address) n =
          lookup-put g h address urls ∙ other (Bool-cases (text_eq g h))
        where
          other :
              (text_eq g h ≡ true) ⊎ (text_eq g h ≡ false)
              → (if text_eq g h then some address else lookup h urls) ≡ lookup h urls
          other (inl e) = absurd (n (ap some ((text_eq_iff g h).0 e)))
          other (inr e) = rw e refl

  load_files-Others :
      (prefix : Text) (files urls : Table Text)
      → Others files
      → lookup h (load_files parts reader prefix files urls) ≡ lookup h urls
  unfolding load_files
  load_files-Others prefix [] urls o = refl
  load_files-Others prefix ((path, content) ∷ files) urls o =
      load_files-Others prefix files (load_file parts reader prefix path content urls) o.1
      ∙ load_file-other prefix path content urls o.0

  load_files-append :
      (prefix : Text) (xs ys urls : Table Text)
      → load_files parts reader prefix (xs ++ ys) urls
        ≡ load_files parts reader prefix ys (load_files parts reader prefix xs urls)
  unfolding load_files
  load_files-append prefix [] ys urls = refl
  load_files-append prefix ((path, content) ∷ xs) ys urls =
      load_files-append prefix xs ys (load_file parts reader prefix path content urls)

  load_file-found :
      (prefix path content address : Text) (urls : Table Text)
      → is_match parts reader prefix path ≡ true
      → hash_of parts reader path ≡ some h
      → address_of parts reader content ≡ some address
      → lookup h (load_file parts reader prefix path content urls) ≡ some address
  unfolding load_file
  load_file-found prefix path content address urls m g a =
      rw (m, load_file)
        (rw (g, load_file)
          (rw (a, load_file) (lookup-put h h address urls ∙ rw (text_eq_refl h) refl)))

  -- The stored file among others, in whatever order.
  pub load_files-found :
      (prefix content address : Text) (xs ys : Table Text)
      → is_match parts reader prefix stored_path ≡ true
      → hash_of parts reader stored_path ≡ some h
      → address_of parts reader content ≡ some address
      → Others ys
      → lookup h (load_files parts reader prefix (xs ++ (stored_path, content) ∷ ys) [])
        ≡ some address
  unfolding load_files
  load_files-found prefix content address xs ys m g a o =
      ap (lookup h) (load_files-append prefix xs ((stored_path, content) ∷ ys) [])
      ∙ load_files-Others prefix ys
          (load_file parts reader prefix stored_path content (load_files parts reader prefix xs []))
          o
      ∙ load_file-found prefix stored_path content address (load_files parts reader prefix xs []) m
          g a
