-- ===== src/StreamUrls/RoundTrip.antt =====
-- From the lines of a source to the addresses that the load balancer gets.
use streamweaver.Prelude.{
  ℕ, ◌≡◌, ◌≢◌, refl, ap, ◌∙◌, subst, false, none, some, [], ◌∷◌, ◌++◌, All, All-append, Text, bytes,
  is_empty, Table, lookup, put, ◌==◌,
}
use mathlib.Core.List.{append-nil}
use streamweaver.Slug.Names.{Lacks}
use streamweaver.Disk.{has_slash}
use streamweaver.Processing.{
  Parts, LineDetails, trim_space, with_attributes, new_stream, titled, file_path, parse_line,
}
use streamweaver.StreamUrls.{Reader, hash_of, load_files, load_stream_urls, file_prefix}
use streamweaver.StreamUrls.Stored.{
  Lacks-has_slash, Others, stem, stored-is_match, stored-hash_of, stored-address_of,
  load_files-found,
}

-- The title that parseLine finds in the head of an entry.
abbrev pub title_of : Parts → Text → Text
title_of parts line =
    let (s, rest) = with_attributes parts (parts.find_attributes line) (new_stream parts) line in
    (titled parts rest s).title

-- The parts of a name, which keep to the form of a file's name.
pub record IsPlain (s : Text) : Type 0 where
  pub no_slash : Lacks b'/' s
  pub no_bar : Lacks b'|' s

stem-Lacks :
    (c : ℕ) (a b d : Text)
    → (b'_' == c) ≡ false
    → Lacks c a
    → Lacks c b
    → Lacks c d
    → Lacks c (a ++ bytes "_" ++ (b ++ d))
stem-Lacks c a b d h la lb ld =
    All-append (λ x. (x == c) ≡ false) (a ++ bytes "_") (b ++ d)
      (All-append (λ x. (x == c) ≡ false) a (bytes "_") la (h, tt))
      (All-append (λ x. (x == c) ≡ false) b d lb ld)

module _ (parts : Parts) (reader : Reader) where
  parse_line-stores :
      (files : Table Text) (line : Text) (next : LineDetails) (m3u_index : Text)
      → let title = title_of parts line in
        let url = trim_space next.content in
        let path = file_path parts title m3u_index url in
        is_empty title ≡ false
        → has_slash (parts.encode title ++ bytes "_" ++ m3u_index) ≡ false
        → lookup path files ≡ none
        → (parse_line parts files line next m3u_index).1
          ≡ put path (parts.decimal next.line_num ++ bytes ":::" ++ parts.encode url) files
  unfolding parse_line
  parse_line-stores files line next m3u_index e p n =
      rw (e, parse_line) (rw (n, parse_line) (rw p refl))

  -- A file that is stored under the index with `more` after it is loaded with the index alone.
  stored-loaded :
      (files xs ys : Table Text) (line : Text) (next : LineDetails) (idx more : Text)
      → let title = title_of parts line in
        let url = trim_space next.content in
        let h = parts.url_hash url in
        let number = parts.decimal next.line_num in
        let path = file_path parts title (idx ++ more) url in
        let content = number ++ bytes ":::" ++ parts.encode url in
        is_empty title ≡ false
        → lookup path files ≡ none
        → IsPlain (parts.encode title)
        → IsPlain idx
        → IsPlain more
        → IsPlain h
        → Lacks b':' number
        → reader.decode (parts.encode url) ≡ some url
        → reader.glob (put path content files) ≡ xs ++ (path, content) ∷ ys
        → Others parts reader title idx more h ys
        → lookup h (
            load_stream_urls parts reader
              (parse_line parts files line next (idx ++ more)).1
              title
              idx)
          ≡ some (trim_space (number ++ bytes ":::" ++ url))
  unfolding load_stream_urls file_path
  stored-loaded files xs ys line next idx more e n lt li lm lh ln d g o =
      let title = title_of parts line in
      let url = trim_space next.content in
      let h = parts.url_hash url in
      let number = parts.decimal next.line_num in
      let content = number ++ bytes ":::" ++ parts.encode url in
      let prefix = file_prefix parts reader title idx in
      let slash =
        stem-Lacks b'/' (parts.encode title) idx more refl lt.no_slash li.no_slash lm.no_slash in
      let bar = stem-Lacks b'|' (parts.encode title) idx more refl lt.no_bar li.no_bar lm.no_bar in
      ap (λ (fs : Table Text). lookup h (load_files parts reader prefix (reader.glob fs) []))
        (parse_line-stores files line next (idx ++ more) e
          (Lacks-has_slash (stem parts reader title idx more h) slash) n)
      ∙ ap (λ (fs : Table Text). lookup h (load_files parts reader prefix fs [])) g
      ∙ load_files-found parts reader title idx more h prefix content
          (trim_space (number ++ bytes ":::" ++ url)) xs ys
          (stored-is_match parts reader title idx more h lt.no_slash lm.no_slash lh.no_slash)
          (stored-hash_of parts reader title idx more h slash bar lh.no_slash lh.no_bar)
          (stored-address_of parts reader title idx more h number url ln d) o

  -- The address of an entry is stored, and loaded again for its title and index: under the hash of the address is its line
  -- number with the address. The head of the entry has a title. The names have no slash and no bar, the number has no
  -- colon, and base64 decodes what it has encoded. No such file was there before, Glob lists it, and no file that it lists
  -- after it has the same hash.
  pub parse_line-load :
      (files xs ys : Table Text) (line : Text) (next : LineDetails) (idx : Text)
      → let title = title_of parts line in
        let url = trim_space next.content in
        let h = parts.url_hash url in
        let number = parts.decimal next.line_num in
        let path = file_path parts title idx url in
        let content = number ++ bytes ":::" ++ parts.encode url in
        is_empty title ≡ false
        → IsPlain (parts.encode title)
        → IsPlain idx
        → IsPlain h
        → Lacks b':' number
        → reader.decode (parts.encode url) ≡ some url
        → All (λ f. hash_of parts reader f.0 ≢ some h) ys
        → lookup path files ≡ none
        → reader.glob (put path content files) ≡ xs ++ (path, content) ∷ ys
        → lookup h
            (load_stream_urls parts reader (parse_line parts files line next idx).1 title idx)
          ≡ some (trim_space (number ++ bytes ":::" ++ url))
  parse_line-load files xs ys line next idx e lt li lh ln d o =
      let title = title_of parts line in
      let url = trim_space next.content in
      let h = parts.url_hash url in
      let number = parts.decimal next.line_num in
      let content = number ++ bytes ":::" ++ parts.encode url in
      subst
        (λ (full : Text).
          lookup (file_path parts title full url) files ≡ none
          → reader.glob (put (file_path parts title full url) content files)
            ≡ xs ++ (file_path parts title full url, content) ∷ ys
          → lookup h
              (load_stream_urls parts reader (parse_line parts files line next full).1 title idx)
            ≡ some (trim_space (number ++ bytes ":::" ++ url)))
        (append-nil idx)
        (λ n g.
          stored-loaded files xs ys line next idx [] e n lt li
            (record { no_slash = tt; no_bar = tt }) lh ln d g o)

  longer : (idx more : Text) (c : ℕ) → idx ≢ idx ++ c ∷ more
  longer [] more c h = absurd (cc)
  longer (b ∷ idx) more c h = longer idx more c (ap (λ (t : Text). rest_of t) h)
    where
      rest_of : Text → Text
      rest_of [] = []
      rest_of (b ∷ t) = t

  -- The same for an index of which another index is the start, such as 10 of 1: what is stored for the longer index is
  -- loaded as an address of the shorter one.
  pub parse_line-other_index :
      (files xs ys : Table Text) (line : Text) (next : LineDetails) (idx : Text) (c : ℕ)
      (more : Text)
      → let title = title_of parts line in
        let url = trim_space next.content in
        let h = parts.url_hash url in
        let number = parts.decimal next.line_num in
        let stored_index = idx ++ c ∷ more in
        let path = file_path parts title stored_index url in
        let content = number ++ bytes ":::" ++ parts.encode url in
        is_empty title ≡ false
        → IsPlain (parts.encode title)
        → IsPlain idx
        → IsPlain (c ∷ more)
        → IsPlain h
        → Lacks b':' number
        → reader.decode (parts.encode url) ≡ some url
        → All (λ f. hash_of parts reader f.0 ≢ some h) ys
        → lookup path files ≡ none
        → reader.glob (put path content files) ≡ xs ++ (path, content) ∷ ys
        → (idx ≢ stored_index)
          × (lookup h (
                load_stream_urls parts reader
                  (parse_line parts files line next stored_index).1
                  title
                  idx)
              ≡ some (trim_space (number ++ bytes ":::" ++ url)))
  parse_line-other_index files xs ys line next idx c more e lt li lm lh ln d o n g = (
    longer idx more c,
    stored-loaded files xs ys line next idx (c ∷ more) e n lt li lm lh ln d g o,
  )
