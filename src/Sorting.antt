-- ===== src/Sorting.antt =====
-- sourceproc/sorting.go: the channels by title, in shards with a buffer and a file, and the keys by which the
-- playlist is sorted. A shard is one of 4096; which one a title has, by xxhash, does not matter here.
-- Errors of files are left out.
pub mod Entries
mod Laws
pub mod Titles
mod Examples
use streamweaver.Prelude.{
  ℕ, suc, Bool, true, false, ◌||◌, ◌&&◌, Option, none, some, List, [], ◌∷◌, ◌++◌, map, Text, bytes,
  text_eq, text_lt, is_empty, contains, Table, lookup, put, take, length, leb, ltb, ◌==◌, ℤ, atoi,
  ◌-ℤ◌, wrap64, not, pos, if◌then◌else◌,
}
use streamweaver.StreamInfo.{StreamInfo}

-- The Replacer: a byte each, and a space is left out.
unfoldable pub replaced : Text → Text
unfolding contains
replaced [] = []
replaced (c ∷ s) =
    let rest = replaced s in
    if c == b' '
    then rest
    else if c == b'/'
        || c == b'\\'
        || c == b':'
        || c == b'*'
        || c == b'?'
        || c == b'"'
        || c == b'<'
        || c == b'>'
        || c == b'|'
    then b'_' ∷ rest
    else c ∷ rest

unfoldable pub sanitize_field : Text → Text
unfolding replaced
sanitize_field value = let s = replaced value in if ltb 100 (length s) then take 100 s else s

unfoldable pub reverse_lexicographical : Text → Text
reverse_lexicographical value = b'~' ∷ value

unfoldable pub normalize_string_field : Text → Text → Text
unfolding sanitize_field reverse_lexicographical text_eq
normalize_string_field value direction =
    if text_eq direction (bytes "desc") then reverse_lexicographical value else sanitize_field value

-- `pad width n` is fmt.Sprintf("%0*d", width, n).
module _ (pad : ℕ → ℤ → Text) where
  unfoldable pub normalize_numeric_field : Text → ℕ → Text → Text
  unfolding sanitize_field text_eq atoi ◌-ℤ◌ wrap64
  normalize_numeric_field value width direction =
      let (num, valid) = atoi value in
      if not valid
      then sanitize_field value
      else if text_eq direction (bytes "desc")
      then pad width (wrap64 (pos 2147483647 -ℤ num))
      else pad width num

  unfoldable pub get_sort_key : StreamInfo → Text → Text → Text
  unfolding normalize_numeric_field normalize_string_field text_eq
  get_sort_key s sorting_key direction =
      if text_eq sorting_key (bytes "tvg-id")
      then normalize_numeric_field s.tvg_id 10 direction
      else if text_eq sorting_key (bytes "tvg-chno")
          || text_eq sorting_key (bytes "channel-id")
          || text_eq sorting_key (bytes "channel-number")
      then normalize_numeric_field s.tvg_ch_no 10 direction
      else if text_eq sorting_key (bytes "tvg-group") || text_eq sorting_key (bytes "group-title")
      then normalize_string_field s.group direction
      else if text_eq sorting_key (bytes "tvg-type")
      then normalize_string_field s.tvg_type direction
      else if text_eq sorting_key (bytes "source")
      then normalize_numeric_field s.source_m3u 5 direction
      else normalize_string_field s.title direction

abbrev pub either : Text → Text → Text
either base new = if is_empty base then new else base

unfoldable pub put_all : Table Text → Table Text → Table Text
unfolding put
put_all [] m = m
put_all ((k, v) ∷ rest) m = put_all rest (put k v m)

-- Each inner map is joined to the one of its key.
unfoldable pub merge_urls : Table (Table Text) → Table (Table Text) → Table (Table Text)
unfolding put_all lookup put
merge_urls [] m = m
merge_urls ((k, v) ∷ rest) m =
    merge_urls rest (put k (elim (lookup k m) [ none ↦ v | some old ↦ put_all v old ]) m)

-- A base that was read from a file has no map, and gets one. A new entry without a map is a panic, `none`.
abbrev pub urls_of : Option (Table (Table Text)) → Table (Table Text)
urls_of none = []
urls_of (some m) = m

unfoldable pub merge_stream_info_attributes : StreamInfo → StreamInfo → Option StreamInfo
unfolding merge_urls is_empty text_lt text_eq
merge_stream_info_attributes base new =
    let earlier =
      text_lt new.source_m3u base.source_m3u
      || text_eq new.source_m3u base.source_m3u && ltb new.source_index base.source_index in
    elim new.urls [
      | none ↦ none
      | some urls ↦ some (record {
        title = either base.title new.title;
        tvg_id = either base.tvg_id new.tvg_id;
        tvg_ch_no = either base.tvg_ch_no new.tvg_ch_no;
        tvg_type = either base.tvg_type new.tvg_type;
        logo_url = either base.logo_url new.logo_url;
        group = either base.group new.group;
        urls = some (merge_urls urls (urls_of base.urls));
        source_m3u = if earlier then new.source_m3u else base.source_m3u;
        source_index = if earlier then new.source_index else base.source_index;
      })
    ]

-- The file is none where there is no such file. `crashed` says that an operation has ended in a panic, and with it the
-- program.
pub record Shard : Type 0 where
  pub index : List Text
  pub buffer : Table StreamInfo
  pub file : Option (Table StreamInfo)
  pub crashed : Bool

unfoldable pub new_shard : Shard
new_shard = record { index = []; buffer = []; file = none; crashed = false }

unfoldable pub read_shard : Shard → Table StreamInfo
read_shard d = elim d.file [ none ↦ [] | some entries ↦ entries ]

unfoldable pub keys : Table StreamInfo → List Text
keys = map (λ (e : Text × StreamInfo). e.0)

unfoldable pub store_all : Table StreamInfo → Table StreamInfo → Table StreamInfo
unfolding put
store_all [] m = m
store_all ((k, s) ∷ rest) m = store_all rest (put k s m)

-- The keys of a map are written in their order.
unfoldable pub insert_key : Text → StreamInfo → Table StreamInfo → Table StreamInfo
unfolding text_lt
insert_key k s [] = (k, s) ∷ []
insert_key k s ((j, t) ∷ m) =
    let rest = insert_key k s m in if text_lt j k then (j, t) ∷ rest else (k, s) ∷ (j, t) ∷ m

unfoldable pub by_key : Table StreamInfo → Table StreamInfo
unfolding insert_key
by_key [] = []
by_key ((k, s) ∷ m) = insert_key k s (by_key m)

-- What encoding/json reads of what it has written: of an entry, here of a well-formed one, of which the addresses are not
-- written, and of the key of a map, where bytes that are no UTF-8 are replaced.
pub record Json : Type 0 where
  pub entry : StreamInfo → StreamInfo
  pub key : Text → Text

module _ (json : Json) where
  abbrev pub kept : Text × StreamInfo → Text × StreamInfo
  kept e = (json.key e.0, json.entry e.1)

  -- Of keys that become the same the last is read.
  unfoldable pub write_shard : Table StreamInfo → Shard → Shard
  unfolding store_all by_key
  write_shard entries d = record d { file = some (store_all (map kept (by_key entries)) []) }

  unfoldable pub handle_existing : Text → StreamInfo → Shard → Shard
  unfolding write_shard read_shard merge_stream_info_attributes lookup put
  handle_existing title s d =
      let entries = read_shard d in
      elim (lookup title entries) [
        | none ↦ write_shard (put title s entries) d
        | some existing ↦ elim (merge_stream_info_attributes existing s) [
          | none ↦ record d { crashed = true }
          | some merged ↦ write_shard (put title merged entries) d
        ]
      ]

  unfoldable pub flush_shard : Shard → Shard
  unfolding write_shard read_shard store_all
  flush_shard d = elim d.buffer [
    | [] ↦ d
    | e ∷ es ↦ record (write_shard (store_all d.buffer (read_shard d)) d) { buffer = [] }
  ]

  unfoldable pub buffered : Text → StreamInfo → Shard → Shard
  unfolding flush_shard put
  buffered title s d =
      let d' : Shard = record d {
        buffer = put title (json.entry s) d.buffer;
        index = title ∷ d.index;
      } in
      if leb 250 (length d'.buffer) then flush_shard d' else d'

  unfoldable pub add_to_sorter : StreamInfo → Shard → Shard
  unfolding handle_existing buffered sanitize_field keys read_shard contains
  add_to_sorter s d =
      let title = sanitize_field s.title in
      let seen : Shard = elim d.file [
        | none ↦ d
        | some entries ↦ record d { index = keys entries ++ d.index }
      ] in
      if contains d.index title
      then handle_existing title s d
      else if contains seen.index title
      then handle_existing title s seen
      else buffered title s seen
