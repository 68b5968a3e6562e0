-- ===== src/Sorting/Examples.antt =====
-- A title that is met twice, and two titles in two shards.
use streamweaver.Prelude.{
  ◌≡◌, refl, arith, leb, if◌then◌else◌, false, none, some, List, [], ◌∷◌, Text, bytes, map,
  contains, text_lt, insertion_sort, Ordered,
}
use mathlib.Core.List.{Perm}
use mathlib.Core.List.Perm
use streamweaver.StreamInfo.{StreamInfo}
use streamweaver.Sorting.{
  Json, Shard, new_shard, sanitize_field, normalize_string_field, read_shard, flush_shard,
  add_to_sorter,
}
use streamweaver.Sorting.Entries.{Sorter, ShardFaults, key_of, get_sorted_entries}
use streamweaver.Sorting.Entries.Order.{
  IsReadable, values, stored, get_sorted_entries-ordered, get_sorted_entries-desc,
}
use streamweaver.Sorting.Laws.{add_each, add-flush}
use streamweaver.Sorting.Titles.{IsStable, has_kept, key_of_title, add_each-titles}

abbrev entry : Text → StreamInfo
entry group = record {
  title = bytes "a b";
  tvg_id = [];
  tvg_ch_no = [];
  tvg_type = [];
  logo_url = [];
  group = group;
  urls = some [];
  source_m3u = bytes "1";
  source_index = 0;
}

-- An entry loses its addresses, and each byte of a key that is not ASCII is replaced.
unfoldable ascii : Text → Text
ascii [] = []
ascii (c ∷ s) = let rest = ascii s in (if leb 128 c then b'?' else c) ∷ rest

abbrev json : Json
json = record { entry = λ s. record s { urls = none }; key = ascii }

ascii-IsStable : IsStable json
unfolding ascii
ascii-IsStable [] = refl
ascii-IsStable (c ∷ s) = ground (arith, ascii-IsStable s)

add-flush_example :
    read_shard (flush_shard json (add_each json (entry [] ∷ entry (bytes "news") ∷ []) new_shard))
    ≡ (bytes "ab", record (entry []) { urls = none }) ∷ []
unfolding sanitize_field streamweaver.Sorting.replaced ascii
add-flush_example =
    add-flush json (entry []) (entry (bytes "news") ∷ []) refl ((refl, ([], refl)), tt)

abbrev titled : Text → StreamInfo
titled title = record (entry []) { title = title }

-- The first shard is buffered, the third has a file, and the second was never used.
abbrev shards : List Shard
shards =
    add_to_sorter json (titled (bytes "b")) new_shard
    ∷ new_shard
    ∷ record new_shard { file = some ((bytes "a", titled (bytes "a")) ∷ []) }
    ∷ []

abbrev sorter : Text → Sorter
sorter direction = record {
  pad = λ width n. [];
  slice = insertion_sort StreamInfo;
  json = json;
  ranged = values;
  sorting_key = [];
  direction = direction;
}

abbrev no_faults : ShardFaults
no_faults = record { flush_fails = λ i. false; open_fails = λ i. false }

abbrev readable : IsReadable no_faults
readable = record { flushed = λ i. refl; opened = λ i. refl }

get_sorted_entries-ordered_example :
    (out : List StreamInfo) × (get_sorted_entries (sorter []) no_faults shards ≡ some out)
    × Perm out (stored (sorter []) values shards)
    × Ordered (λ a b. text_lt (key_of (sorter []) b) (key_of (sorter []) a) ≡ false) out
get_sorted_entries-ordered_example =
    get_sorted_entries-ordered (sorter []) (λ m. Perm.refl (values m)) no_faults shards readable

get_sorted_entries-desc_example :
    (out : List StreamInfo) × (get_sorted_entries (sorter (bytes "desc")) no_faults shards
      ≡ some out)
    × Ordered (λ a b. text_lt b.title a.title ≡ false) out
get_sorted_entries-desc_example =
    get_sorted_entries-desc (sorter (bytes "desc")) refl refl no_faults shards readable

-- The second title has a byte that is no UTF-8, as a title that is cut after 100 bytes may have.
abbrev cut_title : StreamInfo
cut_title = titled (b'c' ∷ 195 ∷ [])

add_each-titles_example :
    let ss = entry [] ∷ cut_title ∷ entry (bytes "news") ∷ [] in
    has_kept json (bytes "c?") (read_shard (flush_shard json (add_each json ss new_shard)))
    ≡ contains (map (key_of_title json) ss) (bytes "c?")
add_each-titles_example =
    add_each-titles json ascii-IsStable (entry [] ∷ cut_title ∷ entry (bytes "news") ∷ [])
      (bytes "c?") (([], refl), (([], refl), (([], refl), tt)))
