-- ===== src/Sorting/Entries.antt =====
-- GetSortedEntries of sourceproc/sorting.go, over all shards.
pub mod Order
use streamweaver.Prelude.{
  ℕ, suc, Bool, Option, none, some, List, [], ◌∷◌, ◌++◌, Text, text_lt, Table, SliceSort, ℤ,
  if◌then◌else◌,
}
use streamweaver.StreamInfo.{StreamInfo}
use streamweaver.Sorting.{Json, Shard, flush_shard, get_sort_key}

-- A SortingManager's settings, with fmt.Sprintf for a padded number, sort.Slice, what JSON keeps of a map of streams, and the
-- order in which a map is ranged over.
pub record Sorter : Type 0 where
  pub pad : ℕ → ℤ → Text
  pub slice : SliceSort StreamInfo
  pub json : Json
  pub ranged : Table StreamInfo → List StreamInfo
  pub sorting_key : Text
  pub direction : Text

-- The shards whose file is not read or not made at the flush, which leaves them as they are, and those that are not
-- opened or decoded afterwards.
pub record ShardFaults : Type 0 where
  pub flush_fails : ℕ → Bool
  pub open_fails : ℕ → Bool

module _ (t : Sorter) where
  unfoldable pub flush_all : (ℕ → Bool) → ℕ → List Shard → List Shard
  unfolding flush_shard
  flush_all fails i [] = []
  flush_all fails i (d ∷ ds) =
      let rest = flush_all fails (suc i) ds in (if fails i then d else flush_shard t.json d) ∷ rest

  unfoldable pub collect : (ℕ → Bool) → ℕ → List Shard → Option (List StreamInfo)
  collect fails i [] = some []
  collect fails i (d ∷ ds) =
      let rest = collect fails (suc i) ds in
      elim d.file [
        | none ↦ rest
        | some entries ↦
            if fails i
            then none
            else elim rest [ none ↦ none | some more ↦ some (t.ranged entries ++ more) ]
      ]

  abbrev pub key_of : StreamInfo → Text
  key_of s = get_sort_key t.pad s t.sorting_key t.direction

  unfoldable pub key_less : StreamInfo → StreamInfo → Bool
  unfolding get_sort_key text_lt
  key_less a b = text_lt (key_of a) (key_of b)

  -- The entries in the order in which the callback gets them, or an error. The flushed shards are not given back, since
  -- the manager is closed after it.
  unfoldable pub get_sorted_entries : ShardFaults → List Shard → Option (List StreamInfo)
  unfolding flush_all collect key_less
  get_sorted_entries f shards = elim (collect f.open_fails 0 (flush_all f.flush_fails 0 shards)) [
    | none ↦ none
    | some entries ↦ some (t.slice.sort key_less entries)
  ]
