-- ===== src/Sorting/Entries/Order.antt =====
-- The entries that GetSortedEntries gives, and their order.
use streamweaver.Prelude.{
  ◌≡◌, refl, subst, ℕ, suc, Bool, false, Option, none, some, List, [], ◌∷◌, ◌++◌, map, arith, Text,
  bytes, text_eq, text_lt, text_lt_asym, text_lt_trans, Table, Ordered, StrictOrder,
}
use mathlib.Core.List.{Perm}
use mathlib.Core.List.Perm
use streamweaver.StreamInfo.{StreamInfo}
use streamweaver.Sorting.{
  Shard, flush_shard, get_sort_key, normalize_string_field, reverse_lexicographical,
}
use streamweaver.Sorting.Entries.{
  Sorter, ShardFaults, flush_all, collect, key_of, key_less, get_sorted_entries,
}

-- No shard has a fault.
pub record IsReadable (f : ShardFaults) : Type 0 where
  pub flushed : (i : ℕ) → f.flush_fails i ≡ false
  pub opened : (i : ℕ) → f.open_fails i ≡ false

abbrev pub values : Table StreamInfo → List StreamInfo
values = map (λ (e : Text × StreamInfo). e.1)

abbrev pub entries_of :
    (Table StreamInfo → List StreamInfo) → Option (Table StreamInfo) → List StreamInfo
entries_of ranged none = []
entries_of ranged (some entries) = ranged entries

entries-perm :
    {ranged : Table StreamInfo → List StreamInfo}
    → ((m : Table StreamInfo) → Perm (ranged m) (values m))
    → (o : Option (Table StreamInfo)) → Perm (entries_of ranged o) (entries_of values o)
entries-perm p none = Perm.refl []
entries-perm p (some entries) = p entries

module _ (t : Sorter) where
  -- What the files of the shards have after a flush, in any order `ranged` of a map.
  unfoldable pub stored : (Table StreamInfo → List StreamInfo) → List Shard → List StreamInfo
  stored ranged [] = []
  stored ranged (d ∷ ds) = entries_of ranged (flush_shard t.json d).file ++ stored ranged ds

  abbrev pub sorted_entries : List Shard → List StreamInfo
  sorted_entries shards = t.slice.sort (key_less t) (stored t.ranged shards)

  collect-flushed :
      (f : ShardFaults) (i : ℕ) (shards : List Shard)
      → IsReadable f
      → collect t f.open_fails i (flush_all t f.flush_fails i shards)
        ≡ some (stored t.ranged shards)
  unfolding collect flush_all stored
  collect-flushed f i [] r = refl
  collect-flushed f i (d ∷ ds) r =
      ground (arith, collect-flushed f (suc i) ds r, r.flushed i, r.opened i)

  pub get_sorted_entries-readable :
      (f : ShardFaults) (shards : List Shard)
      → IsReadable f
      → get_sorted_entries t f shards ≡ some (sorted_entries shards)
  unfolding get_sorted_entries
  get_sorted_entries-readable f shards r = ground (arith, collect-flushed f 0 shards r)

  key_less-StrictOrder : StrictOrder (key_less t)
  unfolding key_less
  key_less-StrictOrder = record {
    asym = λ x y h. text_lt_asym (key_of t x) (key_of t y) h;
    trans = λ x y z h k. text_lt_trans (key_of t x) (key_of t y) (key_of t z) h k;
  }

  stored-perm :
      ((m : Table StreamInfo) → Perm (t.ranged m) (values m))
      → (shards : List Shard) → Perm (stored t.ranged shards) (stored values shards)
  unfolding stored
  stored-perm p [] = Perm.refl []
  stored-perm p (d ∷ ds) =
      Perm.append (entries-perm p (flush_shard t.json d).file) (stored-perm p ds)

  -- No shard has a fault, and the map of a shard is ranged over in any order. Then the callback gets the entries that
  -- the files of all shards have after their flush, each as often as it is there; and none has a key that is
  -- less than the key of one before it.
  pub get_sorted_entries-ordered :
      ((m : Table StreamInfo) → Perm (t.ranged m) (values m))
      → (f : ShardFaults) (shards : List Shard) → IsReadable f
      → (out : List StreamInfo) × (get_sorted_entries t f shards ≡ some out)
        × Perm out (stored values shards)
        × Ordered (λ a b. text_lt (key_of t b) (key_of t a) ≡ false) out
  unfolding key_less
  get_sorted_entries-ordered p f shards r = (
    sorted_entries shards,
    get_sorted_entries-readable f shards r,
    Perm.trans (t.slice.permutes (key_less t) (stored t.ranged shards)) (stored-perm p shards),
    t.slice.orders (key_less t) (stored t.ranged shards) key_less-StrictOrder,
  )

  key_of-desc :
      t.sorting_key ≡ []
      → t.direction ≡ bytes "desc"
      → (s : StreamInfo) → key_of t s ≡ b'~' ∷ s.title
  unfolding get_sort_key normalize_string_field reverse_lexicographical text_eq
  key_of-desc k d s = rw (k, d) refl

  key_less-desc :
      t.sorting_key ≡ []
      → t.direction ≡ bytes "desc"
      → (a b : StreamInfo) → key_less t a b ≡ text_lt a.title b.title
  unfolding key_less
  key_less-desc k d a b = rw (key_of-desc k d a, key_of-desc k d b) refl

  -- The streams are to be sorted by their titles in descending order, and no shard has a fault. Then the callback
  -- gets them in the ascending order: no title is less than one before it.
  pub get_sorted_entries-desc :
      t.sorting_key ≡ []
      → t.direction ≡ bytes "desc"
      → (f : ShardFaults) (shards : List Shard) → IsReadable f
      → (out : List StreamInfo) × (get_sorted_entries t f shards ≡ some out)
        × Ordered (λ a b. text_lt b.title a.title ≡ false) out
  get_sorted_entries-desc k d f shards r = (
    sorted_entries shards,
    get_sorted_entries-readable f shards r,
    subst
        (λ (less : StreamInfo → StreamInfo → Bool).
          Ordered (λ a b. less b a ≡ false) (sorted_entries shards))
        (λ i a b. key_less-desc k d a b i)
        (t.slice.orders (key_less t) (stored t.ranged shards) key_less-StrictOrder),
  )
