-- ===== src/Sorting/Titles.antt =====
-- Which titles a shard has, in its buffer or its file, as a set that the operations add to.
use streamweaver.Prelude.{
  ◌≡◌, refl, ap, ◌∙◌, Option-cases, inl, inr, Bool, true, false, ◌||◌, Option, none, some, List, [],
  ◌∷◌, ◌++◌, map, leb, length, if◌then◌else◌, arith, All, Text, text_eq, text_eq_iff, contains,
  Table, lookup, put,
}
use streamweaver.StreamInfo.{StreamInfo}
use streamweaver.Sorting.{
  Json, Shard, new_shard, sanitize_field, read_shard, write_shard, handle_existing, flush_shard,
  buffered, add_to_sorter, store_all, keys, insert_key, by_key, kept,
}
use streamweaver.Sorting.Laws.{
  HasUrls, add_each, merge-some, existing-missing, existing-merged, flush-full,
}

-- The shard with the titles of its file in its index.
abbrev indexed : Shard → Option (Table StreamInfo) → Shard
indexed d file = elim file [
  | none ↦ d
  | some entries ↦ record d { index = keys entries ++ d.index }
]

either_shard : (P : Shard → Type 0) (b : Bool) (x y : Shard) → P x → P y → P (if b then x else y)
either_shard P true x y p q = p
either_shard P false x y p q = q

module _ (json : Json) where
  -- The title of a stream, in its sanitized form, as JSON keeps it.
  abbrev pub key_of_title : StreamInfo → Text
  key_of_title s = json.key (sanitize_field s.title)

  -- Whether a key of the map is one that JSON keeps as `k`.
  unfoldable pub has_kept : Text → Table StreamInfo → Bool
  has_kept k [] = false
  has_kept k ((j, s) ∷ m) = text_eq (json.key j) k || has_kept k m

  unfoldable pub has_title : Shard → Text → Bool
  unfolding has_kept read_shard
  has_title d k = has_kept k d.buffer || has_kept k (read_shard d)

  same_key : (i k : Text) → text_eq i k ≡ true → json.key i ≡ json.key k
  same_key i k h = ap json.key ((text_eq_iff i k).0 h)

  has_kept-put :
      (j k : Text) (s : StreamInfo) (m : Table StreamInfo)
      → has_kept j (put k s m) ≡ (text_eq (json.key k) j || has_kept j m)
  unfolding has_kept put
  has_kept-put j k s [] = refl
  has_kept-put j k s ((i, t) ∷ m) = ground (arith, same_key i k, has_kept-put j k s m)

  has_kept-store_all :
      (k : Text) (b m : Table StreamInfo)
      → has_kept k (store_all b m) ≡ (has_kept k b || has_kept k m)
  unfolding store_all has_kept
  has_kept-store_all k [] m = refl
  has_kept-store_all k ((j, s) ∷ b) m =
      ground (arith, has_kept-store_all k b (put j s m), has_kept-put k j s m)

  has_kept-insert_key :
      (k j : Text) (s : StreamInfo) (m : Table StreamInfo)
      → has_kept k (insert_key j s m) ≡ (text_eq (json.key j) k || has_kept k m)
  unfolding insert_key has_kept
  has_kept-insert_key k j s [] = refl
  has_kept-insert_key k j s ((i, t) ∷ m) = ground (arith, has_kept-insert_key k j s m)

  has_kept-by_key : (k : Text) (m : Table StreamInfo) → has_kept k (by_key m) ≡ has_kept k m
  unfolding by_key has_kept
  has_kept-by_key k [] = refl
  has_kept-by_key k ((j, s) ∷ m) =
      ground (arith, has_kept-insert_key k j s (by_key m), has_kept-by_key k m)

  indexed-title :
      (k : Text) (d : Shard) (file : Option (Table StreamInfo))
      → has_title (indexed d file) k ≡ has_title d k
  unfolding has_title
  indexed-title k d none = refl
  indexed-title k d (some entries) = refl

  flush_shard-cleared :
      (d : Shard) (b : Table StreamInfo) → d.buffer ≡ b → (flush_shard json d).buffer ≡ []
  unfolding flush_shard
  flush_shard-cleared d [] h = rw h refl
  flush_shard-cleared d (e ∷ es) h = ground (arith, h)

  write_shard-buffer : (m : Table StreamInfo) (d : Shard) → (write_shard json m d).buffer ≡ d.buffer
  unfolding write_shard
  write_shard-buffer m d = refl

  put_buffer-title :
      (k title : Text) (s : StreamInfo) (d : Shard)
      → has_title
          (record d { buffer = put title (json.entry s) d.buffer; index = title ∷ d.index })
          k
        ≡ (text_eq (json.key title) k || has_title d k)
  unfolding has_title
  put_buffer-title k title s d = ground (arith, has_kept-put k title (json.entry s) d.buffer)

-- What is read back of the keys is kept as it is: they are UTF-8.
abbrev pub IsStable : Json → Type 0
IsStable json = (k : Text) → json.key (json.key k) ≡ json.key k

module _ (json : Json) (stable : IsStable json) where
  has_kept-kept :
      (k : Text) (m : Table StreamInfo) → has_kept json k (map (kept json) m) ≡ has_kept json k m
  unfolding has_kept
  has_kept-kept k [] = refl
  has_kept-kept k ((j, s) ∷ m) = rw (stable j, has_kept-kept k m) refl

  has_kept-write_shard :
      (k : Text) (m : Table StreamInfo) (d : Shard)
      → has_kept json k (read_shard (write_shard json m d)) ≡ has_kept json k m
  unfolding write_shard read_shard has_kept
  has_kept-write_shard k m d = ground (
    arith,
    has_kept-store_all json k (map (kept json) (by_key m)) [],
    has_kept-kept k (by_key m),
    has_kept-by_key json k m,
  )

  write_shard-title :
      (k title : Text) (e : StreamInfo) (d : Shard)
      → has_title json (write_shard json (put title e (read_shard d)) d) k
        ≡ (text_eq (json.key title) k || has_title json d k)
  unfolding has_title
  write_shard-title k title e d = ground (
    arith,
    has_kept-write_shard k (put title e (read_shard d)) d,
    has_kept-put json k title e (read_shard d),
    write_shard-buffer json (put title e (read_shard d)) d,
  )

  flush-buffer :
      (k : Text) (d : Shard) (b : Table StreamInfo)
      → d.buffer ≡ b
      → has_kept json k (read_shard (flush_shard json d)) ≡ has_title json d k
  unfolding has_title has_kept flush_shard
  flush-buffer k d [] h = rw h refl
  flush-buffer k d (e ∷ es) h =
      ap (has_kept json k) (flush-full json d e es h)
      ∙ has_kept-write_shard k (store_all d.buffer (read_shard d)) d
      ∙ has_kept-store_all json k d.buffer (read_shard d)

  -- A flush leaves the titles as they are, and they are then in the file.
  pub flush_shard-file :
      (k : Text) (d : Shard)
      → has_kept json k (read_shard (flush_shard json d)) ≡ has_title json d k
  flush_shard-file k d = flush-buffer k d d.buffer refl

  flush_shard-title :
      (k : Text) (d : Shard) → has_title json (flush_shard json d) k ≡ has_title json d k
  unfolding has_title has_kept
  flush_shard-title k d =
      ground (arith, flush_shard-file k d, flush_shard-cleared json d d.buffer refl)

  handle_existing-title :
      (k title : Text) (s : StreamInfo) (d : Shard)
      → HasUrls s
      → has_title json (handle_existing json title s d) k
        ≡ (text_eq (json.key title) k || has_title json d k)
  handle_existing-title k title s d u = elim (Option-cases (lookup title (read_shard d))) [
    | inl h ↦
        ap (λ r. has_title json r k) (existing-missing json title s d h)
        ∙ write_shard-title k title s d
    | inr (f, h) ↦
        let (merged, g) = merge-some f s u in
        ap (λ r. has_title json r k) (existing-merged json title s f merged d h g)
        ∙ write_shard-title k title merged d
  ]

  buffered-title :
      (k title : Text) (s : StreamInfo) (d : Shard)
      → has_title json (buffered json title s d) k
        ≡ (text_eq (json.key title) k || has_title json d k)
  unfolding buffered
  buffered-title k title s d =
      let d' : Shard = record d {
        buffer = put title (json.entry s) d.buffer;
        index = title ∷ d.index;
      } in
      let same = put_buffer-title json k title s d in
      either_shard (λ r. has_title json r k ≡ (text_eq (json.key title) k || has_title json d k))
        (leb 250 (length d'.buffer)) (flush_shard json d') d' (flush_shard-title k d' ∙ same) same

  pub add_to_sorter-title :
      (k : Text) (s : StreamInfo) (d : Shard)
      → HasUrls s
      → has_title json (add_to_sorter json s d) k
        ≡ (text_eq (json.key (sanitize_field s.title)) k || has_title json d k)
  unfolding add_to_sorter
  add_to_sorter-title k s d u =
      let title = sanitize_field s.title in
      let seen = indexed d d.file in
      let Grows : Shard → Type 0 =
        λ r. has_title json r k ≡ (text_eq (json.key title) k || has_title json d k) in
      let same : has_title json seen k ≡ has_title json d k = indexed-title json k d d.file in
      let more = ap (λ b. text_eq (json.key title) k || b) same in
      either_shard Grows (contains d.index title) (handle_existing json title s d) _
        (handle_existing-title k title s d u)
        (either_shard Grows (contains seen.index title) (handle_existing json title s seen) _
          (handle_existing-title k title s seen u ∙ more) (buffered-title k title s seen ∙ more))

  add_each-title :
      (k : Text) (ss : List StreamInfo) (d : Shard)
      → All HasUrls ss
      → has_title json (add_each json ss d) k
        ≡ (contains (map (key_of_title json) ss) k || has_title json d k)
  unfolding add_each contains
  add_each-title k [] d u = refl
  add_each-title k (s ∷ ss) d u =
      ground
        (arith, add_each-title k ss (add_to_sorter json s d) u.1, add_to_sorter-title k s d u.0)

  -- Entries with a map of addresses are added to a new shard, however many there are. JSON keeps as it is what is read
  -- back of a key. When the shard is flushed, a key of its file is kept as `k` just where
  -- the title of an entry is, in its sanitized form, so that no title is lost.
  pub add_each-titles :
      (ss : List StreamInfo) (k : Text)
      → All HasUrls ss
      → has_kept json k (read_shard (flush_shard json (add_each json ss new_shard)))
        ≡ contains (map (key_of_title json) ss) k
  unfolding has_title new_shard has_kept
  add_each-titles ss k u =
      ground
        (arith, flush_shard-file k (add_each json ss new_shard), add_each-title k ss new_shard u)
