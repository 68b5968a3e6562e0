-- ===== src/Sorting/Laws.antt =====
-- What becomes of a title that is met again while its entry is buffered.
use streamweaver.Prelude.{
  ◌≡◌, refl, sym, ap, subst, ◌∙◌, ◌⊎◌, inl, inr, true, none, some, List, [], ◌∷◌, put, arith, All,
  Text, text_eq_refl, contains, Table, lookup,
}
use streamweaver.StreamInfo.{StreamInfo}
use streamweaver.Sorting.{
  Json, Shard, new_shard, sanitize_field, read_shard, write_shard, handle_existing, flush_shard,
  buffered, add_to_sorter, store_all, by_key, insert_key, merge_stream_info_attributes,
}

-- A stream with a map of addresses, as parseLine makes it.
abbrev pub HasUrls : StreamInfo → Type 0
HasUrls s = (m : Table (Table Text)) × (s.urls ≡ some m)

pub merge-some :
    (base s : StreamInfo)
    → HasUrls s
    → (merged : StreamInfo) × (merge_stream_info_attributes base s ≡ some merged)
unfolding merge_stream_info_attributes
merge-some base s (m, h) = rw h (_, refl)

module _ (json : Json) where
  unfoldable pub add_each : List StreamInfo → Shard → Shard
  add_each [] d = d
  add_each (s ∷ ss) d = add_each ss (add_to_sorter json s d)

  -- The entry of `title` is buffered, and no other title is in the shard.
  record Buffers (title : Text) (e : StreamInfo) (d : Shard) : Type 0 where
    indexed : contains d.index title ≡ true
    buffer_eq : d.buffer ≡ (title, e) ∷ []
    file_eq : (d.file ≡ none) ⊎ ((f : StreamInfo) × (d.file ≡ some ((title, f) ∷ [])))

  first-Buffers :
      (s : StreamInfo)
      → Buffers (sanitize_field s.title) (json.entry s) (add_to_sorter json s new_shard)
  unfolding add_to_sorter buffered new_shard contains
  first-Buffers s = record {
    indexed = ground (arith, text_eq_refl (sanitize_field s.title));
    buffer_eq = refl;
    file_eq = inl refl;
  }

  add_to_sorter-existing :
      (s : StreamInfo) (d : Shard)
      → contains d.index (sanitize_field s.title) ≡ true
      → add_to_sorter json s d ≡ handle_existing json (sanitize_field s.title) s d
  unfolding add_to_sorter
  add_to_sorter-existing s d h = rw h

  write_shard-one :
      (title : Text) (e : StreamInfo) (d : Shard)
      → json.key title ≡ title
      → write_shard json ((title, e) ∷ []) d ≡ record d { file = some ((title, json.entry e) ∷ []) }
  unfolding write_shard store_all by_key put insert_key
  write_shard-one title e d k = ap (λ t. record d { file = some ((t, json.entry e) ∷ []) }) k

  lookup-one : (title : Text) (f : StreamInfo) → lookup title ((title, f) ∷ []) ≡ some f
  unfolding lookup
  lookup-one title f = rw (text_eq_refl title) refl

  put-one : (title : Text) (e f : StreamInfo) → put title e ((title, f) ∷ []) ≡ (title, e) ∷ []
  unfolding put
  put-one title e f = rw (text_eq_refl title) refl

  -- A title that the file has not, and one that it has.
  pub existing-missing :
      (title : Text) (s : StreamInfo) (d : Shard)
      → lookup title (read_shard d) ≡ none
      → handle_existing json title s d ≡ write_shard json (put title s (read_shard d)) d
  unfolding handle_existing
  existing-missing title s d h = rw (h, handle_existing) refl

  pub existing-merged :
      (title : Text) (s f merged : StreamInfo) (d : Shard)
      → lookup title (read_shard d) ≡ some f
      → merge_stream_info_attributes f s ≡ some merged
      → handle_existing json title s d ≡ write_shard json (put title merged (read_shard d)) d
  unfolding handle_existing
  existing-merged title s f merged d h g = rw (h, handle_existing) (rw g refl)

  read_shard-file : (d : Shard) (m : Table StreamInfo) → d.file ≡ some m → read_shard d ≡ m
  unfolding read_shard
  read_shard-file d m h = rw h refl

  read_shard-none : (d : Shard) → d.file ≡ none → read_shard d ≡ []
  unfolding read_shard
  read_shard-none d h = rw h refl

  existing-none :
      (title : Text) (s : StreamInfo) (d : Shard)
      → json.key title ≡ title
      → d.file ≡ none
      → handle_existing json title s d ≡ record d { file = some ((title, json.entry s) ∷ []) }
  unfolding lookup put
  existing-none title s d k h =
      let r = read_shard-none d h in
      existing-missing title s d (ap (lookup title) r)
      ∙ ap (λ m. write_shard json (put title s m) d) r
      ∙ write_shard-one title s d k

  existing-some :
      (title : Text) (s f merged : StreamInfo) (d : Shard)
      → json.key title ≡ title
      → d.file ≡ some ((title, f) ∷ [])
      → merge_stream_info_attributes f s ≡ some merged
      → handle_existing json title s d ≡ record d { file = some ((title, json.entry merged) ∷ []) }
  existing-some title s f merged d k h g =
      let r = read_shard-file d ((title, f) ∷ []) h in
      existing-merged title s f merged d (ap (lookup title) r ∙ lookup-one title f) g
      ∙ ap (λ m. write_shard json (put title merged m) d) r
      ∙ ap (λ m. write_shard json m d) (put-one title merged f)
      ∙ write_shard-one title merged d k

  handle_existing-Buffers :
      (title : Text) (e s : StreamInfo) (d : Shard)
      → json.key title ≡ title
      → HasUrls s
      → Buffers title e d
      → Buffers title e (handle_existing json title s d)
  handle_existing-Buffers title e s d k u b = elim b.file_eq [
    | inl h ↦
        subst (Buffers title e) (sym (existing-none title s d k h))
          (record { indexed = b.indexed; buffer_eq = b.buffer_eq; file_eq = inr (_, refl) })
    | inr (f, h) ↦
        let (merged, g) = merge-some f s u in
        subst (Buffers title e) (sym (existing-some title s f merged d k h g))
          (record { indexed = b.indexed; buffer_eq = b.buffer_eq; file_eq = inr (_, refl) })
  ]

  add_each-Buffers :
      (title : Text) (e : StreamInfo) (ss : List StreamInfo) (d : Shard)
      → json.key title ≡ title
      → All (λ s. (sanitize_field s.title ≡ title) × HasUrls s) ss
      → Buffers title e d
      → Buffers title e (add_each ss d)
  unfolding add_each
  add_each-Buffers title e [] d k h b = b
  add_each-Buffers title e (s ∷ ss) d k h b =
      let step : add_to_sorter json s d ≡ handle_existing json title s d =
        add_to_sorter-existing s d (ap (contains d.index) h.0.0 ∙ b.indexed)
        ∙ ap (λ t. handle_existing json t s d) h.0.0 in
      add_each-Buffers title e ss (add_to_sorter json s d) k h.1
        (subst (Buffers title e) (sym step) (handle_existing-Buffers title e s d k h.0.1 b))

  pub flush-full :
      (d : Shard) (e : Text × StreamInfo) (es : Table StreamInfo)
      → d.buffer ≡ e ∷ es
      → read_shard (flush_shard json d)
        ≡ read_shard (write_shard json (store_all d.buffer (read_shard d)) d)
  unfolding flush_shard read_shard write_shard
  flush-full d e es h = rw h refl

  -- A flush of a buffer with the one entry.
  flush-one :
      (title : Text) (e : StreamInfo) (d : Shard)
      → json.key title ≡ title
      → d.buffer ≡ (title, e) ∷ []
      → put title e (read_shard d) ≡ (title, e) ∷ []
      → read_shard (flush_shard json d) ≡ (title, json.entry e) ∷ []
  unfolding store_all read_shard
  flush-one title e d k b p =
      flush-full d (title, e) [] b
      ∙ ap (λ m. read_shard (write_shard json (store_all m (read_shard d)) d)) b
      ∙ ap (λ m. read_shard (write_shard json m d)) p
      ∙ ap read_shard (write_shard-one title e d k)

  flush-Buffers :
      (title : Text) (e : StreamInfo) (d : Shard)
      → json.key title ≡ title
      → Buffers title e d
      → read_shard (flush_shard json d) ≡ (title, json.entry e) ∷ []
  unfolding read_shard put
  flush-Buffers title e d k b = elim b.file_eq [
    | inl h ↦ flush-one title e d k b.buffer_eq (ap (put title e) (read_shard-none d h))
    | inr (f, h) ↦
        flush-one title e d k b.buffer_eq
          (ap (put title e) (read_shard-file d _ h) ∙ put-one title e f)
  ]

  -- The first entry of a new shard is added, and then any entries with a map of addresses and the same title, in its
  -- sanitized form, which JSON keeps as a key. When the
  -- shard is flushed its file has, for that title, the first entry as JSON keeps it; what the others have been
  -- merged to is lost, whatever they are.
  pub add-flush :
      (s : StreamInfo) (ss : List StreamInfo)
      → json.key (sanitize_field s.title) ≡ sanitize_field s.title
      → All (λ t. (sanitize_field t.title ≡ sanitize_field s.title) × HasUrls t) ss
      → read_shard (flush_shard json (add_each (s ∷ ss) new_shard))
        ≡ (sanitize_field s.title, json.entry (json.entry s)) ∷ []
  unfolding add_each
  add-flush s ss k h =
      let title = sanitize_field s.title in
      flush-Buffers title (json.entry s) (add_each ss (add_to_sorter json s new_shard)) k (
        add_each-Buffers title (json.entry s) ss (add_to_sorter json s new_shard) k h
          (first-Buffers s))
