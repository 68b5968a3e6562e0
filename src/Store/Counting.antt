-- ===== src/Store/Counting.antt =====
-- The counters against a plain count of connections.
use streamweaver.Prelude.{
  ℕ, suc, ◌+◌, ◌-◌, ◌≤◌, ◌<◌, ◌≡◌, refl, Bool, true, false, none, some, List, [], ◌∷◌, arith, Text,
  text_eq, text_eq_iff, text_eq_refl, lookup, lookup-put, pos, max_int32, length, if◌then◌else◌,
}
use streamweaver.Store.{
  ConcurrencyManager, Getenv, new_concurrency_manager, get_count, get_max_concurrency,
  update_concurrency, decrement, fresh_count, bump,
}

-- A call of UpdateConcurrency: the index, and whether a connection opens.
abbrev pub Update : Type 0
Update = Text × Bool

unfoldable pub run : Getenv → ConcurrencyManager → List Update → ConcurrencyManager
run env cm [] = cm
run env cm ((k, incr) ∷ us) = run env (update_concurrency env cm k incr) us

-- What the counter of `k` stands for: the connections that are open, where a close with none open
-- changes nothing.
unfoldable pub open_after : ℕ → Text → List Update → ℕ
open_after n k [] = n
open_after n k ((j, incr) ∷ us) =
    open_after (if text_eq j k then (if incr then suc n else n - 1) else n) k us

get_max-count :
    (env : Getenv) (cm : ConcurrencyManager) (k : Text)
    → (get_max_concurrency env cm k).1.count ≡ cm.count
unfolding get_max_concurrency
get_max-count env cm k = ground arith

-- One call: the counter of its index moves, and that of any other index stays.
pub count-update :
    (env : Getenv) (cm : ConcurrencyManager) (j k : Text) (incr : Bool)
    → lookup k (update_concurrency env cm j incr).count ≡ (
        if text_eq j k
        then some (some (bump incr (fresh_count (lookup j cm.count))))
        else lookup k cm.count)
unfolding update_concurrency
count-update env cm j k incr = rw get_max-count (lookup-put j k _ cm.count)

-- The counter of `k`, absent or present, stands for `n` open connections.
abbrev pub Stands : ConcurrencyManager → Text → ℕ → Type 0
Stands cm k n = (get_count cm k ≡ some (pos n)) × (fresh_count (lookup k cm.count) ≡ pos n)

bump-true : (n : ℕ) → n < max_int32 → bump true (pos n) ≡ pos (suc n)
unfolding bump
bump-true n h = ground arith

bump-false : (n : ℕ) → n ≤ max_int32 → bump false (pos n) ≡ pos (n - 1)
unfolding bump
bump-false n h = ground arith

-- One call moves the count as it should, short of the largest int32.
pub update-Stands :
    (env : Getenv) (cm : ConcurrencyManager) (j k : Text) (incr : Bool) (n : ℕ)
    → n < max_int32
    → Stands cm k n
    → Stands
        (update_concurrency env cm j incr)
        k
        (if text_eq j k then (if incr then suc n else n - 1) else n)
unfolding get_count fresh_count
update-Stands env cm j k incr n h s =
    ground (arith, count-update env cm j k incr, text_eq_iff j k, bump-true n, bump-false n)

next-le : (b incr : Bool) (n : ℕ) → (if b then (if incr then suc n else n - 1) else n) ≤ suc n
next-le b incr n = ground arith

run-Stands :
    (env : Getenv) (cm : ConcurrencyManager) (k : Text) (us : List Update) (n : ℕ)
    → n + length us ≤ max_int32
    → Stands cm k n
    → Stands (run env cm us) k (open_after n k us)
unfolding run open_after
run-Stands env cm k [] n h s = s
run-Stands env cm k ((j, incr) ∷ us) n h s =
    run-Stands env (update_concurrency env cm j incr) k us _
      (omega (arith, next-le (text_eq j k) incr n))
      (update-Stands env cm j k incr n (omega arith) s)

new-Stands : (k : Text) → Stands new_concurrency_manager k 0
unfolding new_concurrency_manager get_count fresh_count lookup
new-Stands k = (refl, refl)

-- From a new manager, after any calls of UpdateConcurrency, for whatever indexes and fewer than 2^31
-- of them, GetCount of an index gives the connections of that index that are open: each opening
-- counted, each close taken off, and a close with none open ignored.
pub get_count-run :
    (env : Getenv) (k : Text) (us : List Update)
    → length us ≤ max_int32
    → get_count (run env new_concurrency_manager us) k ≡ some (pos (open_after 0 k us))
get_count-run env k us h =
    (run-Stands env new_concurrency_manager k us 0 (omega arith) (new-Stands k)).0

-- Decrement on an index that has no counter stores a nil one, and the next read of it panics.
pub get_count-decrement :
    (cm : ConcurrencyManager) (k : Text)
    → lookup k cm.count ≡ none
    → get_count (decrement cm k) k ≡ none
unfolding get_count decrement
get_count-decrement cm k h = ground (arith, lookup-put k k none cm.count, text_eq_refl k)
