-- ===== src/Store/Limits.antt =====
-- The limit of an index, and what the load balancer reads of the manager.
use mathlib.Core.Option
use streamweaver.Prelude.{
  ◌≤◌, ◌≡◌, Bool, some, List, [], ◌∷◌, arith, Text, text_eq_iff, text_eq_refl, Option-cases, inl,
  inr, lookup, lookup-put, ℤ, pos, ◌≤ℤ◌, ◌-ℤ◌, leb_ℤ, max_int32, length,
}
use streamweaver.Store.{
  ConcurrencyManager, Getenv, new_concurrency_manager, get_count, get_max_concurrency, parse_max,
  max_variable, update_concurrency, get_concurrency_status, check_concurrency,
  concurrency_priority_value,
}
use streamweaver.Store.Counting.{run, Update, open_after, get_count-run}

-- The limit that the environment sets for an index.
abbrev pub limit_of : Getenv → Text → ℤ
limit_of env k = parse_max (env (max_variable k))

-- Every limit that is cached is the one that the environment sets.
pub record IsCoherent (env : Getenv) (cm : ConcurrencyManager) : Type 0 where
  pub cached : (k : Text) (n : ℤ) → lookup k cm.max_cache ≡ some n → n ≡ limit_of env k

pub parse_max_pos : (s : Text) → pos 1 ≤ℤ parse_max s
unfolding parse_max
parse_max_pos s = ground arith

get_max_lem :
    (env : Getenv) (cm : ConcurrencyManager) (k : Text)
    → IsCoherent env cm
    → (get_max_concurrency env cm k).0 ≡ limit_of env k
unfolding get_max_concurrency
get_max_lem env cm k c = elim (Option-cases (lookup k cm.max_cache)) [
  | inl e ↦ rw (e, get_max_concurrency)
  | inr (n, e) ↦ rw (e, get_max_concurrency) (c.cached k n e)
]

get_count-get_max :
    (env : Getenv) (cm : ConcurrencyManager) (k : Text)
    → get_count (get_max_concurrency env cm k).1 k ≡ get_count cm k
unfolding get_count get_max_concurrency
get_count-get_max env cm k = ground arith

get_max-IsCoherent :
    (env : Getenv) (cm : ConcurrencyManager) (k : Text)
    → IsCoherent env cm
    → IsCoherent env (get_max_concurrency env cm k).1
unfolding get_max_concurrency
get_max-IsCoherent env cm k c = record {
  cached = λ j n h.
      ground (arith, c.cached j n, lookup-put k j (limit_of env k) cm.max_cache, text_eq_iff k j);
}

update-IsCoherent :
    (env : Getenv) (cm : ConcurrencyManager) (k : Text) (incr : Bool)
    → IsCoherent env cm
    → IsCoherent env (update_concurrency env cm k incr)
unfolding update_concurrency
update-IsCoherent env cm k incr c = get_max-IsCoherent env _ k (record { cached = c.cached })

run-IsCoherent :
    (env : Getenv) (cm : ConcurrencyManager) (us : List Update)
    → IsCoherent env cm
    → IsCoherent env (run env cm us)
unfolding run
run-IsCoherent env cm [] c = c
run-IsCoherent env cm ((k, incr) ∷ us) c =
    run-IsCoherent env (update_concurrency env cm k incr) us (update-IsCoherent env cm k incr c)

new-IsCoherent : (env : Getenv) → IsCoherent env new_concurrency_manager
unfolding new_concurrency_manager lookup
new-IsCoherent env = record { cached = λ k n h. cc }

-- The limit is read from the environment once: a later read gives the same, whatever the variable has
-- become, and changes nothing.
pub get_max_stable :
    (env env' : Getenv) (cm : ConcurrencyManager) (k : Text)
    → let (n, cm') = get_max_concurrency env cm k in get_max_concurrency env' cm' k ≡ (n, cm')
unfolding get_max_concurrency
get_max_stable env env' cm k = elim (Option-cases (lookup k cm.max_cache)) [
  | inl e ↦
      rw (e, get_max_concurrency)
        (ground (arith, lookup-put k k (limit_of env k) cm.max_cache, text_eq_refl k))
  | inr (n, e) ↦ rw (e, get_max_concurrency) (ground arith)
]

-- From a new manager, after any calls of UpdateConcurrency (fewer than 2^31): an index is reported
-- full exactly when its open connections have reached the limit that the environment sets, which is
-- 1 where the variable is no number or less than 1.
pub check-run :
    (env : Getenv) (k : Text) (us : List Update)
    → length us ≤ max_int32
    → (cm' : ConcurrencyManager) × (check_concurrency env (run env new_concurrency_manager us) k
        ≡ some (leb_ℤ (limit_of env k) (pos (open_after 0 k us)), cm'))
unfolding check_concurrency
check-run env k us h = (
  (get_max_concurrency env cm k).1,
  ground (arith, get_max_lem env cm k coherent, get_count-run env k us h, same),
)
  where
    cm : ConcurrencyManager
    cm = run env new_concurrency_manager us

    coherent : IsCoherent env cm
    coherent = run-IsCoherent env new_concurrency_manager us (new-IsCoherent env)

    same : get_count (get_max_concurrency env cm k).1 k ≡ get_count cm k
    same = get_count-get_max env cm k

leb_sub : (m c : ℤ) → leb_ℤ m c ≡ leb_ℤ (m -ℤ c) (pos 0)
unfolding ◌-ℤ◌
leb_sub m c = ground arith

-- An index is full exactly when its priority is not positive; both reads panic together, on a nil
-- counter.
pub check-priority :
    (env : Getenv) (cm : ConcurrencyManager) (k : Text)
    → check_concurrency env cm k
      ≡ Option.map (λ (p, cm'). (leb_ℤ p (pos 0), cm')) (concurrency_priority_value env cm k)
unfolding check_concurrency concurrency_priority_value
check-priority env cm k = elim (Option-cases (get_count (get_max_concurrency env cm k).1 k)) [
  | inl e ↦ rw (e, check_concurrency, concurrency_priority_value, get_concurrency_status)
  | inr (c, e) ↦
      rw (e, check_concurrency, concurrency_priority_value, get_concurrency_status)
        (rw (leb_sub _ c))
]
