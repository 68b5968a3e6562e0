-- ===== src/Store/Examples.antt =====
-- The manager on a few calls, with a limit of two for the source "1".

use streamweaver.Prelude.{◌≡◌, refl, true, false, some, List, [], ◌∷◌, arith, bytes, text_eq, pos}
use streamweaver.Store.{
  ConcurrencyManager, Getenv, new_concurrency_manager, get_count, get_max_concurrency,
  check_concurrency, concurrency_priority_value, decrement,
}
use streamweaver.Store.Counting.{Update, run, open_after, get_count-run}
use streamweaver.Store.Limits.{check-run}

abbrev env : Getenv
env name = bytes "2"

abbrev updates : List Update
updates =
    (bytes "1", true)
    ∷ (bytes "2", true)
    ∷ (bytes "1", false)
    ∷ (bytes "1", false)
    ∷ (bytes "1", true)
    ∷ (bytes "1", true)
    ∷ []

two_open : open_after 0 (bytes "1") updates ≡ 2
unfolding open_after text_eq
two_open = refl

get_count-run_example :
    get_count (run env new_concurrency_manager updates) (bytes "1") ≡ some (pos 2)
unfolding open_after text_eq
get_count-run_example = get_count-run env (bytes "1") updates (omega arith)

check-run_example :
    (cm' : ConcurrencyManager) × (check_concurrency env
        (run env new_concurrency_manager updates)
        (bytes "1")
      ≡ some (true, cm'))
unfolding open_after text_eq streamweaver.Store.parse_max
check-run_example = check-run env (bytes "1") updates (omega arith)
