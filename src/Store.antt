-- ===== src/Store.antt =====
-- store/concurrency.go: how many connections each M3U source has, and how many it may have.
pub mod Counting
pub mod Limits
mod Examples
use streamweaver.Prelude.{
  ℕ, ◌≡◌, Bool, true, false, Option, none, some, List, [], ◌∷◌, ◌++◌, Text, bytes, Table, lookup,
  put, ℤ, pos, negsuc, ltb_ℤ, leb_ℤ, ◌-ℤ◌, add32, atoi, if◌then◌else◌,
}

-- A counter is a pointer to an int32; `none` is nil, which `decrement` may store.
pub record ConcurrencyManager : Type 0 where
  pub count : Table (Option ℤ)
  pub invalid : Table (Unit {0})
  pub max_cache : Table ℤ

unfoldable pub new_concurrency_manager : ConcurrencyManager
new_concurrency_manager = record { count = []; invalid = []; max_cache = [] }

-- os.Getenv: the empty text where the variable is not set.
abbrev pub Getenv : Type 0
Getenv = Text → Text

pub parse_max : Text → ℤ
unfolding atoi
parse_max s =
    let (n, valid) = atoi s in if valid then (if ltb_ℤ n (pos 1) then pos 1 else n) else pos 1

abbrev pub max_variable : Text → Text
max_variable m3u_index = bytes "M3U_MAX_CONCURRENCY_" ++ m3u_index

pub get_max_concurrency : Getenv → ConcurrencyManager → Text → ℤ × ConcurrencyManager
get_max_concurrency env cm m3u_index = elim (lookup m3u_index cm.max_cache) [
  | some n ↦ (n, cm)
  | none ↦
      let n = parse_max (env (max_variable m3u_index)) in
      (n, record cm { max_cache = put m3u_index n cm.max_cache })
]

-- `none` is the panic of a load through a nil pointer.
pub get_count : ConcurrencyManager → Text → Option ℤ
get_count cm m3u_index = elim (lookup m3u_index cm.count) [ none ↦ some (pos 0) | some val ↦ val ]

pub record Status : Type 0 where
  pub current : ℤ
  pub max : ℤ
  pub priority : ℤ

pub get_concurrency_status :
    Getenv → ConcurrencyManager → Text → Option (Status × ConcurrencyManager)
unfolding get_count get_max_concurrency ◌-ℤ◌
get_concurrency_status env cm m3u_index =
    let (n, cm') = get_max_concurrency env cm m3u_index in
    elim (get_count cm' m3u_index) [
      | none ↦ none
      | some c ↦ some (record { current = c; max = n; priority = n -ℤ c }, cm')
    ]

pub check_concurrency : Getenv → ConcurrencyManager → Text → Option (Bool × ConcurrencyManager)
unfolding get_concurrency_status
check_concurrency env cm m3u_index = elim (get_concurrency_status env cm m3u_index) [
  | none ↦ none
  | some (s, cm') ↦ some (leb_ℤ s.max s.current, cm')
]

pub concurrency_priority_value :
    Getenv → ConcurrencyManager → Text → Option (ℤ × ConcurrencyManager)
unfolding get_concurrency_status
concurrency_priority_value env cm m3u_index = elim (get_concurrency_status env cm m3u_index) [
  | none ↦ none
  | some (s, cm') ↦ some (s.priority, cm')
]

-- A missing counter and a nil one are both made anew, at 0.
pub fresh_count : Option (Option ℤ) → ℤ
fresh_count none = pos 0
fresh_count (some none) = pos 0
fresh_count (some (some c)) = c

pub bump : Bool → ℤ → ℤ
unfolding add32
bump true c = add32 c (pos 1)
bump false c = if ltb_ℤ (pos 0) c then add32 c (negsuc 0) else c

-- The last step reads the limit for the log, which fills the cache.
pub update_concurrency : Getenv → ConcurrencyManager → Text → Bool → ConcurrencyManager
unfolding fresh_count bump get_max_concurrency
update_concurrency env cm m3u_index incr =
    let c = bump incr (fresh_count (lookup m3u_index cm.count)) in
    (get_max_concurrency env (record cm { count = put m3u_index (some c) cm.count }) m3u_index).1

pub increment : ConcurrencyManager → Text → ConcurrencyManager
unfolding fresh_count add32
increment cm m3u_index =
    let c = add32 (fresh_count (lookup m3u_index cm.count)) (pos 1) in
    record cm { count = put m3u_index (some c) cm.count }

pub lowered : Option (Option ℤ) → Option ℤ
lowered none = none
lowered (some none) = none
lowered (some (some c)) = if leb_ℤ c (pos 0) then some c else some (add32 c (negsuc 0))

-- Within `Compute` the entry is locked, so the compare-and-swap succeeds at its first try. Where
-- there is no counter, nil is stored under the key.
pub decrement : ConcurrencyManager → Text → ConcurrencyManager
unfolding lowered
decrement cm m3u_index = record cm {
  count = put m3u_index (lowered (lookup m3u_index cm.count)) cm.count;
}
