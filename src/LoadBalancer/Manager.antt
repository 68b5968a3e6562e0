-- ===== src/LoadBalancer/Manager.antt =====
-- The concurrency manager as the load balancer reads it. A read of a nil counter panics; it stands here
-- for a full index.
use streamweaver.Prelude.{◌≡◌, Bool, true, none, some, Option-cases, inl, inr, Text, ℤ, pos, leb_ℤ}
use streamweaver.Store.{ConcurrencyManager, Getenv, check_concurrency, concurrency_priority_value}
use streamweaver.Store.Limits.{check-priority}
use streamweaver.LoadBalancer.{Slots}

module _ (env : Getenv) where
  full_now : ConcurrencyManager → Text → Bool
  full_now cm k = elim (check_concurrency env cm k) [ none ↦ true | some (full, cm') ↦ full ]

  priority_now : ConcurrencyManager → Text → ℤ
  priority_now cm k = elim (concurrency_priority_value env cm k) [
    | none ↦ pos 0
    | some (p, cm') ↦ p
  ]

  full_now_iff :
      (cm : ConcurrencyManager) (k : Text) → full_now cm k ≡ leb_ℤ (priority_now cm k) (pos 0)
  unfolding full_now priority_now
  full_now_iff cm k = elim (Option-cases (concurrency_priority_value env cm k)) [
    | inl e ↦ rw (check-priority env cm k, e, full_now, priority_now)
    | inr ((p, cm'), e) ↦ rw (check-priority env cm k, e, full_now, priority_now)
  ]

  unfoldable pub store_slots : Slots
  unfolding full_now_iff
  store_slots = record {
    Manager = ConcurrencyManager;
    is_full = full_now;
    priority = priority_now;
    full_iff = full_now_iff;
  }
