-- ===== src/LoadBalancer/Rounds.antt =====
-- The order of the rounds, and their number.
use streamweaver.Prelude.{
  ℕ, zero, suc, ◌+◌, ◌<◌, ◌≡◌, refl, sym, ◌∙◌, subst, Bool, true, false, Bool-cases, inl, inr, ◌⊎◌,
  List, [], ◌∷◌, arith, Text, text_eq, text_eq_iff, text_eq_refl, contains, length, All, ltb, ℤ,
  pos, ◌≤ℤ◌, leb_ℤ, ltb_ℤ, Ordered,
}
use streamweaver.StreamInfo.{StreamInfo}
use streamweaver.LoadBalancer.{
  LoadBalancerResult, Result, ok, err, context_canceled, no_available_streams, Slots, World,
  Instance, waited,
}
use streamweaver.LoadBalancer.Balance.{
  Setup, Outcome, ended, has_index, by_priority, first_open, mark_done, next_round, try_rounds,
}
use streamweaver.LoadBalancer.Distinct.{
  IsDistinct, Perm-contains, Perm-length, Perm-IsDistinct, length-distinct-le,
}
use mathlib.Core.List.{Perm}
use mathlib.Core.List.Perm
use mathlib.Core.Bool.{true≢false}

All-contains :
    (P : Text → Type 0) (xs : List Text) (k : Text) → All P xs → contains xs k ≡ true → P k
unfolding contains
All-contains P [] k h m = ground arith
All-contains P (x ∷ xs) k h m = elim (Bool-cases (text_eq x k)) [
  | inl e ↦ subst P ((text_eq_iff x k).0 e) h.0
  | inr e ↦ All-contains P xs k h.1 (ground arith)
]

first_open-open :
    (done ks : List Text)
    → (All (λ t. contains done t ≡ true) ks)
      ⊎ ((contains done (first_open done ks) ≡ false) × (contains ks (first_open done ks) ≡ true))
unfolding first_open contains
first_open-open done [] = inl tt
first_open-open done (k ∷ ks) = elim (Bool-cases (contains done k)) [
  | inl c ↦ elim (first_open-open done ks) [
    | inl a ↦ inl (c, a)
    | inr (o, m) ↦ inr (rw (c, first_open) o, rw (c, first_open) ground (arith, m))
  ]
  | inr c ↦ inr (rw (c, first_open) c, rw (c, first_open) ground (arith, text_eq_refl k))
]

-- The entry is in the relation to each that is not done.
Ordered-first_open :
    (R : Text → Text → Type 0) (done ks : List Text)
    → ((k : Text) → R k k)
    → Ordered R ks
    → (k : Text) → contains ks k ≡ true
    → contains done k ≡ false
    → R (first_open done ks) k
unfolding first_open contains
Ordered-first_open R done [] R-refl o k m n = ground arith
Ordered-first_open R done (x ∷ xs) R-refl o k m n = elim (Bool-cases (contains done x)) [
  | inl c ↦
      rw (c, first_open)
        (Ordered-first_open R done xs R-refl o.1 k (ground (arith, text_eq_iff x k)) n)
  | inr c ↦
      rw (c, first_open)
        (elim (Bool-cases (text_eq x k)) [
          | inl e ↦ subst (λ y. R x y) ((text_eq_iff x k).0 e) (R-refl x)
          | inr e ↦ All-contains (R x) xs k o.0 (ground arith)
        ])
]

leb_of_le : (a b : ℤ) → a ≤ℤ b → leb_ℤ b (pos 0) ≡ true → leb_ℤ a (pos 0) ≡ true
leb_of_le a b h k = ground arith

length-mark_done :
    (done : List Text) (k : Text)
    → contains done k ≡ false
    → length (mark_done k done) ≡ suc (length done)
unfolding mark_done
length-mark_done done k n = rw (n, mark_done)

module _ (s : Slots) (w : World s) (setup : Setup) (method stream_id : Text) where
  by_priority-Perm :
      (i : Instance) (ks : List Text) → Perm (by_priority s w setup method stream_id i ks) ks
  unfolding by_priority
  by_priority-Perm i ks =
      setup.index_sort.permutes
        (λ a b. ltb_ℤ (s.priority (w.manager i.tick) b) (s.priority (w.manager i.tick) a)) ks

  by_priority-Ordered :
      (i : Instance) (ks : List Text)
      → Ordered
          (λ a b. s.priority (w.manager i.tick) b ≤ℤ s.priority (w.manager i.tick) a)
          (by_priority s w setup method stream_id i ks)
  unfolding by_priority
  by_priority-Ordered i ks = setup.index_sort.falling (s.priority (w.manager i.tick)) ks

  -- While an index of the provider is not done, a round takes one of those, and none of those has a
  -- higher priority at the time.
  pub round-best :
      (i : Instance) (ks done : List Text) (k : Text)
      → contains ks k ≡ true
      → contains done k ≡ false
      → let index = first_open done (by_priority s w setup method stream_id i ks) in
        (contains ks index ≡ true)
        × (contains done index ≡ false)
        × (s.priority (w.manager i.tick) k ≤ℤ s.priority (w.manager i.tick) index)
  round-best i ks done k m n =
      let sorted = by_priority s w setup method stream_id i ks in
      let perm = by_priority-Perm i ks in
      let here : contains sorted k ≡ true = Perm-contains k perm ∙ m in
      elim (first_open-open done sorted) [
        | inl a ↦
            absurd
              (true≢false (sym (All-contains (λ t. contains done t ≡ true) sorted k a here) ∙ n))
        | inr (o, p) ↦ (
          sym (Perm-contains (first_open done sorted) perm) ∙ p,
          o,
          Ordered-first_open
              (λ a b. s.priority (w.manager i.tick) b ≤ℤ s.priority (w.manager i.tick) a) done
              sorted (λ a. omega arith) (by_priority-Ordered i ks) k here n,
        )
      ]

  -- If the index that a round takes is full then so are, at the same time, all that are not done.
  pub round-full :
      (i : Instance) (ks done : List Text) (k : Text)
      → contains ks k ≡ true
      → contains done k ≡ false
      → s.is_full (w.manager i.tick) (first_open done (by_priority s w setup method stream_id i ks))
        ≡ true
      → s.is_full (w.manager i.tick) k ≡ true
  round-full i ks done k m n f =
      let index = first_open done (by_priority s w setup method stream_id i ks) in
      let cm = w.manager i.tick in
      let best = (round-best i ks done k m n).2 in
      s.full_iff cm k
      ∙ leb_of_le (s.priority cm k) (s.priority cm index) best (sym (s.full_iff cm index) ∙ f)

  -- An outcome that is not for want of fuel.
  abbrev pub HasEnded : Outcome → Type 0
  HasEnded o = (i : Instance) × (r : Result LoadBalancerResult) × (o ≡ ended i r)

  next_round-HasEnded :
      (asked : Bool) (p : Instance × Result LoadBalancerResult) (again : Instance → Outcome)
      → ((i : Instance) → HasEnded (again i))
      → HasEnded (next_round s w setup method stream_id asked p again)
  next_round-HasEnded asked (i, ok r) again h = (i, ok r, refl)
  next_round-HasEnded true (i, err e) again h = elim (Bool-cases (w.cancelled i.tick)) [
    | inl c ↦ rw c (waited i, err context_canceled, refl)
    | inr c ↦ rw c (h (waited i))
  ]
  next_round-HasEnded false (i, err e) again h = h i

  pub try_rounds-HasEnded :
      (fuel : ℕ) (info : StreamInfo) (ks done : List Text) (i : Instance)
      → IsDistinct ks
      → length ks < fuel + length done
      → 0 < fuel
      → HasEnded (try_rounds s w setup method stream_id fuel info ks done i)
  unfolding try_rounds
  try_rounds-HasEnded zero info ks done i d h f = ground arith
  try_rounds-HasEnded (suc fuel) info ks done i d h f =
      let sorted = by_priority s w setup method stream_id i ks in
      let perm = by_priority-Perm i ks in
      let index = first_open done sorted in
      elim (Bool-cases (ltb (length done) (length ks))) [
        | inr c ↦ rw (c, try_rounds) (i, err no_available_streams, refl)
        | inl c ↦ elim (first_open-open done sorted) [
          | inl a ↦ ground (
            arith,
            length-distinct-le sorted done (Perm-IsDistinct (Perm.symm perm) d) a,
            Perm-length perm,
          )
          | inr (o, m) ↦
              rw (c, try_rounds)
                (next_round-HasEnded (has_index s w setup method stream_id info index) _ _ (λ j.
                  try_rounds-HasEnded fuel info sorted (mark_done index done) j
                    (Perm-IsDistinct (Perm.symm perm) d)
                    (ground (arith, length-mark_done done index o, Perm-length perm))
                    (ground arith)))
        ]
      ]
