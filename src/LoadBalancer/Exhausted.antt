-- ===== src/LoadBalancer/Exhausted.antt =====
-- What a failure of an index means for its addresses.
use mathlib.Core.List.{Perm, Permᴰ}
use mathlib.Core.Logic.{∥∥₁_elim}
use streamweaver.Prelude.{
  ℕ, suc, ◌≡◌, refl, ap, subst, ◌∙◌, Bool, true, ◌||◌, some, Option-cases, Bool-cases, inl, inr,
  ◌⊎◌, List, [], ◌∷◌, map, arith, Text, Table, lookup, text_eq, text_eq_iff, text_eq_refl, contains,
  SliceSort, ℤ, ltb_ℤ, ◌==◌,
}
use streamweaver.LoadBalancer.{
  err, BalanceError, Reply, bad_request, failed, no_response, replied, Slots, World, Instance,
  tested_of, mark_tested, candidate, waited,
}
use streamweaver.LoadBalancer.Names.{address_of, line_of, sort_stream_sub_urls}
use streamweaver.LoadBalancer.Candidates.{
  judge, note_sent, ask, try_candidate, try_subs, try_stream_urls,
}
use streamweaver.LoadBalancer.Sources.{result_cases}
use streamweaver.LoadBalancer.Walk.{Ends, judged, try_candidate-Ends, try_subs-Ends}
use streamweaver.LoadBalancer.Repeats.{contains-mark}

or_swap : (a b c : Bool) → (a || (b || c)) ≡ (b || (a || c))
or_swap a b c = ground arith

keys : {V : Type 0} → List (Text × V) → List Text
keys ps = map (λ p. p.0) ps

Permᴰ-keys :
    {V : Type 0} {ps qs : List (Text × V)} (t : Text)
    → Permᴰ ps qs
    → contains (keys ps) t ≡ contains (keys qs) t
unfolding contains keys
Permᴰ-keys t Permᴰ.nil = refl
Permᴰ-keys t (Permᴰ.cons {a} {b} e p) = rw e (ap (λ x. text_eq b.0 t || x) (Permᴰ-keys t p))
Permᴰ-keys t (Permᴰ.swap {a} {b} {l = l} e f) =
    rw (← e, ← f) (or_swap (text_eq a.0 t) (text_eq b.0 t) (contains (keys l) t))
Permᴰ-keys t (Permᴰ.trans p q) = Permᴰ-keys t p ∙ Permᴰ-keys t q

Perm-keys :
    {V : Type 0} {ps qs : List (Text × V)} (t : Text)
    → Perm ps qs
    → contains (keys ps) t ≡ contains (keys qs) t
Perm-keys t p = ∥∥₁_elim p (hlevel) (Permᴰ-keys t)

contains-lines :
    (urls : Table Text) (sub entry : Text)
    → lookup sub urls ≡ some entry
    → contains (keys (map (λ (e : Text × Text). (e.0, line_of e.1)) urls)) sub ≡ true
unfolding contains keys lookup
contains-lines [] sub entry h = ground arith
contains-lines ((k, v) ∷ urls) sub entry h = ground (arith, contains-lines urls sub entry)

-- Every key of the map is among the sorted keys.
contains-sort :
    (s : SliceSort (Text × ℤ)) (urls : Table Text) (sub entry : Text)
    → lookup sub urls ≡ some entry
    → contains (sort_stream_sub_urls s urls) sub ≡ true
unfolding sort_stream_sub_urls keys
contains-sort s urls sub entry h =
    let lines = map (λ (e : Text × Text). (e.0, line_of e.1)) urls in
    Perm-keys sub (s.permutes (λ a b. ltb_ℤ a.1 b.1) lines) ∙ contains-lines urls sub entry h

module _ (s : Slots) (w : World s) (method stream_id : Text) where
  IsTested : Text → Instance → Type 0
  IsTested t i = contains (tested_of i stream_id) t ≡ true

  mark-IsTested :
      (t id : Text) (i : Instance) → IsTested t i → IsTested t (mark_tested stream_id id i)
  unfolding IsTested
  mark-IsTested t id i h = ground (arith, contains-mark stream_id id t i)

  wait-IsTested : (t : Text) (i : Instance) → IsTested t i → IsTested t (waited i)
  unfolding IsTested tested_of waited
  wait-IsTested t i h = h

  send-IsTested :
      (t id : Text) (i : Instance)
      → IsTested t i
      → IsTested t (waited (record i { sent = id ∷ i.sent }))
  unfolding IsTested tested_of waited
  send-IsTested t id i h = h

  judged-IsTested :
      (t index sub url : Text) (reply : Reply) (i : Instance)
      → IsTested t i
      → Ends (IsTested t) (IsTested t) (judged s w method stream_id index sub url reply i)
  unfolding judge note_sent
  judged-IsTested t index sub url bad_request i h = mark-IsTested t _ _ (wait-IsTested t i h)
  judged-IsTested t index sub url failed i h =
      mark-IsTested t _ _ (send-IsTested t (candidate index sub) i h)
  judged-IsTested t index sub url no_response i h =
      mark-IsTested t _ _ (send-IsTested t (candidate index sub) i h)
  judged-IsTested t index sub url (replied response) i h =
      elim (Bool-cases (response.status_code == 200)) [
        | inl e ↦ rw (e, judge) (send-IsTested t (candidate index sub) i h)
        | inr e ↦ rw (e, judge) (mark-IsTested t _ _ (send-IsTested t (candidate index sub) i h))
      ]

  subs-IsTested :
      (t index : Text) (inner : Table Text) (subs : List Text) (i : Instance)
      → IsTested t i
      → Ends (IsTested t) (IsTested t) (try_subs s w method stream_id index inner subs i)
  subs-IsTested t index inner subs i h =
      try_subs-Ends s w method stream_id (IsTested t) (IsTested t) (wait-IsTested t)
        (λ index' entry sub j k.
          try_candidate-Ends s w method stream_id index' sub (IsTested t) (IsTested t)
            (wait-IsTested t) entry j
            (λ reply n k'. judged-IsTested t index' sub (address_of entry) reply (waited j) k') k)
        index inner subs i h

module _ (s : Slots) (w : World s) (method stream_id index : Text) (inner : Table Text) where
  -- The address was asked in vain, or the index was found full.
  pub IsSpent : Text → Instance → Type 0
  IsSpent sub i =
      (contains (tested_of i stream_id) (candidate index sub) ≡ true)
      ⊎ ((t : ℕ) × (s.is_full (w.manager t) index ≡ true))

  mark_self :
      (sub : Text) (i : Instance) → IsSpent sub (mark_tested stream_id (candidate index sub) i)
  unfolding IsSpent
  mark_self sub i = inl (
      ground (
        arith,
        contains-mark stream_id (candidate index sub) (candidate index sub) i,
        text_eq_refl (candidate index sub),
      ))

  judged-IsSpent :
      (sub url : Text) (reply : Reply) (i : Instance)
      → Ends (IsSpent sub) (λ j. Unit) (judged s w method stream_id index sub url reply i)
  unfolding judge note_sent
  judged-IsSpent sub url bad_request i = mark_self sub _
  judged-IsSpent sub url failed i = mark_self sub _
  judged-IsSpent sub url no_response i = mark_self sub _
  judged-IsSpent sub url (replied response) i = elim (Bool-cases (response.status_code == 200)) [
    | inl e ↦ rw (e, judge) tt
    | inr e ↦ rw (e, judge) (mark_self sub _)
  ]

  candidate-IsSpent :
      (entry sub : Text) (i : Instance)
      → Ends (IsSpent sub) (λ j. Unit) (try_candidate s w method stream_id index entry sub i)
  unfolding try_candidate ask IsSpent
  candidate-IsSpent entry sub i =
      elim (Bool-cases (contains (tested_of i stream_id) (candidate index sub))) [
        | inl c ↦ rw (c, try_candidate) (inl c)
        | inr c ↦ elim (Bool-cases (s.is_full (w.manager i.tick) index)) [
          | inl f ↦ rw (c, f, try_candidate) (inr (i.tick, f))
          | inr f ↦
              rw (c, f, try_candidate)
                (judged-IsSpent sub (address_of entry)
                  (w.fetch (suc i.tick) method (address_of entry)) (waited i))
        ]
      ]

  subs-IsSpent :
      (subs : List Text) (i i' : Instance) (e : BalanceError) (sub entry : Text)
      → try_subs s w method stream_id index inner subs i ≡ (i', err e)
      → contains subs sub ≡ true
      → lookup sub inner ≡ some entry
      → IsSpent sub i'
  unfolding try_subs contains IsSpent IsTested
  subs-IsSpent [] i i' e sub entry h m f = ground arith
  subs-IsSpent (k ∷ subs) i i' e sub entry h m f = elim (Option-cases (lookup k inner)) [
    | inl n ↦
        subs-IsSpent subs i i' e sub entry (rw (n, try_subs) at h)
          (ground (arith, text_eq_iff k sub)) f
    | inr (entry', n) ↦ elim (result_cases (try_candidate s w method stream_id index entry' k i)) [
      | inl (r, t) ↦ (let h' = rw (n, t, try_subs) at h in ground (arith, h'))
      | inr (e', t) ↦ elim (Bool-cases (text_eq k sub)) [
        | inr o ↦ subs-IsSpent subs _ i' e sub entry (rw (n, t, try_subs) at h) (ground arith) f
        | inl o ↦
            elim (subst (λ x. IsSpent x (try_candidate s w method stream_id index entry' k i).0)
              ((text_eq_iff k sub).0 o) (rw t at (candidate-IsSpent entry' k i))) [
                | inr full ↦ inr full
                | inl done ↦ inl (
                    rw (rw (n, t, try_subs) at h) at (
                      subs-IsTested s w method stream_id (candidate index sub) index inner subs
                        (try_candidate s w method stream_id index entry' k i).0 done))
              ]
      ]
    ]
  ]

  -- Where tryStreamUrls fails, with an HTTP client, each address of the index is a tested candidate
  -- afterwards, or the index had no room at some time.
  pub urls-IsSpent :
      (sub_sort : SliceSort (Text × ℤ)) (i i' : Instance) (e : BalanceError) (sub entry : Text)
      → try_stream_urls s w method stream_id index sub_sort true inner i ≡ (i', err e)
      → lookup sub inner ≡ some entry
      → (contains (tested_of i' stream_id) (candidate index sub) ≡ true)
        ⊎ ((t : ℕ) × (s.is_full (w.manager t) index ≡ true))
  unfolding try_stream_urls IsSpent
  urls-IsSpent sub_sort i i' e sub entry h f =
      subs-IsSpent (sort_stream_sub_urls sub_sort inner) i i' e sub entry h
        (contains-sort sub_sort inner sub entry f) f
