-- ===== src/LoadBalancer/Repeats.antt =====
-- The candidates that a lap asks.
use streamweaver.Prelude.{
  ℕ, ◌≡◌, refl, ap, true, false, ◌||◌, Bool-cases, inl, inr, List, [], ◌∷◌, ◌++◌, arith, Text,
  lookup-put, text_eq, text_eq_iff, text_eq_refl, contains, All, ◌==◌,
}
use streamweaver.LoadBalancer.{
  LoadBalancerResult, Result, ok, err, Reply, bad_request, failed, no_response, replied, Slots,
  World, Instance, tested_of, mark_tested, candidate, waited,
}
use streamweaver.LoadBalancer.Names.{address_of}
use streamweaver.LoadBalancer.Candidates.{judge, note_sent}
use streamweaver.LoadBalancer.Balance.{Setup, ended, try_all_streams}
use streamweaver.LoadBalancer.Distinct.{IsDistinct}
use streamweaver.LoadBalancer.Walk.{Ends, EndsIn, judged, try_candidate-Ends, try_all-EndsIn}

contains-append :
    (xs ys : List Text) (t : Text) → contains (xs ++ ys) t ≡ (contains xs t || contains ys t)
unfolding contains
contains-append [] ys t = refl
contains-append (x ∷ xs) ys t = ground (arith, contains-append xs ys t)

pub tested_of-mark :
    (stream_id id : Text) (i : Instance)
    → tested_of (mark_tested stream_id id i) stream_id ≡ tested_of i stream_id ++ id ∷ []
unfolding tested_of mark_tested
tested_of-mark stream_id id i = ground (
  arith,
  lookup-put stream_id stream_id (tested_of i stream_id ++ id ∷ []) i.tested,
  text_eq_refl stream_id,
)

pub contains-mark :
    (stream_id id t : Text) (i : Instance)
    → contains (tested_of (mark_tested stream_id id i) stream_id) t
      ≡ (contains (tested_of i stream_id) t || text_eq id t)
unfolding contains
contains-mark stream_id id t i =
    ground
      (arith, tested_of-mark stream_id id i, contains-append (tested_of i stream_id) (id ∷ []) t)

not_among :
    (xs tested : List Text) (t : Text)
    → All (λ x. contains tested x ≡ true) xs
    → contains tested t ≡ false
    → contains xs t ≡ false
unfolding contains
not_among [] tested t h n = refl
not_among (x ∷ xs) tested t h n = ground (arith, text_eq_iff x t, not_among xs tested t h.1 n)

All-map {ℓ κ} :
    {A : Type ℓ} (P Q : A → Type κ) (xs : List A) → ((x : A) → P x → Q x) → All P xs → All Q xs
All-map P Q [] f h = tt
All-map P Q (x ∷ xs) f h = (f x h.0, All-map P Q xs f h.1)

-- The requests sent since `sent` are for candidates that are distinct, and that were not tested then.
pub record AreNew (tested sent now : List Text) : Type 0 where
  pub asked : List Text
  pub sent_eq : now ≡ asked ++ sent
  pub distinct : IsDistinct asked
  pub untested : All (λ id. contains tested id ≡ false) asked

-- They are all tested, with all that was tested before.
record AreTested (stream_id : Text) (tested sent : List Text) (i : Instance) : Type 0 where
  are_new : AreNew tested sent i.sent
  marked : All (λ id. contains (tested_of i stream_id) id ≡ true) are_new.asked
  kept : (id : Text) → contains tested id ≡ true → contains (tested_of i stream_id) id ≡ true

module _ (stream_id : Text) (tested sent : List Text) where
  mark-AreTested :
      (id : Text) (i : Instance)
      → AreTested stream_id tested sent i
      → AreTested stream_id tested sent (mark_tested stream_id id i)
  unfolding mark_tested
  mark-AreTested id i h = record {
    are_new = h.are_new;
    marked =
        All-map _ _ h.are_new.asked (λ t k. ground (arith, contains-mark stream_id id t i))
          h.marked;
    kept = λ t k. ground (arith, contains-mark stream_id id t i, h.kept t k);
  }

  send-AreNew :
      (id : Text) (i : Instance)
      → AreTested stream_id tested sent i
      → contains (tested_of i stream_id) id ≡ false
      → AreNew tested sent (id ∷ i.sent)
  send-AreNew id i h n = record {
    asked = id ∷ h.are_new.asked;
    sent_eq = ap (λ x. id ∷ x) h.are_new.sent_eq;
    distinct =
        (not_among h.are_new.asked (tested_of i stream_id) id h.marked n, h.are_new.distinct);
    untested = (ground (arith, h.kept id), h.are_new.untested);
  }

  send-AreTested :
      (id : Text) (i : Instance)
      → AreTested stream_id tested sent i
      → contains (tested_of i stream_id) id ≡ false
      → AreTested stream_id tested sent
          (mark_tested stream_id id (waited (record i { sent = id ∷ i.sent })))
  unfolding mark_tested tested_of send-AreNew mark-AreTested waited
  send-AreTested id i h n =
      let h' = mark-AreTested id i h in
      record {
        are_new = send-AreNew id i h n;
        marked = (ground (arith, contains-mark stream_id id id i, text_eq_refl id), h'.marked);
        kept = h'.kept;
      }

  wait-AreTested :
      (i : Instance)
      → AreTested stream_id tested sent i
      → AreTested stream_id tested sent (waited i)
  unfolding waited tested_of
  wait-AreTested i h = record { are_new = h.are_new; marked = h.marked; kept = h.kept }

  module _ (s : Slots) (w : World s) (method index sub : Text) where
    judged-AreNew :
        (url : Text) (reply : Reply) (i : Instance)
        → contains (tested_of i stream_id) (candidate index sub) ≡ false
        → AreTested stream_id tested sent i
        → Ends
            (AreTested stream_id tested sent)
            (λ j. AreNew tested sent j.sent)
            (judged s w method stream_id index sub url reply i)
    unfolding judge note_sent waited mark_tested tested_of
    judged-AreNew url bad_request i n h =
        mark-AreTested (candidate index sub) (waited i) (wait-AreTested i h)
    judged-AreNew url failed i n h = send-AreTested (candidate index sub) i h n
    judged-AreNew url no_response i n h = send-AreTested (candidate index sub) i h n
    judged-AreNew url (replied response) i n h = elim (Bool-cases (response.status_code == 200)) [
      | inl e ↦ rw (e, judge) (send-AreNew (candidate index sub) i h n)
      | inr e ↦ rw (e, judge) (send-AreTested (candidate index sub) i h n)
    ]

try_all-AreNew :
    (s : Slots) (w : World s) (setup : Setup) (method stream_id : Text) (fuel : ℕ) (i : Instance)
    → EndsIn
        (AreTested stream_id (tested_of i stream_id) i.sent)
        (λ j. AreNew (tested_of i stream_id) i.sent j.sent)
        (try_all_streams s w setup method stream_id fuel i)
unfolding waited tested_of
try_all-AreNew s w setup method stream_id fuel i =
    let P = AreTested stream_id (tested_of i stream_id) i.sent in
    let Q : Instance → Type 0 = λ j. AreNew (tested_of i stream_id) i.sent j.sent in
    let wait = wait-AreTested stream_id (tested_of i stream_id) i.sent in
    try_all-EndsIn s w method stream_id P Q wait
      (λ index entry sub j h.
        try_candidate-Ends s w method stream_id index sub P Q wait entry j
          (λ reply n k.
            judged-AreNew stream_id (tested_of i stream_id) i.sent s w method index sub
              (address_of entry) reply (waited j) n k)
          h)
      setup fuel i
      (record {
        are_new = record { asked = []; sent_eq = refl; distinct = tt; untested = tt };
        marked = tt;
        kept = λ t h. h;
      })

-- In a lap, no candidate is asked twice, and none that was tested before: whatever the outcome, the
-- requests sent are for distinct candidates that were not tested when the lap began.
pub lap-once :
    (s : Slots) (w : World s) (setup : Setup) (method stream_id : Text) (fuel : ℕ) (i i' : Instance)
    (result : Result LoadBalancerResult)
    → try_all_streams s w setup method stream_id fuel i ≡ ended i' result
    → AreNew (tested_of i stream_id) i.sent i'.sent
lap-once s w setup method stream_id fuel i i' (ok r) h =
    rw h at (try_all-AreNew s w setup method stream_id fuel i)
lap-once s w setup method stream_id fuel i i' (err e) h =
    (rw h at (try_all-AreNew s w setup method stream_id fuel i)).are_new
