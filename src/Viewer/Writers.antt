-- ===== src/Viewer/Writers.antt =====
-- The writers of a stream and their contexts, over any interleaving of clients of HandleStream in
-- proxy/stream/media_stream.go.
use streamweaver.Prelude.{
  ℕ, zero, suc, ◌+◌, ◌≤◌, ◌<◌, ◌≡◌, ◌∙◌, ◌⊎◌, refl, sym, subst, ◌≢◌, Bool, true, false, Option,
  none, some, List, [], ◌∷◌, arith, All, pos, eqb_ℤ, if◌then◌else◌, Option-cases, Bool-cases, inl,
  inr,
}
use streamweaver.Coordinator.Pump.{if_false}
use streamweaver.Coordinator.{StreamCoordinator}
use streamweaver.Viewer.Session.{
  Session, Writers, no_writers, make_context, start_writer, join_stream, run_writer, end_writer,
  cancel_writer, unregister, release,
}

-- One section of a client or of a writer's goroutine. What writers and readers do to the coordinator
-- meanwhile is `change`.
pub data SessionStep : Session → Session → Type 0 where
  join : (s : Session) → SessionStep s (join_stream s)
  run : (s : Session) → SessionStep s (record s { writers = (run_writer s.writers).0 })
  finish : (s : Session) → SessionStep s (record s { writers = end_writer s.writers })
  part : (s : Session) → SessionStep s (unregister s)
  clean : (s : Session) → SessionStep s (release s)
  change : (s : Session) (c : StreamCoordinator) → SessionStep s (record s { coordinator = c })

pub data Reaches (c : StreamCoordinator) : Session → Type 0 where
  here : Reaches c (record { coordinator = c; writers = no_writers })
  next : {s t : Session} → Reaches c s → SessionStep s t → Reaches c t

ℕ-cases : (n : ℕ) → (n ≡ 0) ⊎ ((m : ℕ) × (n ≡ suc m))
ℕ-cases zero = inl refl
ℕ-cases (suc n) = inr (n, refl)

if_same {ℓ} :
    {A : Type ℓ} (P : A → Type 0) (b : Bool) (x y : A) → P x → P y → P (if b then x else y)
if_same P true x y p q = p
if_same P false x y p q = q

abbrev pub one_if : Bool → ℕ
one_if true = 1
one_if false = 0

-- The current context is one of those made, and none of the cancelled ones.
abbrev pub IsCurrent : Option ℕ → ℕ → List ℕ → Type 0
IsCurrent none n ks = Unit
IsCurrent (some k) n ks = (k < n) × All (λ j. j ≢ k) ks

pub record IsSafe (w : Writers) : Type 0 where
  pub one_writer : w.starting + w.running ≡ one_if w.active
  pub matched : w.cancel ≡ w.ctx
  pub current : IsCurrent w.ctx w.contexts w.cancelled
  pub made : All (λ j. j < w.contexts) w.cancelled

made-ne : (n : ℕ) (ks : List ℕ) → All (λ j. j < n) ks → All (λ j. j ≢ n) ks
made-ne n [] h = tt
made-ne n (k ∷ ks) h = ((λ e. absurd (omega (arith, e, h.0))), made-ne n ks h.1)

made-suc : (n : ℕ) (ks : List ℕ) → All (λ j. j < n) ks → All (λ j. j < suc n) ks
made-suc n [] h = tt
made-suc n (k ∷ ks) h = (omega (arith, h.0), made-suc n ks h.1)

make_context-some : (w : Writers) (k : ℕ) → w.ctx ≡ some k → make_context w ≡ w
unfolding make_context
make_context-some w k e = ground (arith, e)

make_context-none :
    (w : Writers)
    → w.ctx ≡ none
    → make_context w
      ≡ record w { ctx = some w.contexts; cancel = some w.contexts; contexts = suc w.contexts }
unfolding make_context
make_context-none w e = ground (arith, e)

make_context-IsSafe : (w : Writers) → IsSafe w → IsSafe (make_context w)
make_context-IsSafe w v = elim (Option-cases w.ctx) [
  | inl e ↦ subst IsSafe (sym (make_context-none w e)) (record {
    one_writer = v.one_writer;
    matched = refl;
    current = (omega arith, made-ne w.contexts w.cancelled v.made);
    made = made-suc w.contexts w.cancelled v.made;
  })
  | inr (k, e) ↦ subst IsSafe (sym (make_context-some w k e)) v
]

make_context-idle :
    (w : Writers) → IsSafe w → w.active ≡ false → (make_context w).running + w.starting ≡ 0
unfolding make_context
make_context-idle w v e = ground (arith, e, v.one_writer)

pub start_writer-same : (w : Writers) → w.active ≡ true → start_writer w ≡ w
unfolding start_writer
start_writer-same w e = ground (arith, e)

start_writer-begins :
    (w : Writers)
    → w.active ≡ false
    → start_writer w ≡ record (make_context w) { active = true; starting = suc w.starting }
unfolding start_writer
start_writer-begins w e = if_false w e

make_context-starting : (w : Writers) → (make_context w).starting ≡ w.starting
unfolding make_context
make_context-starting w = ground arith

start_writer-IsSafe : (w : Writers) → IsSafe w → IsSafe (start_writer w)
start_writer-IsSafe w v = elim (Bool-cases w.active) [
  | inl e ↦ subst IsSafe (sym (start_writer-same w e)) v
  | inr e ↦
      let u = make_context-IsSafe w v in
      subst IsSafe (sym (start_writer-begins w e)) (record {
        one_writer = omega (arith, make_context-starting w, make_context-idle w v e);
        matched = u.matched;
        current = u.current;
        made = u.made;
      })
]

cancel_writer-some :
    (w : Writers) (k : ℕ)
    → w.cancel ≡ some k
    → cancel_writer w ≡ record w { ctx = none; cancel = none; cancelled = k ∷ w.cancelled }
unfolding cancel_writer
cancel_writer-some w k e = ground (arith, e)

cancel_writer-none : (w : Writers) → w.cancel ≡ none → cancel_writer w ≡ record w { ctx = none }
unfolding cancel_writer
cancel_writer-none w e = ground (arith, e)

cancel_writer-IsSafe : (w : Writers) → IsSafe w → IsSafe (cancel_writer w)
cancel_writer-IsSafe w v = elim (Option-cases w.cancel) [
  | inl e ↦
      subst IsSafe (sym (cancel_writer-none w e))
        (record { one_writer = v.one_writer; matched = e; current = tt; made = v.made })
  | inr (k, e) ↦
      let now : IsCurrent (some k) w.contexts w.cancelled =
        subst (λ o. IsCurrent o w.contexts w.cancelled) (sym v.matched ∙ e) v.current in
      subst IsSafe (sym (cancel_writer-some w k e))
        (record { one_writer = v.one_writer; matched = refl; current = tt; made = (now.0, v.made) })
]

release-IsSafe : (s : Session) → IsSafe s.writers → IsSafe (release s).writers
unfolding release
release-IsSafe s v =
    if_same (λ t. IsSafe t.writers) (eqb_ℤ s.coordinator.client_count (pos 0)) _ s
      (cancel_writer-IsSafe s.writers v) v

run_writer-zero : (w : Writers) → w.starting ≡ 0 → (run_writer w).0 ≡ w
unfolding run_writer
run_writer-zero w e = ground (arith, e)

run_writer-suc :
    (w : Writers) (n : ℕ)
    → w.starting ≡ suc n
    → (run_writer w).0 ≡ record w { starting = n; running = suc w.running }
unfolding run_writer
run_writer-suc w n e = ground (arith, e)

run_writer-IsSafe : (w : Writers) → IsSafe w → IsSafe (run_writer w).0
run_writer-IsSafe w v = elim (ℕ-cases w.starting) [
  | inl e ↦ subst IsSafe (sym (run_writer-zero w e)) v
  | inr (n, e) ↦ subst IsSafe (sym (run_writer-suc w n e)) (record {
    one_writer = omega (arith, v.one_writer, e);
    matched = v.matched;
    current = v.current;
    made = v.made;
  })
]

end_writer-zero : (w : Writers) → w.running ≡ 0 → end_writer w ≡ w
unfolding end_writer
end_writer-zero w e = ground (arith, e)

end_writer-suc :
    (w : Writers) (n : ℕ)
    → w.running ≡ suc n
    → end_writer w ≡ record w { running = n; active = false }
unfolding end_writer
end_writer-suc w n e = ground (arith, e)

one_if-le : (b : Bool) → one_if b ≤ 1
one_if-le true = omega arith
one_if-le false = omega arith

end_writer-IsSafe : (w : Writers) → IsSafe w → IsSafe (end_writer w)
end_writer-IsSafe w v = elim (ℕ-cases w.running) [
  | inl e ↦ subst IsSafe (sym (end_writer-zero w e)) v
  | inr (n, e) ↦ subst IsSafe (sym (end_writer-suc w n e)) (record {
    one_writer = omega (arith, v.one_writer, e, one_if-le w.active);
    matched = v.matched;
    current = v.current;
    made = v.made;
  })
]

Step-IsSafe : {s t : Session} → SessionStep s t → IsSafe s.writers → IsSafe t.writers
unfolding join_stream unregister
Step-IsSafe (join s) v = start_writer-IsSafe s.writers v
Step-IsSafe (run s) v = run_writer-IsSafe s.writers v
Step-IsSafe (finish s) v = end_writer-IsSafe s.writers v
Step-IsSafe (part s) v = v
Step-IsSafe (clean s) v = release-IsSafe s v
Step-IsSafe (change s c) v = v

-- However the sections of the clients and of the writer's goroutines follow one another: a stream has one writer at
-- most, begun or running, and it has one just when the flag is set; the writer's context and its cancel
-- function belong together; and the current context is never one that was cancelled.
pub Reaches-IsSafe : {c : StreamCoordinator} {s : Session} → Reaches c s → IsSafe s.writers
unfolding no_writers
Reaches-IsSafe here = record { one_writer = refl; matched = refl; current = tt; made = tt }
Reaches-IsSafe (next r st) = Step-IsSafe st (Reaches-IsSafe r)
