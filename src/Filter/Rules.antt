-- ===== src/Filter/Rules.antt =====
-- The rule that the filters stand for.
use streamweaver.Prelude.{
  ◌≡◌, refl, Bool, true, false, ◌&&◌, ◌||◌, not, Option, none, some, Option-cases, inl, inr, List,
  [], ◌∷◌, arith, Text, if◌then◌else◌,
}
use streamweaver.StreamInfo.{StreamInfo}
use streamweaver.Filter.{
  compile_regexes, init_filters, match_any, has_none, all_filters_empty, check_filter,
}

or_if : (a b c : Bool) → b ≡ c → (if a then true else b) ≡ (a || c)
or_if a b c h = ground arith

module _ {R : Type 0} (compile : Text → Option R) (matches : R → Text → Bool) where
  -- A text of the list compiles.
  unfoldable pub any_valid : List Text → Bool
  any_valid [] = false
  any_valid (f ∷ fs) = elim (compile f) [ none ↦ any_valid fs | some re ↦ true ]

  -- A text of the list compiles, and matches.
  unfoldable pub any_hit : List Text → Text → Bool
  any_hit [] s = false
  any_hit (f ∷ fs) s = elim (compile f) [
    | none ↦ any_hit fs s
    | some re ↦ matches re s || any_hit fs s
  ]

  has_none-compile : (fs : List Text) → has_none (compile_regexes compile fs) ≡ not (any_valid fs)
  unfolding compile_regexes any_valid
  has_none-compile [] = refl
  has_none-compile (f ∷ fs) = elim (Option-cases (compile f)) [
    | inl e ↦ rw (e, compile_regexes, any_valid) (has_none-compile fs)
    | inr (re, e) ↦ rw (e, compile_regexes, any_valid)
  ]

  match_any-compile :
      (fs : List Text) (s : Text) → match_any matches (compile_regexes compile fs) s ≡ any_hit fs s
  unfolding compile_regexes any_hit match_any
  match_any-compile [] s = refl
  match_any-compile (f ∷ fs) s = elim (Option-cases (compile f)) [
    | inl e ↦ rw (e, compile_regexes, any_hit) (match_any-compile fs s)
    | inr (re, e) ↦
        rw (e, compile_regexes, any_hit) (or_if (matches re s) _ _ (match_any-compile fs s))
  ]

  hit-valid : (fs : List Text) (s : Text) → any_valid fs ≡ false → any_hit fs s ≡ false
  unfolding any_valid any_hit
  hit-valid [] s h = refl
  hit-valid (f ∷ fs) s h = elim (Option-cases (compile f)) [
    | inl e ↦ rw (e, any_hit) (hit-valid fs s (rw (e, any_valid) at h))
    | inr (re, e) ↦ ground arith
  ]

  -- A channel is kept exactly when a text to include matches its group or title, or when no text to
  -- include compiles and none to exclude matches: inclusion wins over exclusion, and a text that is no
  -- regular expression counts for nothing.
  pub check_filter-init :
      (gs ts xgs xts : List Text) (stream : StreamInfo)
      → check_filter matches (init_filters compile gs ts xgs xts) stream ≡ (
          (any_hit gs stream.group || any_hit ts stream.title)
          || (not (any_valid gs || any_valid ts)
              && not (any_hit xgs stream.group || any_hit xts stream.title)))
  unfolding check_filter init_filters all_filters_empty
  check_filter-init gs ts xgs xts stream = ground (
    arith,
    has_none-compile gs,
    has_none-compile ts,
    has_none-compile xgs,
    has_none-compile xts,
    match_any-compile gs stream.group,
    match_any-compile ts stream.title,
    match_any-compile xgs stream.group,
    match_any-compile xts stream.title,
    hit-valid gs stream.group,
    hit-valid ts stream.title,
    hit-valid xgs stream.group,
    hit-valid xts stream.title,
  )
