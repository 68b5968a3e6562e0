-- ===== src/Filter.antt =====
-- sourceproc/filter.go: which channels are kept. The regular expressions are those of a library: their
-- type, the compiler and the match are parameters.
pub mod Rules
mod Examples
use streamweaver.Prelude.{
  Bool, true, false, ◌&&◌, ◌||◌, Option, none, some, List, [], ◌∷◌, Text, if◌then◌else◌,
}
use streamweaver.StreamInfo.{StreamInfo}

pub record Filters (R : Type 0) : Type 0 where
  pub include_groups : List R
  pub include_titles : List R
  pub exclude_groups : List R
  pub exclude_titles : List R

module _ {R : Type 0} where
  -- A text that does not compile is left out.
  unfoldable pub compile_regexes : (Text → Option R) → List Text → List R
  compile_regexes compile [] = []
  compile_regexes compile (f ∷ fs) =
      let rest = compile_regexes compile fs in
      elim (compile f) [ none ↦ rest | some re ↦ re ∷ rest ]

  -- The four lists of texts: those to include, by group and title, and those to exclude.
  unfoldable pub init_filters :
      (Text → Option R) → List Text → List Text → List Text → List Text → Filters R
  unfolding compile_regexes
  init_filters compile include_groups include_titles exclude_groups exclude_titles = record {
    include_groups = compile_regexes compile include_groups;
    include_titles = compile_regexes compile include_titles;
    exclude_groups = compile_regexes compile exclude_groups;
    exclude_titles = compile_regexes compile exclude_titles;
  }

  unfoldable pub match_any : (R → Text → Bool) → List R → Text → Bool
  match_any matches [] s = false
  match_any matches (re ∷ regexes) s = if matches re s then true else match_any matches regexes s

  abbrev pub has_none : List R → Bool
  has_none [] = true
  has_none (r ∷ rs) = false

  unfoldable pub all_filters_empty : Filters R → Bool
  all_filters_empty f =
      has_none f.include_groups
      && has_none f.include_titles
      && has_none f.exclude_groups
      && has_none f.exclude_titles

  unfoldable pub check_filter : (R → Text → Bool) → Filters R → StreamInfo → Bool
  unfolding all_filters_empty match_any
  check_filter matches f stream =
      if all_filters_empty f
      then true
      else if match_any matches f.include_groups stream.group
          || match_any matches f.include_titles stream.title
      then true
      else if match_any matches f.exclude_groups stream.group
          || match_any matches f.exclude_titles stream.title
      then false
      else has_none f.include_groups && has_none f.include_titles
