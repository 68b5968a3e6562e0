-- ===== src/Env/Filters.antt =====
-- The values that the first reading of a filter keeps.
use streamweaver.Prelude.{
  ◌≡◌, refl, ◌∙◌, none, some, List, ◌++◌, Text, bytes, text_eq_refl, Table, lookup, lookup-put, put,
}
use streamweaver.Env.{filters_of, get_filters}

-- A filter that was read is read again as it was, in whatever environment.
get_filters-again :
    (environ later : List Text) (base : Text) (filters : Table (List Text)) (values : List Text)
    → lookup base filters ≡ none
    → filters_of (base ++ bytes "_") environ ≡ some values
    → let filters' = put base values filters in
      (get_filters environ base filters ≡ some (values, filters'))
      × (get_filters later base filters' ≡ some (values, filters'))
unfolding get_filters
get_filters-again environ later base filters values n f =
    let kept : lookup base (put base values filters) ≡ some values =
      lookup-put base base values filters ∙ rw (text_eq_refl base) refl in
    (rw (n, get_filters) (rw (f, get_filters) refl), rw (kept, get_filters) refl)
