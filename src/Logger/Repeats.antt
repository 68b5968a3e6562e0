-- ===== src/Logger/Repeats.antt =====
-- How often a field of a logger stands in the lines of the loggers that are derived from it.
use streamweaver.Prelude.{
  ◌≡◌, refl, ℕ, suc, ◌+◌, ◌≤◌, Bool, true, false, ◌||◌, none, some, List, [], ◌∷◌, ◌++◌, arith,
  length, Text, text_eq, Table, lookup, lookup-put, put, if◌then◌else◌,
}
use streamweaver.Logger.{Value, Level, DefaultLogger, put_fields, with_fields, new_event}

-- A logger that is derived from another, by one call of WithFields after another.
unfoldable pub derive : List (Table Value) → DefaultLogger → DefaultLogger
unfolding with_fields
derive [] l = l
derive (fields ∷ rest) l = derive rest (with_fields fields l)

unfoldable pub times : Text → List (Text × Value) → ℕ
times k [] = 0
times k ((j, v) ∷ m) = let rest = times k m in if text_eq j k then suc rest else rest

unfoldable pub has_field : Text → Table Value → Bool
unfolding lookup
has_field k m = elim (lookup k m) [ none ↦ false | some v ↦ true ]

has_field-put_fields :
    (k : Text) (more m : Table Value)
    → has_field k (put_fields more m) ≡ (has_field k more || has_field k m)
unfolding put_fields has_field
has_field-put_fields k [] m = refl
has_field-put_fields k ((j, v) ∷ more) m =
    ground (arith, has_field-put_fields k more (put j v m), lookup-put j k v m)

has_field-times : (k : Text) (m : Table Value) → has_field k m ≡ true → 1 ≤ times k m
unfolding has_field times
has_field-times k [] h = ground (arith, h)
has_field-times k ((j, v) ∷ m) h = ground (arith, h, has_field-times k m)

times-append :
    (k : Text) (xs ys : List (Text × Value)) → times k (xs ++ ys) ≡ times k xs + times k ys
unfolding times
times-append k [] ys = omega arith
times-append k ((j, v) ∷ xs) ys = ground (arith, times-append k xs ys)

with_fields-has :
    (k : Text) (fields : Table Value) (l : DefaultLogger)
    → has_field k l.fields ≡ true
    → has_field k (with_fields fields l).fields ≡ true
unfolding with_fields has_field
with_fields-has k fields l h = ground (
  arith,
  h,
  has_field-put_fields k fields (put_fields l.fields []),
  has_field-put_fields k l.fields [],
)

with_fields-times :
    (k : Text) (fields : Table Value) (l : DefaultLogger)
    → has_field k l.fields ≡ true
    → suc (times k l.context) ≤ times k (with_fields fields l).context
unfolding with_fields
with_fields-times k fields l h = omega (
  arith,
  times-append k l.context (with_fields fields l).fields,
  has_field-times k (with_fields fields l).fields (with_fields-has k fields l h),
)

-- A logger has a field, and another is derived from it, by any calls of WithFields, with any fields. Then an event of the
-- new one has a field of that name at least once more for every call.
pub derive-times :
    (k : Text) (calls : List (Table Value)) (level : Level) (l : DefaultLogger)
    → has_field k l.fields ≡ true
    → times k (new_event level l).fields + length calls
      ≤ times k (new_event level (derive calls l)).fields
unfolding new_event derive
derive-times k [] level l h = omega arith
derive-times k (fields ∷ rest) level l h = omega (
  arith,
  with_fields-times k fields l h,
  derive-times k rest level (with_fields fields l) (with_fields-has k fields l h),
)
