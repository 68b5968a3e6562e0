-- ===== src/LoadBalancer/Names.antt =====
-- The stream's name in a request path, and the order of the sub-addresses (sourceproc/helpers.go).
use streamweaver.Prelude.{
  ℕ, none, some, List, [], ◌∷◌, map, Text, bytes, Table, cut, trim_prefix, is_empty, atoi, ℤ, ltb_ℤ,
  SliceSort, ◌==◌, if◌then◌else◌,
}
use mathlib.Core.List.{reverse}

unfoldable pub drop_slashes : Text → Text
drop_slashes [] = []
drop_slashes (c ∷ s) = if c == b'/' then drop_slashes s else c ∷ s

-- The text up to the first `c`, or all of it.
unfoldable pub up_to : ℕ → Text → Text
up_to c [] = []
up_to c (d ∷ s) = if d == c then [] else d ∷ up_to c s

-- path.Base
unfoldable pub base_name : Text → Text
unfolding drop_slashes up_to is_empty
base_name path =
    let name = reverse (up_to b'/' (drop_slashes (reverse path))) in
    if is_empty path then bytes "." else if is_empty name then bytes "/" else name

-- strings.Split(path.Base(p), ".")[0], without a leading slash.
unfoldable pub get_stream_id : Text → Text
unfolding base_name trim_prefix
get_stream_id path =
    let stream_id = up_to b'.' (base_name path) in
    if is_empty stream_id then [] else trim_prefix stream_id (bytes "/")

-- The part of an entry before ":::", which is a line number.
unfoldable pub line_of : Text → ℤ
unfolding cut atoi
line_of url = elim (cut (bytes ":::") url) [
  | none ↦ (atoi url).0
  | some (number, rest) ↦ (atoi number).0
]

-- The part after ":::", or the whole.
unfoldable pub address_of : Text → Text
unfolding cut
address_of entry = elim (cut (bytes ":::") entry) [ none ↦ entry | some (number, rest) ↦ rest ]

unfoldable pub sort_stream_sub_urls : SliceSort (Text × ℤ) → Table Text → List Text
unfolding line_of
sort_stream_sub_urls s urls =
    map (λ (p : Text × ℤ). p.0)
      (s.sort (λ a b. ltb_ℤ a.1 b.1) (map (λ (e : Text × Text). (e.0, line_of e.1)) urls))
