-- ===== src/Slug/Names.antt =====
-- The way back from the address of a stream to what it names.
use streamweaver.Prelude.{
  ℕ, ◌≡◌, refl, ap, ◌∙◌, false, [], ◌∷◌, ◌++◌, arith, All, All-append, Text, bytes, is_empty,
  strip_prefix, trim_prefix, ◌==◌, if◌then◌else◌, ==_iff,
}
use mathlib.Core.List.{
  reverse, append_assoc, append-nil, reverse-cons, reverse-append, reverse-reverse,
}
use streamweaver.Coordinator.Pump.{if_false}
use streamweaver.LoadBalancer.Names.{get_stream_id, up_to, drop_slashes, base_name}
use streamweaver.Request.{extract_stream_url}

-- A text without the byte `c`.
abbrev pub Lacks : ℕ → Text → Type 0
Lacks c = All (λ d. (d == c) ≡ false)

up_to-Lacks : (c : ℕ) (s rest : Text) → Lacks c s → up_to c (s ++ c ∷ rest) ≡ s
unfolding up_to
up_to-Lacks c [] rest h = ground (arith, ==_iff c c)
up_to-Lacks c (d ∷ s) rest h = rw h.0 (ap (λ x. d ∷ x) (up_to-Lacks c s rest h.1))

up_to-all : (c : ℕ) (s : Text) → Lacks c s → up_to c s ≡ s
unfolding up_to
up_to-all c [] h = refl
up_to-all c (d ∷ s) h = rw h.0 (ap (λ x. d ∷ x) (up_to-all c s h.1))

Lacks-reverse : (c : ℕ) (s : Text) → Lacks c s → Lacks c (reverse s)
Lacks-reverse c [] h = tt
Lacks-reverse c (d ∷ s) h =
    rw (reverse-cons d s)
      (All-append (λ x. (x == c) ≡ false) (reverse s) (d ∷ []) (Lacks-reverse c s h.1) (h.0, tt))

drop_slashes-Lacks :
    (s rest : Text) → is_empty s ≡ false → Lacks b'/' s → drop_slashes (s ++ rest) ≡ s ++ rest
unfolding drop_slashes is_empty
drop_slashes-Lacks [] rest e h = absurd (ground (arith, e))
drop_slashes-Lacks (c ∷ s) rest e h = rw h.0

append-nonempty : (s t : Text) → is_empty t ≡ false → is_empty (s ++ t) ≡ false
unfolding is_empty
append-nonempty [] t h = h
append-nonempty (c ∷ s) t h = refl

nonempty_cons : (c : ℕ) (s : Text) → is_empty (c ∷ s) ≡ false
unfolding is_empty
nonempty_cons c s = refl

reverse-nonempty : (s : Text) → is_empty s ≡ false → is_empty (reverse s) ≡ false
reverse-nonempty [] h = h
reverse-nonempty (c ∷ s) h =
    rw (reverse-cons c s) (append-nonempty (reverse s) (c ∷ []) (nonempty_cons c []))

inner-name :
    (p name : Text)
    → is_empty name ≡ false
    → Lacks b'/' name
    → reverse (up_to b'/' (drop_slashes (reverse (p ++ b'/' ∷ name)))) ≡ name
inner-name p name e h =
    ap (λ (x : Text). reverse (up_to b'/' (drop_slashes x)))
      (reverse-append p (b'/' ∷ name)
        ∙ ap (λ (y : Text). y ++ reverse p) (reverse-cons b'/' name)
        ∙ append_assoc (reverse name) (b'/' ∷ []) (reverse p))
    ∙ ap (λ (x : Text). reverse (up_to b'/' x))
        (drop_slashes-Lacks (reverse name) (b'/' ∷ reverse p) (reverse-nonempty name e)
          (Lacks-reverse b'/' name h))
    ∙ ap (λ (x : Text). reverse x)
        (up_to-Lacks b'/' (reverse name) (reverse p) (Lacks-reverse b'/' name h))
    ∙ reverse-reverse name

pub append-cons : (p : Text) (c : ℕ) (s : Text) → is_empty (p ++ c ∷ s) ≡ false
append-cons p c s = append-nonempty p (c ∷ s) (nonempty_cons c s)

-- What follows the last slash.
pub base_name-last :
    (p name : Text) → is_empty name ≡ false → Lacks b'/' name → base_name (p ++ b'/' ∷ name) ≡ name
unfolding base_name
base_name-last p name e h =
    let n = inner-name p name e h in
    if_false (bytes ".") (append-cons p b'/' name) ∙ if_false (bytes "/") (ap is_empty n ∙ e) ∙ n

-- A text that is empty, or starts with a dot.
abbrev pub Dotted : Text → Type 0
Dotted [] = Unit
Dotted (c ∷ s) = c ≡ b'.'

up_to-Dotted : (s e : Text) → Lacks b'.' s → Dotted e → up_to b'.' (s ++ e) ≡ s
up_to-Dotted s [] d o = ap (up_to b'.') (append-nil s) ∙ up_to-all b'.' s d
up_to-Dotted s (c ∷ e) d o = rw o (up_to-Lacks b'.' s e d)

trim_prefix-Lacks : (s : Text) → Lacks b'/' s → trim_prefix s (bytes "/") ≡ s
unfolding trim_prefix strip_prefix
trim_prefix-Lacks [] h = refl
trim_prefix-Lacks (c ∷ s) h = ground (arith, h.0)

append-some : (s t : Text) → is_empty s ≡ false → is_empty (s ++ t) ≡ false
unfolding is_empty
append-some [] t h = absurd (ground (arith, h))
append-some (c ∷ s) t h = refl

-- The part of a name before its extension.
pub extract-name :
    (p slug e : Text)
    → is_empty slug ≡ false
    → Lacks b'/' slug
    → Lacks b'.' slug
    → Lacks b'/' e
    → Dotted e
    → extract_stream_url (p ++ b'/' ∷ (slug ++ e)) ≡ slug
unfolding extract_stream_url
extract-name p slug e n h d k o =
    ap (λ b. trim_prefix (up_to b'.' b) (bytes "/"))
      (base_name-last p (slug ++ e) (append-some slug e n)
        (All-append (λ x. (x == b'/') ≡ false) slug e h k))
    ∙ ap (λ b. trim_prefix b (bytes "/")) (up_to-Dotted slug e d o)
    ∙ trim_prefix-Lacks slug h

if_some :
    (s : Text)
    → is_empty s ≡ false
    → (if is_empty s then [] else trim_prefix s (bytes "/")) ≡ trim_prefix s (bytes "/")
if_some s h = if_false [] h

-- Likewise for the load balancer.
pub get_stream_id-name :
    (p slug e : Text)
    → is_empty slug ≡ false
    → Lacks b'/' slug
    → Lacks b'.' slug
    → Lacks b'/' e
    → Dotted e
    → get_stream_id (p ++ b'/' ∷ (slug ++ e)) ≡ slug
unfolding get_stream_id
get_stream_id-name p slug e n h d k o =
    let name : up_to b'.' (base_name (p ++ b'/' ∷ (slug ++ e))) ≡ slug =
      ap (up_to b'.') (
        base_name-last p (slug ++ e) (append-some slug e n)
          (All-append (λ x. (x == b'/') ≡ false) slug e h k))
      ∙ up_to-Dotted slug e d o in
    ap (λ (b : Text). if is_empty b then [] else trim_prefix b (bytes "/")) name
    ∙ if_some slug n
    ∙ trim_prefix-Lacks slug h
