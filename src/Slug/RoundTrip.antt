-- ===== src/Slug/RoundTrip.antt =====
-- The slug in an address is read back.
use streamweaver.Prelude.{
  ℕ, ap, sym, map, leb, contains, has_prefix, ◌&&◌, ◌||◌, ◌≡◌, refl, subst, All-append, ◌∙◌, Bool,
  Bool-cases, true, false, Option, none, some, List, [], ◌∷◌, ◌++◌, arith, Text, bytes, cut,
  is_empty, inl, inr, ◌==◌, if◌then◌else◌,
}
use mathlib.Core.List.{append_assoc, append-nil}
use streamweaver.LoadBalancer.Names.{get_stream_id}
use streamweaver.Request.{extract_stream_url}
use streamweaver.Request.Url.{ext}
use streamweaver.StreamInfo.{StreamInfo}
use streamweaver.Slug.{
  Codec, encode_slug, decode_slug, decode_stream_slug, ParsePath, get_file_extension_from_url,
  get_sub_path_from_url, extension_of, generate_stream_url,
}
use streamweaver.Slug.Names.{Lacks, Dotted, extract-name, get_stream_id-name}

-- The libraries read back what they wrote of `a`, as `b`; and base64 has neither a slash nor a dot.
pub record Keeps {ℓ} {A : Type ℓ} (codec : Codec A) (a b : A) : Type ℓ where
  pub json : Text
  pub packed : Text
  pub marshal_eq : codec.marshal a ≡ some json
  pub compress_eq : codec.compress json ≡ some packed
  pub decode_eq : codec.decode_string (codec.encode_to_string packed) ≡ some packed
  pub decompress_eq : codec.decompress packed ≡ some json
  pub unmarshal_eq : codec.unmarshal json ≡ some b
  pub some_text : is_empty (codec.encode_to_string packed) ≡ false
  pub no_slash : Lacks b'/' (codec.encode_to_string packed)
  pub no_dot : Lacks b'.' (codec.encode_to_string packed)

module _ {ℓ} {A : Type ℓ} (codec : Codec A) (a b : A) (k : Keeps codec a b) where
  pub encode_slug-Keeps : encode_slug codec a ≡ codec.encode_to_string k.packed
  unfolding encode_slug
  encode_slug-Keeps = rw (encode_slug, k.marshal_eq, k.compress_eq)

  pub decode-encode : decode_slug codec (encode_slug codec a) ≡ some b
  unfolding decode_slug
  decode-encode = rw (encode_slug-Keeps, decode_slug, k.decode_eq, k.decompress_eq) k.unmarshal_eq

-- An extension has no slash, and is empty or starts with a dot.
pub ext-Dotted : (s found : Text) → Dotted found → Dotted (ext s found)
unfolding ext
ext-Dotted [] found d = d
ext-Dotted (c ∷ s) found d = elim (Bool-cases (c == b'/')) [
  | inl e ↦ rw e (ext-Dotted s [] tt)
  | inr e ↦ elim (Bool-cases (c == b'.')) [
    | inl f ↦ rw (e, f) (ext-Dotted s (c ∷ s) (ground (arith, f)))
    | inr f ↦ rw (e, f) (ext-Dotted s found d)
  ]
]

-- From nothing found, and from a text that ends in what is left.
pub ext-Lacks-from :
    (s : Text)
    → Lacks b'/' (ext s []) × ((pre : Text) → Lacks b'/' pre → Lacks b'/' (ext s (pre ++ s)))
unfolding ext
ext-Lacks-from [] = (tt, λ pre h. rw (append-nil pre) h)
ext-Lacks-from (c ∷ s) = elim (Bool-cases (c == b'/')) [
  | inl e ↦ rw e ((ext-Lacks-from s).0, λ pre h. (ext-Lacks-from s).0)
  | inr e ↦ elim (Bool-cases (c == b'.')) [
    | inl f ↦
        rw (e, f)
          ((ext-Lacks-from s).1 (c ∷ []) (e, tt), λ pre h. (ext-Lacks-from s).1 (c ∷ []) (e, tt))
    | inr f ↦
        rw (e, f)
          (
            (ext-Lacks-from s).0,
            λ pre h.
                subst (λ x. Lacks b'/' (ext s x)) (append_assoc pre (c ∷ []) s)
                  ((ext-Lacks-from s).1 (pre ++ c ∷ [])
                    (All-append (λ x. (x == b'/') ≡ false) pre (c ∷ []) h (e, tt))),
          )
  ]
]

-- Such a text.
abbrev IsExtension : Text → Type 0
IsExtension e = Lacks b'/' e × Dotted e

if_either {ℓ} :
    {A : Type ℓ} (P : A → Type 0) (b : Bool) (x y : A) → P x → P y → P (if b then x else y)
if_either P true x y p q = p
if_either P false x y p q = q

extension_of-parts : (parse : ParsePath) (urls : List Text) → IsExtension (extension_of parse urls)
unfolding extension_of get_file_extension_from_url
extension_of-parts parse [] = (tt, tt)
extension_of-parts parse (url ∷ urls) =
    let later = extension_of-parts parse urls in
    elim (parse url)
      as (λ o.
        IsExtension
          (elim (elim o as (λ x. Option Text) [ none ↦ none | some path ↦ some (ext path []) ]) [
            | none ↦ extension_of parse urls
            | some e ↦ if is_empty e then extension_of parse urls else e
          ])) [
            | none ↦ later
            | some path ↦
                if_either IsExtension (is_empty (ext path [])) _ _ later
                  ((ext-Lacks-from path).0, ext-Dotted path [] tt)
          ]

-- An address, as a place, the slug, and an extension.
pub record Shape (slug url : Text) : Type 0 where
  pub place : Text
  pub extension : Text
  pub url_eq : url ≡ place ++ b'/' ∷ (slug ++ extension)
  pub no_slash : Lacks b'/' extension
  pub dotted : Dotted extension

pub Shape-last :
    (x slug e : Text) → Lacks b'/' e → Dotted e → Shape slug (x ++ bytes "/" ++ slug ++ e)
Shape-last x slug e h d = record {
  place = x;
  extension = e;
  url_eq = append_assoc (x ++ bytes "/") slug e ∙ append_assoc x (bytes "/") (slug ++ e);
  no_slash = h;
  dotted = d;
}

-- The place is given as two texts, the second without its slash.
pub Shape-under :
    (x y slug e : Text)
    → Shape slug (x ++ y ++ bytes "/" ++ slug ++ e)
    → Shape slug (x ++ (y ++ bytes "/") ++ slug ++ e)
Shape-under x y slug e s = subst (λ z. Shape slug (z ++ slug ++ e)) (append_assoc x y (bytes "/")) s

Shape-bare : (slug y : Text) → Shape slug (y ++ []) → Shape slug y
Shape-bare slug y s = subst (Shape slug) (append-nil y) s

Shape-either :
    (slug y e : Text) (o : Option (Text × Text))
    → Shape slug (y ++ e)
    → Shape slug (y ++ [])
    → Shape slug (elim o [ none ↦ y ++ e | some parts ↦ y ])
Shape-either slug y e none s t = s
Shape-either slug y e (some parts) s t = Shape-bare slug y t

generate_stream_url-Shape :
    {A : Type 0} (codec : Codec A) (parse : ParsePath) (base_url : Text) (urls : List Text)
    (first : Option Text) (a : A)
    → Shape (encode_slug codec a) (generate_stream_url codec parse base_url urls first a)
unfolding generate_stream_url
generate_stream_url-Shape codec parse base_url urls first a =
    let slug = encode_slug codec a in
    let e = extension_of-parts parse urls in
    elim (elim first as (λ x. Option Text) [
      | none ↦ none
      | some url ↦ get_sub_path_from_url parse url
    ])
      as (λ (o : Option Text). Shape slug (elim (cut (bytes ".m3u") (extension_of parse urls)) [
        | none ↦
            elim o [
              | none ↦ (base_url ++ bytes "/p/stream/") ++ slug
              | some p ↦ base_url ++ bytes "/p/" ++ p ++ bytes "/" ++ slug
            ]
            ++ extension_of parse urls
        | some parts ↦ elim o [
          | none ↦ (base_url ++ bytes "/p/stream/") ++ slug
          | some p ↦ base_url ++ bytes "/p/" ++ p ++ bytes "/" ++ slug
        ]
      ])) [
        | none ↦
            Shape-either slug ((base_url ++ bytes "/p/stream/") ++ slug) (extension_of parse urls) _
              (Shape-under base_url (bytes "/p/stream") slug (extension_of parse urls)
                (Shape-last (base_url ++ bytes "/p/stream") slug (extension_of parse urls) e.0 e.1))
              (Shape-under base_url (bytes "/p/stream") slug []
                (Shape-last (base_url ++ bytes "/p/stream") slug [] tt tt))
        | some p ↦
            Shape-either slug (base_url ++ bytes "/p/" ++ p ++ bytes "/" ++ slug)
              (extension_of parse urls) _
              (Shape-last (base_url ++ bytes "/p/" ++ p) slug (extension_of parse urls) e.0 e.1)
              (Shape-last (base_url ++ bytes "/p/" ++ p) slug [] tt tt)
      ]

pub Shape-names :
    {A : Type 0} (codec : Codec A) (a b : A) (url : Text)
    → Keeps codec a b
    → Shape (encode_slug codec a) url
    → (extract_stream_url url ≡ encode_slug codec a) × (get_stream_id url ≡ encode_slug codec a)
Shape-names codec a b url k s =
    let e = encode_slug-Keeps codec a b k in
    let slug = codec.encode_to_string k.packed in
    rw (s.url_eq, e)
      (
        extract-name s.place slug s.extension k.some_text k.no_slash k.no_dot s.no_slash s.dotted,
        get_stream_id-name s.place slug s.extension k.some_text k.no_slash k.no_dot s.no_slash
            s.dotted,
      )

-- The characters that the path of an address has as they are.
abbrev is_path_char : ℕ → Bool
is_path_char c =
    leb b'a' c && leb c b'z'
    || leb b'A' c && leb c b'Z'
    || leb b'0' c && leb c b'9'
    || contains (map (λ x. x ∷ []) (bytes "/-._~!$&'()*+,;=:@")) (c ∷ [])

unfoldable pub all_path_chars : Text → Bool
all_path_chars [] = true
all_path_chars (c ∷ s) = is_path_char c && all_path_chars s

-- A path that no part of is cut off or decoded: it has no question mark, number sign or per cent sign.
abbrev pub IsPath : Text → Type 0
IsPath p = (has_prefix p (bytes "/") ≡ true) × (all_path_chars p ≡ true)

-- r.URL.Path, of the request for an address that starts with the base, ends as the address does after the base.
pub record ReadsPath (request_path : Text → Text) (base_url : Text) : Type 0 where
  pub prefix : Text
  pub path_eq : (p : Text) → IsPath p → request_path (base_url ++ p) ≡ prefix ++ p

append-either :
    (base x y e : Text) (o : Option (Text × Text))
    → x ≡ base ++ y
    → elim o as (λ _. Text) [ none ↦ x ++ e | some parts ↦ x ]
      ≡ base ++ (elim o as (λ _. Text) [ none ↦ y ++ e | some parts ↦ y ])
append-either base x y e none h = ap (λ z. z ++ e) h ∙ append_assoc base y e
append-either base x y e (some parts) h = h

generate-base :
    {A : Type 0} (codec : Codec A) (parse : ParsePath) (base_url : Text) (urls : List Text)
    (first : Option Text) (a : A)
    → generate_stream_url codec parse base_url urls first a
      ≡ base_url ++ generate_stream_url codec parse [] urls first a
unfolding generate_stream_url
generate-base codec parse base_url urls first a =
    let slug = encode_slug codec a in
    let sub_path : Option Text = elim first [
      | none ↦ none
      | some url ↦ get_sub_path_from_url parse url
    ] in
    append-either base_url _ _ (extension_of parse urls)
      (cut (bytes ".m3u") (extension_of parse urls))
      (elim sub_path
        as (λ (o : Option Text).
          (elim o as (λ _. Text) [
            | none ↦ (base_url ++ bytes "/p/stream/") ++ slug
            | some p ↦ base_url ++ bytes "/p/" ++ p ++ bytes "/" ++ slug
          ])
          ≡ base_url ++ (elim o as (λ _. Text) [
            | none ↦ bytes "/p/stream/" ++ slug
            | some p ↦ bytes "/p/" ++ p ++ bytes "/" ++ slug
          ])) [
            | none ↦ append_assoc base_url (bytes "/p/stream/") slug
            | some p ↦
                ap (λ z. z ++ bytes "/" ++ slug) (append_assoc base_url (bytes "/p/") p)
                ∙ ap (λ z. z ++ slug) (append_assoc base_url (bytes "/p/" ++ p) (bytes "/"))
                ∙ append_assoc base_url (bytes "/p/" ++ p ++ bytes "/") slug
          ])

-- The address that the playlist has for a channel is asked for, and what it has after the base is of characters that a
-- path has as they are, so that the handlers get it as the end of the request's path. Then the path is
-- read, by the stream handler and by the load balancer, as what the libraries keep of the channel, with an empty
-- map of addresses. The libraries must keep something, in base64 without slashes and dots.
pub generate_stream_url-decode :
    (codec : Codec StreamInfo) (parse : ParsePath) (request_path : Text → Text) (base_url : Text)
    (urls : List Text) (first : Option Text) (a b : StreamInfo)
    → Keeps codec a b
    → ReadsPath request_path base_url
    → IsPath (generate_stream_url codec parse [] urls first a)
    → let path = request_path (generate_stream_url codec parse base_url urls first a) in
      (decode_stream_slug codec (extract_stream_url path) ≡ some (record b { urls = some [] }))
      × (decode_stream_slug codec (get_stream_id path) ≡ some (record b { urls = some [] }))
unfolding decode_stream_slug
generate_stream_url-decode codec parse request_path base_url urls first a b k r h =
    let path_eq =
      ap request_path (generate-base codec parse base_url urls first a)
      ∙ r.path_eq _ h
      ∙ sym (generate-base codec parse r.prefix urls first a) in
    let (x, y) =
      Shape-names codec a b _ k (generate_stream_url-Shape codec parse r.prefix urls first a) in
    rw (path_eq, x, y, decode_stream_slug, decode-encode codec a b k) (refl, refl)
