-- ===== src/Playlist/Access.antt =====
-- What the credentials of the environment let through.
use streamweaver.Prelude.{
  ℕ, ◌≡◌, ◌⊎◌, refl, ap, ◌∙◌, Bool, false, ◌&&◌, ◌||◌, not, Option, none, some, Option-cases,
  Bool-cases, inl, inr, List, [], ◌∷◌, arith, Text, bytes, text_eq, is_empty, to_lower, Table,
  lookup, lookup-put, put, if◌then◌else◌,
}
use streamweaver.Playlist.{
  Credential, add_all, load_credentials, is_expired, handle_auth, not_found, file, serve_http,
}

-- The last credential of that name, by lower-case letters, or the one given.
unfoldable pub last_named : Text → Option Credential → List Credential → Option Credential
unfolding to_lower text_eq
last_named user o [] = o
last_named user o (c ∷ cs) =
    last_named user (if text_eq (to_lower c.username) (to_lower user) then some c else o) cs

-- The user and the password are given, and are those of the credential, which has not expired.
abbrev pub grants : ℕ → Text → Text → Option Credential → Bool
grants now user pass none = false
grants now user pass (some c) =
    not (is_empty user) && not (is_empty pass) && text_eq pass c.password && not (is_expired now c)

lookup-add_all :
    (user : Text) (cs : List Credential) (m : Table Credential)
    → lookup (to_lower user) (add_all cs m) ≡ last_named user (lookup (to_lower user) m) cs
unfolding add_all last_named
lookup-add_all user [] m = refl
lookup-add_all user (c ∷ cs) m = rw (
  lookup-add_all user cs (put (to_lower c.username) c m),
  lookup-put (to_lower c.username) (to_lower user) c m,
)

put-cons :
    (k : Text) (c : Credential) (m : Table Credential)
    → (e : Text × Credential) × (es : Table Credential) × (put k c m ≡ e ∷ es)
unfolding put
put-cons k c [] = ((k, c), [], refl)
put-cons k c ((j, d) ∷ m) = elim (Bool-cases (text_eq j k)) [
  | inl e ↦ ((k, c), m, rw (e, put))
  | inr e ↦ ((j, d), put k c m, rw (e, put))
]

add_all-cons :
    (cs : List Credential) (e : Text × Credential) (es : Table Credential)
    → (f : Text × Credential) × (fs : Table Credential) × (add_all cs (e ∷ es) ≡ f ∷ fs)
unfolding add_all
add_all-cons [] e es = (e, es, refl)
add_all-cons (c ∷ cs) e es =
    let (g, gs, q) = put-cons (to_lower c.username) c (e ∷ es) in rw q (add_all-cons cs g gs)

handle_auth-cons :
    (now : ℕ) (user pass : Text) (m : Table Credential) (e : Text × Credential)
    (es : Table Credential)
    → m ≡ e ∷ es
    → handle_auth m now user pass ≡ grants now user pass (lookup (to_lower user) m)
unfolding handle_auth
handle_auth-cons now user pass m e es h =
    rw h (elim (Option-cases (lookup (to_lower user) (e ∷ es))) [
      | inl n ↦ rw (n, handle_auth) (ground arith)
      | inr (c, n) ↦ rw (n, handle_auth) (ground arith)
    ])

first_put :
    (c : Credential) (cs : List Credential)
    → add_all (c ∷ cs) [] ≡ add_all cs ((to_lower c.username, c) ∷ [])
unfolding add_all put
first_put c cs = refl

if_false {ℓ} : {A : Type ℓ} {b : Bool} (x : A) {y : A} → b ≡ false → (if b then x else y) ≡ y
if_false x h = rw h

-- Where the text of the credentials parses as a list that is not empty, a request is authorized exactly
-- when the last credential of its user's name, in whatever case, has its password and has not expired,
-- and neither name nor password is empty.
pub auth-last :
    (unmarshal : Text → Option (List Credential)) (text : Text) (c : Credential)
    (cs : List Credential) (now : ℕ) (user pass : Text)
    → (is_empty text || text_eq (to_lower text) (bytes "none")) ≡ false
    → unmarshal text ≡ some (c ∷ cs)
    → handle_auth (load_credentials unmarshal text) now user pass
      ≡ grants now user pass (last_named user none (c ∷ cs))
unfolding load_credentials lookup
auth-last unmarshal text c cs now user pass n h =
    rw (n, h, load_credentials)
      (let (e, es, q) = add_all-cons cs (to_lower c.username, c) [] in
        handle_auth-cons now user pass (add_all (c ∷ cs) []) e es (first_put c cs ∙ q)
        ∙ ap (grants now user pass) (lookup-add_all user (c ∷ cs) []))

-- Where the text of the credentials does not parse, or gives no credential, every request is
-- authorized: it gets the playlist, if there is one.
pub auth_open :
    (unmarshal : Text → Option (List Credential)) (text path : Text) (now : ℕ) (user pass : Text)
    → (unmarshal text ≡ none) ⊎ (unmarshal text ≡ some [])
    → is_empty path ≡ false
    → serve_http (load_credentials unmarshal text) path now user pass ≡ file path
unfolding serve_http load_credentials handle_auth add_all
auth_open unmarshal text path now user pass h p =
    elim (Bool-cases (is_empty text || text_eq (to_lower text) (bytes "none"))) [
      | inl e ↦ rw (e, load_credentials) (if_false not_found p)
      | inr e ↦ elim h [
        | inl n ↦ rw (e, n, load_credentials) (if_false not_found p)
        | inr n ↦ rw (e, n, load_credentials) (if_false not_found p)
      ]
    ]
