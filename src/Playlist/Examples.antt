-- ===== src/Playlist/Examples.antt =====
-- Two credentials, of which the later one counts.
use streamweaver.Prelude.{
  ◌≡◌, refl, inl, true, Option, none, some, List, [], ◌∷◌, Text, bytes, text_eq, is_empty, to_lower,
}
use streamweaver.Playlist.{Credential, load_credentials, handle_auth, Answer, file, serve_http}
use streamweaver.Playlist.Access.{last_named, grants, auth_open}

abbrev old_credential : Credential
old_credential = record { username = bytes "Ann"; password = bytes "x"; expiration = none }

abbrev new_credential : Credential
new_credential = record { username = bytes "ann"; password = bytes "y"; expiration = some 9 }

abbrev parse : Text → Option (List Credential)
parse text = some (old_credential ∷ new_credential ∷ [])

granted :
    grants 5
      (bytes "ANN")
      (bytes "y")
      (last_named (bytes "ANN") none (old_credential ∷ new_credential ∷ []))
    ≡ true
unfolding last_named text_eq to_lower is_empty streamweaver.Playlist.is_expired
granted = refl

auth_open_example :
    serve_http (load_credentials (λ text. none) (bytes "[..")) (bytes "m3u") 5 [] []
    ≡ file (bytes "m3u")
unfolding is_empty
auth_open_example = auth_open (λ text. none) (bytes "[..") (bytes "m3u") 5 [] [] (inl refl) refl
