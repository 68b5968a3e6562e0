-- ===== src/Env/Examples.antt =====
-- A small environment.
use streamweaver.Prelude.{◌≡◌, refl, true, none, some, [], ◌∷◌, List, Text, bytes}
use streamweaver.Env.{m3u_indexes_of, filters_of, determine_base_url, name_of}

abbrev environ : List Text
environ =
    bytes "M3U_URL_1=http://a?x=y"
    ∷ bytes "INCLUDE_TITLE_1=^A"
    ∷ bytes "INCLUDE_TITLE_X=B"
    ∷ bytes "M3U_URL_B=file:///m"
    ∷ []

indexes : m3u_indexes_of environ ≡ bytes "1" ∷ bytes "B" ∷ []
unfolding m3u_indexes_of
indexes = refl

titles : filters_of (bytes "INCLUDE_TITLE_") environ ≡ some (bytes "^A" ∷ [])
unfolding filters_of name_of
titles = refl

by_host :
    determine_base_url none (some (record { host = bytes "h:8080"; tls = true }))
    ≡ bytes "https://h:8080"
unfolding determine_base_url
by_host = refl
