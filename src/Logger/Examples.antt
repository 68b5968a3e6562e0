-- ===== src/Logger/Examples.antt =====
-- Loggers with the address of a source.
use streamweaver.Prelude.{◌≡◌, refl, ◌+◌, ◌≤◌, length, List, [], ◌∷◌, bytes, text_eq, Table, lookup}
use streamweaver.Logger.{
  Value, str, info, warn, level_of, DefaultLogger, new_default_logger, with_fields, new_event,
  clean_string,
}
use streamweaver.Logger.Fields.{new_standard_fields, with_url, apply_to_event}
use streamweaver.Logger.Repeats.{derive, times, has_field, derive-times}

-- A logger with an address, of which one with another address is derived, and of that one with no more fields.
abbrev first_logger : DefaultLogger
first_logger = with_fields ((bytes "url", str (bytes "a")) ∷ []) (new_default_logger [])

abbrev calls : List (Table Value)
calls = ((bytes "url", str (bytes "b")) ∷ []) ∷ [] ∷ []

derive-times_example :
    times (bytes "url") (new_event info first_logger).fields + length calls
    ≤ times (bytes "url") (new_event info (derive calls first_logger)).fields
unfolding has_field with_fields new_default_logger lookup text_eq
derive-times_example = derive-times (bytes "url") calls info first_logger refl

-- The line has all three values.
all_values :
    (new_event info (derive calls first_logger)).fields
    ≡ (bytes "url", str (bytes "a"))
      ∷ (bytes "url", str (bytes "b"))
      ∷ (bytes "url", str (bytes "b"))
      ∷ []
unfolding derive with_fields new_event new_default_logger text_eq
all_values = refl

redacted :
    clean_string (bytes "GET http://a/b now 1:2 ://") ≡ bytes "GET [redacted url] now 1:2 ://"
unfolding clean_string
redacted = refl

by_name : level_of (bytes "WARN") ≡ warn
unfolding level_of
by_name = refl

-- The later value of a field stands.
url_twice :
    (apply_to_event
      (with_url (bytes "b") (with_url (bytes "a") new_standard_fields))
      (new_event info (new_default_logger []))).fields
    ≡ (bytes "url", str (bytes "b")) ∷ []
unfolding apply_to_event with_url new_standard_fields new_event new_default_logger text_eq
url_twice = refl
