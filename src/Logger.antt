-- ===== src/Logger.antt =====
-- logger/defaults.go: a logger with its level and its fields, the lines that it writes, and what SAFE_LOGS takes from them.
-- A line is what zerolog is given; its print is left out.
pub mod Fields
pub mod Repeats
mod Examples
use streamweaver.Prelude.{
  ℕ, zero, suc, ◌+◌, ◌-◌, Bool, true, false, not, ◌&&◌, ◌||◌, Option, none, some, List, [], ◌∷◌,
  ◌++◌, Text, bytes, text_eq, to_lower, strip_prefix, Table, put, ℤ, leb, ◌==◌, if◌then◌else◌,
}
use streamweaver.Correlation.{Context, correlation, correlation_id_from_context}

pub data Level : Type 0 where
  debug info warn error fatal : Level

abbrev pub rank : Level → ℕ
rank debug = 0
rank info = 1
rank warn = 2
rank error = 3
rank fatal = 4

-- LOG_LEVEL.
unfoldable pub level_of : Text → Level
unfolding text_eq to_lower
level_of text =
    let s = to_lower text in
    if text_eq s (bytes "debug")
    then debug
    else if text_eq s (bytes "warn")
    then warn
    else if text_eq s (bytes "error")
    then error
    else if text_eq s (bytes "fatal")
    then fatal
    else info

-- The types of a field; a float and a value of another type are as they are printed.
pub data Value : Type 0 where
  str float64 other : Text → Value
  int int64 dur : ℤ → Value
  bool : Bool → Value
  time : ℕ → Value
  nil : Value

-- `context` is what zerolog's logger has been given of fields; it writes all of them, also those of one name.
pub record DefaultLogger : Type 0 where
  pub level : Level
  pub fields : Table Value
  pub context : List (Text × Value)

pub record Line : Type 0 where
  pub level : Level
  pub fields : List (Text × Value)
  pub message : Text

-- An event that the level does not let through is not enabled, and its calls do nothing.
pub record Event : Type 0 where
  pub level : Level
  pub enabled : Bool
  pub fields : List (Text × Value)

unfoldable pub new_default_logger : Text → DefaultLogger
unfolding level_of
new_default_logger log_level = record { level = level_of log_level; fields = []; context = [] }

unfoldable pub put_fields : Table Value → Table Value → Table Value
unfolding put
put_fields [] m = m
put_fields ((k, v) ∷ rest) m = put_fields rest (put k v m)

unfoldable pub with_fields : Table Value → DefaultLogger → DefaultLogger
unfolding put_fields
with_fields fields l =
    let new_fields = put_fields fields (put_fields l.fields []) in
    record l { fields = new_fields; context = l.context ++ new_fields }

unfoldable pub with_correlation_id : Option Context → DefaultLogger → DefaultLogger
unfolding with_fields correlation_id_from_context
with_correlation_id none l = l
with_correlation_id (some ctx) l = elim (correlation_id_from_context correlation ctx) [
  | none ↦ l
  | some id ↦ with_fields ((bytes "correlation_id", str id) ∷ []) l
]

-- `safe` is whether SAFE_LOGS is true.
unfoldable pub with_sensitive_field : Bool → Text → Text → DefaultLogger → DefaultLogger
unfolding with_fields
with_sensitive_field safe key value =
    with_fields ((key, str (if safe then bytes "[redacted]" else value)) ∷ [])

-- InfoEvent and the like.
unfoldable pub new_event : Level → DefaultLogger → Event
new_event level l = record {
  level = level;
  enabled = leb (rank l.level) (rank level);
  fields = l.context;
}

-- Str, Int and the like.
unfoldable pub add_field : Text → Value → Event → Event
add_field key value e = record e { fields = e.fields ++ (key, value) ∷ [] }

-- The pattern of an address: a letter, more of a scheme, "://", and at least one of the characters of an address.
abbrev is_letter : ℕ → Bool
is_letter c = leb b'a' c && leb c b'z' || leb b'A' c && leb c b'Z'

abbrev is_scheme : ℕ → Bool
is_scheme c = is_letter c || leb b'0' c && leb c b'9' || c == b'+' || c == b'.' || c == b'-'

abbrev is_address : ℕ → Bool
is_address c =
    is_scheme c
    || c == b'%'
    || c == b'/'
    || c == b':'
    || c == b'_'
    || c == b'?'
    || c == b'&'
    || c == b'='
    || c == b'#'
    || c == b'@'

-- How many characters of a text have a property, up to one that has not, and what follows them.
unfoldable pub span : (ℕ → Bool) → Text → ℕ × Text
span p [] = (0, [])
span p (c ∷ s) = let rest = span p s in if p c then (rest.0 + 1, rest.1) else (0, c ∷ s)

-- The length of the match that a text starts with.
unfoldable pub match_length : Text → Option ℕ
unfolding span strip_prefix
match_length [] = none
match_length (c ∷ s) =
    let (scheme, after) = span is_scheme s in
    elim (strip_prefix (bytes "://") after) [
      | none ↦ none
      | some rest ↦
          let address = (span is_address rest).0 in
          if is_letter c && not (address == 0) then some (scheme + address + 4) else none
    ]

-- ReplaceAllString; `n` characters more belong to a match.
unfoldable pub replace_urls : ℕ → Text → Text
unfolding match_length
replace_urls n [] = []
replace_urls (suc n) (c ∷ s) = replace_urls n s
replace_urls zero (c ∷ s) = elim (match_length (c ∷ s)) [
  | none ↦ c ∷ replace_urls 0 s
  | some k ↦ bytes "[redacted url]" ++ replace_urls (k - 1) s
]

unfoldable pub clean_string : Text → Text
unfolding replace_urls
clean_string text = replace_urls 0 text

unfoldable pub safe_logf : Bool → Text → Text
unfolding clean_string
safe_logf safe text = if safe then clean_string text else text

-- The line, and whether the program ends.
unfoldable pub msg : Bool → Text → Event → Option Line × Bool
unfolding safe_logf
msg safe text e = (
  if e.enabled
      then some (record { level = e.level; fields = e.fields; message = safe_logf safe text })
      else none,
  rank e.level == 4,
)

-- Log, Debug, Error, Warn and Fatal, with or without a format.
unfoldable pub log_at : Bool → Level → Text → DefaultLogger → Option Line × Bool
unfolding msg new_event
log_at safe level text l = msg safe text (new_event level l)
