-- ===== src/Correlation.antt =====
-- The identifiers of shared/protocol/ids.py that join a call to its request and trace, and the check of
-- `CorrelationContext`, of which `CapabilityCorrelation` is a subclass.
use Prim.Native.Char.{code}
use nyra.Base.{
  ℕ, leb, nat_eq, text_length, String, Bool, true, false, ◌&&◌, ◌||◌, Option, none, some,
  if◌then◌else◌,
}

-- `a-b` in a character class
abbrev is_between : ℕ → ℕ → ℕ → Bool
is_between low high c = leb low c && leb c high

abbrev is_digit : ℕ → Bool
is_digit c = is_between 48 57 c

abbrev is_upper : ℕ → Bool
is_upper c = is_between 65 90 c

abbrev is_lower : ℕ → Bool
is_lower c = is_between 97 122 c

-- A place of a template: `x` is any digit of `hex`, `y` one of 8, 9, a and b, and another character itself.
abbrev fits_place : ℕ → ℕ → Bool
fits_place place c =
    if nat_eq place 120
    then is_digit c || is_between 97 102 c
    else if nat_eq place 121
    then is_between 56 57 c || is_between 97 98 c
    else nat_eq place c

unfoldable pub fits_template : String → String → Bool
fits_template String.[] String.[] = true
fits_template String.[] (String.◌∷◌ c s) = false
fits_template (String.◌∷◌ place template) String.[] = false
fits_template (String.◌∷◌ place template) (String.◌∷◌ c s) =
    fits_place (code place) (code c) && fits_template template s

-- `UUID(value)` is of version 4, and `str` gives the value back: the version is that of RFC 4122's variant.
abbrev pub is_uuid4 : String → Bool
is_uuid4 value = fits_template "xxxxxxxx-xxxx-4xxx-yxxx-xxxxxxxxxxxx" value

-- `value[len(marker):]`, where `value.startswith(marker)`
unfoldable pub after_marker : String → String → Option String
after_marker String.[] value = some value
after_marker (String.◌∷◌ m marker) String.[] = none
after_marker (String.◌∷◌ m marker) (String.◌∷◌ c value) =
    let rest = after_marker marker value in if nat_eq (code m) (code c) then rest else none

-- `validate_prefixed_uuid` of a value that is given, with `marker` for `f"{prefix}_"`: whether it does not raise
unfoldable pub has_prefixed_uuid : String → String → Bool
has_prefixed_uuid value marker = elim (after_marker marker value) [
  | none ↦ false
  | some rest ↦ is_uuid4 rest
]

-- `[A-Z0-9_-]`
abbrev is_component : ℕ → Bool
is_component c = is_upper c || is_digit c || nat_eq c 95 || nat_eq c 45

-- `[a-z0-9_]`
abbrev is_operation : ℕ → Bool
is_operation c = is_lower c || is_digit c || nat_eq c 95

-- What follows a run of characters, which `#` ends. It has one or more, the first of which may have been read before.
unfoldable pub after_run : (ℕ → Bool) → Bool → String → Option String
after_run is_member begun String.[] = none
after_run is_member begun (String.◌∷◌ c s) =
    let rest = after_run is_member true s in
    if nat_eq (code c) 35
    then (if begun then some s else none)
    else if is_member (code c)
    then rest
    else none

unfoldable pub all_characters : (ℕ → Bool) → String → Bool
all_characters is_member String.[] = true
all_characters is_member (String.◌∷◌ c s) = is_member (code c) && all_characters is_member s

-- `[A-Z0-9]{8}`
abbrev pub is_suffix : String → Bool
is_suffix s = nat_eq (text_length s) 8 && all_characters (λ c. is_upper c || is_digit c) s

-- `SPAN_RE.fullmatch`: none of the classes has `#`
unfoldable pub is_span : String → Bool
is_span value = elim (after_run is_component false value) [
  | none ↦ false
  | some rest ↦ elim (after_run is_operation false rest) [
    | none ↦ false
    | some suffix ↦ is_suffix suffix
  ]
]

-- `validate_parent_span_id`
abbrev pub is_parent : Option String → Bool
is_parent none = true
is_parent (some value) = is_span value

-- The check of a `CorrelationContext` without a request of its own
unfoldable pub is_correlation : String → String → Option String → Bool
is_correlation origin_request_id trace_id parent_span_id =
    has_prefixed_uuid origin_request_id "req_"
    && has_prefixed_uuid trace_id "trc_"
    && is_parent parent_span_id
