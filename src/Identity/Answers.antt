-- ===== src/Identity/Answers.antt =====
-- `SpeakerIdentityResult` and its parser. A score is a float that is handed on unread: its type and
-- `float(value)` are parameters.
use mathlib.Core.Path.{subst}
use nyra.Base.{
  >>=-eq-ok, ok-injective, String, Bool, true, false, Option, none, some, ◌==◌, if◌then◌else◌,
  is_empty, Result, ok, raise, ◌>>=◌, ◌>>◌, raise_if, ◌≡◌, arith,
}
use nyra.Json.{Json, null, text, Fields, get_field}

pub data SpeakerIdentityOutcome : Type 0 where
  identified not_recognized failed : SpeakerIdentityOutcome

pub record SpeakerIdentityResult (Score : Type 0) : Type 0 where
  pub outcome : SpeakerIdentityOutcome
  pub identified_user_id : Option String
  pub best_score : Option Score
  pub diagnostic_id : Option String
  pub reason_code : Option String

-- `InvalidSpeakerIdentityResponse`
pub data InvalidResponse : Type 0 where
  invalid : InvalidResponse

-- `raw.get(name)`: a missing key reads like `None`
abbrev pub value_of : String → Fields → Json
value_of name raw = elim (get_field name raw) [ none ↦ null | some value ↦ value ]

outcome_of_text : String → Result InvalidResponse SpeakerIdentityOutcome
outcome_of_text s =
    if s == "IDENTIFIED"
    then ok identified
    else if s == "NOT_RECOGNIZED"
    then ok not_recognized
    else if s == "FAILED"
    then ok failed
    else raise invalid

-- `_parse_outcome`
unfoldable pub parse_outcome : Json → Result InvalidResponse SpeakerIdentityOutcome
unfolding outcome_of_text
parse_outcome (text s) = outcome_of_text s
parse_outcome _ = raise invalid

abbrev is_null : Json → Bool
is_null null = true
is_null _ = false

abbrev names_user : Json → Bool
names_user (text s) = if is_empty s then false else true
names_user _ = false

abbrev is_guest : Json → Bool
is_guest (text s) = s == "guest"
is_guest _ = false

-- `_validate_identity`
unfoldable pub validate_identity : SpeakerIdentityOutcome → Json → Result InvalidResponse (Unit {0})
validate_identity outcome user_id = do
  raise_if (is_guest user_id) invalid
  elim outcome [
    | identified ↦ raise_if (if names_user user_id then false else true) invalid
    | _ ↦ raise_if (if is_null user_id then false else true) invalid
  ]

-- `_optional_str`
unfoldable pub optional_str : Json → Result InvalidResponse (Option String)
optional_str null = ok none
optional_str (text s) = ok (some s)
optional_str _ = raise invalid

-- The user that a validated answer names.
abbrev pub user_of : Json → Option String
user_of (text s) = some s
user_of _ = none

module _ {Score : Type 0} (to_float : Json → Option Score) where
  abbrev score_read : Option Score → Result InvalidResponse (Option Score)
  score_read none = raise invalid
  score_read (some score) = ok (some score)

  -- `_optional_float`; `to_float` is `none` where `float` raises
  unfoldable pub optional_float : Json → Result InvalidResponse (Option Score)
  optional_float null = ok none
  optional_float value = score_read (to_float value)

  -- `_parse_realtime`
  unfoldable pub parse_realtime : Fields → Result InvalidResponse (SpeakerIdentityResult Score)
  parse_realtime raw = do
    outcome ← parse_outcome (value_of "outcome" raw)
    validate_identity outcome (value_of "identified_user_id" raw)
    score ← optional_float (value_of "best_score" raw)
    diagnostic ← optional_str (value_of "diagnostic_id" raw)
    reason ← optional_str (value_of "reason_code" raw)
    ok (record {
      outcome = outcome;
      identified_user_id = user_of (value_of "identified_user_id" raw);
      best_score = score;
      diagnostic_id = diagnostic;
      reason_code = reason;
    })

-- What an answer shows of a user: a name that is not empty and not "guest", exactly where somebody was
-- identified.
abbrev pub names_somebody : Option String → Bool
names_somebody none = false
names_somebody (some user) =
    if is_empty user then false else if user == "guest" then false else true

abbrev pub is_none : Option String → Bool
is_none none = true
is_none (some _) = false

abbrev pub IsAllowed : SpeakerIdentityOutcome → Option String → Type 0
IsAllowed identified user = names_somebody user ≡ true
IsAllowed _ user = is_none user ≡ true

abbrev pub IsHonest : {Score : Type 0} → SpeakerIdentityResult Score → Type 0
IsHonest r = IsAllowed r.outcome r.identified_user_id

validate_identity-IsAllowed :
    (outcome : SpeakerIdentityOutcome) (user_id : Json)
    → validate_identity outcome user_id ≡ ok tt
    → IsAllowed outcome (user_of user_id)
unfolding validate_identity
validate_identity-IsAllowed identified user_id h = ground arith
validate_identity-IsAllowed not_recognized user_id h = ground arith
validate_identity-IsAllowed failed user_id h = ground arith

-- Every answer that the parser accepts names a user, neither empty nor guest, exactly where its outcome is
-- IDENTIFIED.
pub parse_realtime-IsHonest :
    {Score : Type 0} (to_float : Json → Option Score) (raw : Fields)
    (r : SpeakerIdentityResult Score)
    → parse_realtime to_float raw ≡ ok r
    → IsHonest r
unfolding parse_realtime
parse_realtime-IsHonest to_float raw r h =
    let (o, parsed, h₁) = >>=-eq-ok (parse_outcome (value_of "outcome" raw)) _ h in
    let (_, valid, h₂) = >>=-eq-ok (validate_identity o (value_of "identified_user_id" raw)) _ h₁ in
    let (score, scored, h₃) =
      >>=-eq-ok (optional_float to_float (value_of "best_score" raw)) _ h₂ in
    let (diagnostic, known, h₄) = >>=-eq-ok (optional_str (value_of "diagnostic_id" raw)) _ h₃ in
    let (reason, given, h₅) = >>=-eq-ok (optional_str (value_of "reason_code" raw)) _ h₄ in
    subst IsHonest (ok-injective _ r h₅)
      (validate_identity-IsAllowed o (value_of "identified_user_id" raw) valid)
