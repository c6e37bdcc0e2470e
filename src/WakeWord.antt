-- ===== src/WakeWord.antt =====
-- Wake-word capture (router/wake_word_capture.py): the table of sessions, with its store and its service.
-- Each method hands back its result and the table that it leaves; `_emit` only reports to a sink. The
-- constraint of the table is the unique index on the source of an ACTIVE session.
mod Captures
mod Endings
mod Tests
use Prim.Native.Char.{code}
use Prim.Native.String.{◌++◌ as text_append}
use nyra.Base.{
  ℕ, String, Bool, true, false, ◌&&◌, ◌||◌, not, Option, none, some, is_some, List, [], ◌∷◌, ◌++◌,
  ◌==◌, any, if◌then◌else◌, Result, ok, raise, ◌>>=◌, ◌>>◌, raise_if, is_blank, is_empty, strip,
}
use nyra.Base.Text.{is_space}
use nyra.Table.{find, first, update, has_key}

pub data WakeWordCaptureStatus : Type 0 where
  capture_active accepted rejected failed : WakeWordCaptureStatus

pub record WakeWordCaptureSession : Type 0 where
  pub session_id : String
  pub user_id : String
  pub source_id : String
  pub language : String
  pub wake_word_text : String
  pub status : WakeWordCaptureStatus
  pub sample_id : Option String
  pub reason_code : Option String

-- What the methods raise; `integrity_error` is SQLite's.
pub data CaptureError : Type 0 where
  capture_not_found capture_conflict capture_value_error capture_integrity_error : CaptureError

abbrev pub CaptureTable : Type 0
CaptureTable = List WakeWordCaptureSession

abbrev in_word : String → Bool
unfolding is_space
in_word String.[] = false
in_word (String.◌∷◌ c s) = not (is_space (code c))

abbrev push : Bool → String → List String → List String
push true c (word ∷ words) = text_append c word ∷ words
push true c [] = c ∷ []
push false c words = c ∷ words

-- `s.split()`
pub split : String → List String
unfolding is_space in_word
split String.[] = []
split (String.◌∷◌ c s) =
    let rest = split s in
    if is_space (code c) then rest else push (in_word s) (String.◌∷◌ c String.[]) rest

-- `" ".join(words)`
pub join_words : List String → String
join_words [] = ""
join_words (word ∷ []) = word
join_words (word ∷ other ∷ words) = text_append word (text_append " " (join_words (other ∷ words)))

-- `_required`
unfoldable pub required_words : String → Result CaptureError String
unfolding is_blank strip split join_words
required_words value =
    if is_blank value then raise capture_value_error else ok (join_words (split (strip value)))

abbrev pub capture_id : WakeWordCaptureSession → String
capture_id s = s.session_id

abbrev pub is_capturing : WakeWordCaptureStatus → Bool
is_capturing capture_active = true
is_capturing _ = false

-- `source_id = ? AND status = 'ACTIVE'`
abbrev pub capturing_for : String → WakeWordCaptureSession → Bool
capturing_for source s = is_capturing s.status && (s.source_id == source)

-- `WakeWordCaptureSessionStore.create`: the primary key and the partial unique index
unfoldable pub insert_capture :
    WakeWordCaptureSession
    → CaptureTable
    → Result CaptureError WakeWordCaptureSession × CaptureTable
insert_capture s table =
    if any (has_key capture_id s.session_id) table
      || (is_capturing s.status && any (capturing_for s.source_id) table)
    then (raise capture_integrity_error, table)
    else (ok s, table ++ s ∷ [])

-- `get`, of the store and of the service
unfoldable pub get_capture : String → CaptureTable → Result CaptureError WakeWordCaptureSession
get_capture id table = elim (find capture_id id table) [
  | none ↦ raise capture_not_found
  | some s ↦ ok s
]

-- `get_active_for_source`
abbrev pub active_capture : String → CaptureTable → Option WakeWordCaptureSession
active_capture source table = first (capturing_for source) table

-- `replace(current, status=…, sample_id=…, reason_code=…)`, which is also the `SET` of the `UPDATE`
abbrev pub completed_capture :
    WakeWordCaptureStatus
    → Option String
    → Option String
    → WakeWordCaptureSession
    → WakeWordCaptureSession
completed_capture status sample reason s = record s {
  status = status;
  sample_id = sample;
  reason_code = reason;
}

-- `WakeWordCaptureSessionStore.complete`
unfoldable pub store_complete :
    String
    → WakeWordCaptureStatus
    → Option String
    → Option String
    → CaptureTable
    → Result CaptureError WakeWordCaptureSession × CaptureTable
store_complete id status sample reason table = elim (find capture_id id table) [
  | none ↦ (raise capture_not_found, table)
  | some s ↦
      if is_capturing s.status
      then (
        ok (completed_capture status sample reason s),
        update (λ row. row.session_id == id) (completed_capture status sample reason) table,
      )
      else (raise capture_conflict, table)
]

-- What `start` is called with; `fresh` is the hexadecimal `uuid4`.
pub record CaptureRequest : Type 0 where
  pub user_id : String
  pub source_id : String
  pub language : String
  pub wake_word_text : String
  pub fresh : String

-- The session that `start` makes of its arguments, where all are given
unfoldable pub new_capture : CaptureRequest → Result CaptureError WakeWordCaptureSession
new_capture request = do
  user ← required_words request.user_id
  source ← required_words request.source_id
  language ← required_words request.language
  words ← required_words request.wake_word_text
  ok (record {
    session_id = text_append "wwc_" request.fresh;
    user_id = user;
    source_id = source;
    language = language;
    wake_word_text = words;
    status = capture_active;
    sample_id = none;
    reason_code = none;
  })

-- `WakeWordCaptureService.start`
unfoldable pub start_capture :
    CaptureRequest → CaptureTable → Result CaptureError WakeWordCaptureSession × CaptureTable
start_capture request table = elim (new_capture request) [
  | raise e ↦ (raise e, table)
  | ok s ↦
      if is_some (active_capture s.source_id table)
      then (raise capture_conflict, table)
      else insert_capture s table
]

-- `WakeWordCaptureStatus(status)`
unfoldable pub parse_capture_status : String → Option WakeWordCaptureStatus
parse_capture_status text =
    if text == "ACTIVE"
    then some capture_active
    else if text == "ACCEPTED"
    then some accepted
    else if text == "REJECTED"
    then some rejected
    else if text == "FAILED"
    then some failed
    else none

-- `not sample_id`
abbrev pub lacks_sample : Option String → Bool
lacks_sample none = true
lacks_sample (some sample) = is_empty sample

-- The checks of `complete`
unfoldable pub check_result : WakeWordCaptureStatus → Option String → Result CaptureError (Unit {0})
check_result capture_active sample = raise capture_value_error
check_result accepted sample = raise_if (lacks_sample sample) capture_value_error
check_result rejected sample = raise_if (is_some sample) capture_value_error
check_result failed sample = raise_if (is_some sample) capture_value_error

-- `WakeWordCaptureService.complete`
unfoldable pub complete_capture :
    String
    → String
    → Option String
    → Option String
    → CaptureTable
    → Result CaptureError WakeWordCaptureSession × CaptureTable
complete_capture id text sample reason table = elim (parse_capture_status text) [
  | none ↦ (raise capture_value_error, table)
  | some status ↦ elim (check_result status sample) [
    | raise e ↦ (raise e, table)
    | ok checked ↦ store_complete id status sample reason table
  ]
]
