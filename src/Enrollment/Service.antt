-- ===== src/Enrollment/Service.antt =====
-- `EnrollmentService`. Each method takes the table and hands back its result, the table and the events
-- that it emits. The phrase generator and the fresh identifier are arguments; counts are naturals, since
-- a negative or non-integer count is refused like 0.
use Prim.Native.String.{◌++◌ as text_append}
use nyra.Base.{
  ℕ, String, Bool, false, ◌&&◌, ◌||◌, not, Option, none, some, List, [], ◌∷◌, ◌++◌, ◌==◌, leb, ltb,
  nat_eq, if◌then◌else◌, any, all, length, Result, ok, raise, ◌>>=◌, ◌>>◌, raise_if, strip,
  is_blank, text_length, is_empty,
}
use nyra.Enrollment.Phrases.{EnrollmentPhrase, deterministic_phrase_plan}
use nyra.Enrollment.Sessions.{
  EnrollmentStatus, active, completed, terminated, is_active, EnrollmentSession, EnrollmentError,
  conflict, value_error, SessionTable, create, get, get_active_for_source, mutate,
}

pub record Event : Type 0 where
  pub name : String
  pub session : EnrollmentSession
  pub result : String

pub record Emitted : Type 0 where
  pub outcome : Result EnrollmentError EnrollmentSession
  pub table : SessionTable
  pub events : List Event

-- `PhraseGenerator.generate`; `none` where it raises
abbrev pub Generator : Type 0
Generator = String → ℕ → Option (List EnrollmentPhrase)

abbrev status_value : EnrollmentStatus → String
status_value active = "ACTIVE"
status_value completed = "COMPLETED"
status_value terminated = "TERMINATED"

-- `_required`
unfoldable pub required : String → Result EnrollmentError String
unfolding strip is_blank text_length
required value =
    if is_blank value || ltb 1024 (text_length value) then raise value_error else ok (strip value)

unfoldable pub is_valid_plan : List EnrollmentPhrase → String → ℕ → Bool
unfolding is_blank
is_valid_plan phrases language target_count =
    nat_eq (length phrases) target_count
    && all (λ item. not (is_blank item.text) && (item.language == language)) phrases

abbrev valid_or_fallback : Option (List EnrollmentPhrase) → String → ℕ → List EnrollmentPhrase
valid_or_fallback none language n = deterministic_phrase_plan language n
valid_or_fallback (some generated) language n =
    if is_valid_plan generated language n then generated else deterministic_phrase_plan language n

-- `_phrases`
unfoldable pub phrases_for : Option Generator → String → ℕ → List EnrollmentPhrase
phrases_for none language n = deterministic_phrase_plan language n
phrases_for (some generate) language n = valid_or_fallback (generate language n) language n

-- The arguments of `start`; `fresh` is the hexadecimal `uuid4`.
pub record StartRequest : Type 0 where
  pub profile_user_id : String
  pub source_id : String
  pub language : String
  pub target_count : ℕ
  pub fresh : String

pub record Checked : Type 0 where
  pub profile_user_id : String
  pub source_id : String
  pub language : String

unfoldable pub check_start : StartRequest → Result EnrollmentError Checked
unfolding required
check_start r = do
  user ← required r.profile_user_id
  source ← required r.source_id
  language ← required r.language
  raise_if (not (leb 1 r.target_count && leb r.target_count 24)) value_error
  ok (record { profile_user_id = user; source_id = source; language = language })

abbrev pub new_session : Option Generator → StartRequest → Checked → EnrollmentSession
new_session generator r c = record {
  session_id = text_append "enr_" r.fresh;
  profile_user_id = c.profile_user_id;
  source_id = c.source_id;
  language = c.language;
  target_count = r.target_count;
  accepted_sample_ids = [];
  phrases = phrases_for generator c.language r.target_count;
  status = active;
  termination_reason = none;
  last_reason_code = none;
}

abbrev event_of : String → String → EnrollmentSession → Event
event_of name result session = record { name = name; session = session; result = result }

abbrev announce_start : Result EnrollmentError EnrollmentSession × SessionTable → Emitted
announce_start (raise e, table) = record { outcome = raise e; table = table; events = [] }
announce_start (ok session, table) = record {
  outcome = ok session;
  table = table;
  events = event_of "enrollment.started" (status_value session.status) session ∷ [];
}

abbrev quiet : Result EnrollmentError EnrollmentSession → SessionTable → Emitted
quiet outcome table = record { outcome = outcome; table = table; events = [] }

abbrev start_checked : Option Generator → StartRequest → SessionTable → Checked → Emitted
start_checked generator r table c = elim (get_active_for_source c.source_id table) [
  | some session ↦
      if session.profile_user_id == c.profile_user_id
      then quiet (ok session) table
      else quiet (raise conflict) table
  | none ↦ announce_start (create (new_session generator r c) table)
]

abbrev or_refuse : SessionTable → Result EnrollmentError Checked → (Checked → Emitted) → Emitted
or_refuse table (raise e) k = quiet (raise e) table
or_refuse table (ok c) k = k c

unfoldable pub start : Option Generator → StartRequest → SessionTable → Emitted
start generator r table = or_refuse table (check_start r) (start_checked generator r table)

-- The arguments of `record_attempt`.
pub record Attempt : Type 0 where
  pub status : String
  pub sample_id : Option String
  pub reason_code : Option String

abbrev pub is_accepted : Attempt → Bool
is_accepted a = a.status == "ACCEPTED"

abbrev pub has_sample : Option String → Bool
has_sample none = false
has_sample (some s) = not (is_empty s)

unfoldable pub check_attempt : Attempt → Result EnrollmentError (Unit {0})
check_attempt a = do
  raise_if (not ((a.status == "ACCEPTED") || (a.status == "REJECTED") || (a.status == "FAILED")))
      value_error
  raise_if (is_accepted a && not (has_sample a.sample_id)) value_error

abbrev pub text_or_empty : Option String → String
text_or_empty none = ""
text_or_empty (some s) = s

-- `samples`, after the attempt
abbrev pub samples_after : Attempt → List String → Result EnrollmentError (List String)
samples_after a samples =
    if is_accepted a
    then (if any (λ s. s == text_or_empty a.sample_id) samples
        then raise conflict
        else ok (samples ++ text_or_empty a.sample_id ∷ []))
    else ok samples

abbrev pub attempted : Attempt → EnrollmentSession → List String → EnrollmentSession
attempted a session samples = record session {
  accepted_sample_ids = samples;
  status = if nat_eq (length samples) session.target_count then completed else active;
  last_reason_code = if is_accepted a then none else a.reason_code;
}

-- The function `update` in `record_attempt`.
unfoldable pub attempt_update :
    Attempt → EnrollmentSession → Result EnrollmentError EnrollmentSession
attempt_update a session =
    if is_active session.status
    then (samples_after a session.accepted_sample_ids >>= λ samples.
        ok (attempted a session samples))
    else raise conflict

abbrev announce_attempt :
    Attempt → Result EnrollmentError EnrollmentSession × SessionTable → Emitted
announce_attempt a (raise e, table) = quiet (raise e) table
announce_attempt a (ok session, table) = record {
  outcome = ok session;
  table = table;
  events =
      event_of
        (if is_accepted a then "enrollment.sample.accepted" else "enrollment.sample.rejected")
        a.status session
      ∷ elim session.status [
        | completed ↦ event_of "enrollment.completed" (status_value session.status) session ∷ []
        | _ ↦ []
      ];
}

unfoldable pub record_attempt : String → Attempt → SessionTable → Emitted
record_attempt session_id a table = elim (check_attempt a) [
  | raise e ↦ quiet (raise e) table
  | ok _ ↦ announce_attempt a (mutate session_id (attempt_update a) table)
]

abbrev pub ended : String → EnrollmentSession → EnrollmentSession
ended reason session = record session { status = terminated; termination_reason = some reason }

abbrev same_reason : Option String → String → Bool
same_reason none reason = false
same_reason (some r) reason = r == reason

-- The function `update` in `terminate`.
unfoldable pub terminate_update :
    String → EnrollmentSession → Result EnrollmentError EnrollmentSession
terminate_update reason session = elim session.status [
  | completed ↦ ok session
  | terminated ↦
      if same_reason session.termination_reason reason then ok session else raise conflict
  | active ↦ ok (ended reason session)
]

abbrev announce_end :
    EnrollmentSession → Result EnrollmentError EnrollmentSession × SessionTable → Emitted
announce_end previous (raise e, table) = quiet (raise e) table
announce_end previous (ok session, table) = record {
  outcome = ok session;
  table = table;
  events = elim session.status [
    | terminated ↦
        if is_active previous.status
        then event_of "enrollment.terminated" (status_value session.status) session ∷ []
        else []
    | _ ↦ []
  ];
}

abbrev terminate_found :
    String → String → SessionTable → Result EnrollmentError EnrollmentSession → Emitted
terminate_found session_id reason table (raise e) = quiet (raise e) table
terminate_found session_id reason table (ok previous) =
    announce_end previous (mutate session_id (terminate_update reason) table)

unfoldable pub terminate : String → String → SessionTable → Emitted
terminate session_id given table = elim (required given) [
  | raise e ↦ quiet (raise e) table
  | ok reason ↦ terminate_found session_id reason table (get session_id table)
]
