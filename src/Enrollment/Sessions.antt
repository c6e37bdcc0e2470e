-- ===== src/Enrollment/Sessions.antt =====
-- `EnrollmentSession` and `EnrollmentSessionStore`: the table `enrollment_sessions`, with its primary key
-- and the unique index on the source of an ACTIVE session. Each method runs under the store's lock.
use nyra.Base.{
  ℕ, String, Bool, true, false, ◌&&◌, ◌||◌, Option, none, some, List, [], ◌∷◌, ◌++◌, ◌==◌,
  if◌then◌else◌, any, length, get_elem?, Result, ok, raise,
}
use nyra.Enrollment.Phrases.{EnrollmentPhrase}
use nyra.Table.{has_key, find, update, first}

pub data EnrollmentStatus : Type 0 where
  active completed terminated : EnrollmentStatus

abbrev pub is_active : EnrollmentStatus → Bool
is_active active = true
is_active _ = false

pub record EnrollmentSession : Type 0 where
  pub session_id : String
  pub profile_user_id : String
  pub source_id : String
  pub language : String
  pub target_count : ℕ
  pub accepted_sample_ids : List String
  pub phrases : List EnrollmentPhrase
  pub status : EnrollmentStatus
  pub termination_reason : Option String
  pub last_reason_code : Option String

pub data EnrollmentError : Type 0 where
  not_found conflict value_error index_error integrity_error : EnrollmentError

abbrev pub accepted_count : EnrollmentSession → ℕ
accepted_count session = length session.accepted_sample_ids

abbrev phrase_found : Option EnrollmentPhrase → Result EnrollmentError (Option EnrollmentPhrase)
phrase_found none = raise index_error
phrase_found (some phrase) = ok (some phrase)

-- The property `current_phrase`, with what an index out of range raises.
unfoldable pub current_phrase : EnrollmentSession → Result EnrollmentError (Option EnrollmentPhrase)
current_phrase session =
    if is_active session.status
    then phrase_found (get_elem? session.phrases (accepted_count session))
    else ok none

abbrev pub SessionTable : Type 0
SessionTable = List EnrollmentSession

abbrev pub id_of : EnrollmentSession → String
id_of session = session.session_id

abbrev pub find_session : String → SessionTable → Option EnrollmentSession
find_session session_id table = find id_of session_id table

abbrev pub active_for : String → EnrollmentSession → Bool
active_for source_id session = (session.source_id == source_id) && is_active session.status

-- The unique index, for a row that is to be inserted.
abbrev pub index_refuses : EnrollmentSession → SessionTable → Bool
index_refuses session table = is_active session.status && any (active_for session.source_id) table

unfoldable pub create :
    EnrollmentSession → SessionTable → Result EnrollmentError EnrollmentSession × SessionTable
create session table =
    if any (has_key id_of session.session_id) table || index_refuses session table
    then (raise integrity_error, table)
    else (ok session, table ++ session ∷ [])

abbrev pub or_not_found : Option EnrollmentSession → Result EnrollmentError EnrollmentSession
or_not_found none = raise not_found
or_not_found (some session) = ok session

abbrev pub get : String → SessionTable → Result EnrollmentError EnrollmentSession
get session_id table = or_not_found (find_session session_id table)

unfoldable pub get_active_for_source : String → SessionTable → Option EnrollmentSession
get_active_for_source source_id table = first (active_for source_id) table

-- The columns that `UPDATE … WHERE session_id=?` sets: all but the key.
abbrev pub written : EnrollmentSession → EnrollmentSession → EnrollmentSession
written updated row = record updated { session_id = row.session_id }

abbrev pub store_updated :
    String
    → SessionTable
    → Result EnrollmentError EnrollmentSession
    → Result EnrollmentError EnrollmentSession × SessionTable
store_updated session_id table (raise e) = (raise e, table)
store_updated session_id table (ok updated) =
    (ok updated, update (λ row. row.session_id == session_id) (written updated) table)

-- An operation that raises rolls the transaction back.
unfoldable pub mutate :
    String
    → (EnrollmentSession → Result EnrollmentError EnrollmentSession)
    → SessionTable
    → Result EnrollmentError EnrollmentSession × SessionTable
mutate session_id operation table = elim (find_session session_id table) [
  | none ↦ (raise not_found, table)
  | some session ↦ store_updated session_id table (operation session)
]
