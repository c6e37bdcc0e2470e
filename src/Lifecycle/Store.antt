-- ===== src/Lifecycle/Store.antt =====
-- `RequestStateStore` (router/lifecycle/store.py). Times are compared as the texts that stand in the table. JSON columns hold the values themselves.
use nyra.Base.{
  ℕ, zero, suc, String, Bool, true, false, ◌&&◌, Option, none, some, List, [], ◌∷◌, ◌++◌, ◌==◌,
  filter, order_by, min, max, ◌/◌, ◌%◌, nat_eq, leb, ltb, if◌then◌else◌,
}
use nyra.Table.{find, insert, update}
use nyra.Lifecycle.{
  StoredTime, iso, RequestStatus, needs_clarification, expired, PersistedRequestState,
}

abbrev pub RequestTable : Type 0
RequestTable = List PersistedRequestState

abbrev pub state_id : PersistedRequestState → String
state_id s = s.request_id

-- `get`
abbrev pub get_state : String → RequestTable → Option PersistedRequestState
get_state id table = find state_id id table

-- `get_session_id_for_request`
abbrev pub session_id_for_request : String → RequestTable → Option String
session_id_for_request id table = elim (get_state id table) [
  | none ↦ none
  | some s ↦ some s.session_id
]

-- `create`: `none` where the request is there already
abbrev pub create_state : PersistedRequestState → RequestTable → Option RequestTable
create_state s table = insert state_id s table

-- `update`: all columns but the key
abbrev pub update_state : PersistedRequestState → RequestTable → RequestTable
update_state s table =
    update (λ row. row.request_id == s.request_id) (λ row. record s { request_id = row.request_id })
      table

abbrev pub is_waiting : RequestStatus → Bool
is_waiting needs_clarification = true
is_waiting _ = false

-- The first of a list that is sorted downwards
abbrev pub head_of : List PersistedRequestState → Option PersistedRequestState
head_of [] = none
head_of (s ∷ rest) = some s

abbrev pub take_rows : ℕ → List PersistedRequestState → List PersistedRequestState
take_rows zero rows = []
take_rows (suc n) [] = []
take_rows (suc n) (row ∷ rows) = row ∷ take_rows n rows

abbrev pub reversed : List PersistedRequestState → List PersistedRequestState
reversed [] = []
reversed (row ∷ rows) = reversed rows ++ row ∷ []

abbrev pub expired_row : ℕ → PersistedRequestState → PersistedRequestState
expired_row now s = record s { status = expired; updated_at = iso now }

-- The whole seconds of a time, and the microseconds that are left
abbrev pub second : ℕ → ℕ
second t = t / 1000000

abbrev pub fraction : ℕ → ℕ
fraction t = t % 1000000

-- The place, in the order of ASCII, of the character after the seconds: `+` of `isoformat` and `Z` of pydantic where
-- there is no fraction, which both leave out, and `.` where there is one
abbrev pub place_after_seconds : StoredTime → ℕ
place_after_seconds t =
    if nat_eq (fraction t.moment) 0 then (if t.by_isoformat then 0 else 2) else 1

-- The place of the character after the fraction
abbrev pub place_of_zone : StoredTime → ℕ
place_of_zone t = if t.by_isoformat then 0 else 1

-- `<=` on the texts, which have one length up to the seconds: `2026-01-01T12:00:00.000001+00:00` of `isoformat` and
-- `2026-01-01T12:00:00.000001Z` of pydantic
unfoldable pub stored_le : StoredTime → StoredTime → Bool
stored_le a b =
    if nat_eq (second a.moment) (second b.moment)
    then (if nat_eq (place_after_seconds a) (place_after_seconds b)
        then (if nat_eq (fraction a.moment) (fraction b.moment)
            then leb (place_of_zone a) (place_of_zone b)
            else ltb (fraction a.moment) (fraction b.moment))
        else ltb (place_after_seconds a) (place_after_seconds b))
    else ltb (second a.moment) (second b.moment)

-- `expires_at IS NOT NULL AND expires_at <= ?`
abbrev pub is_overdue : ℕ → Option StoredTime → Bool
is_overdue now none = false
is_overdue now (some time) = stored_le time (iso now)

abbrev pub is_expiring : ℕ → PersistedRequestState → Bool
is_expiring now s = is_waiting s.status && is_overdue now s.expires_at

-- `expire_due`; its row count is not read
unfoldable pub expire_due : ℕ → RequestTable → RequestTable
expire_due now table = update (is_expiring now) (expired_row now) table

abbrev pub later_row : PersistedRequestState → PersistedRequestState → Bool
later_row a b = stored_le b.updated_at a.updated_at

-- `WHERE session_id=? ORDER BY updated_at DESC, rowid DESC`: a stable sort of the rows, latest row first
unfoldable pub session_rows : String → RequestTable → List PersistedRequestState
session_rows session table =
    order_by later_row (reversed (filter (λ s. s.session_id == session) table))

-- `get_latest_for_session`
unfoldable pub latest_for_session : String → RequestTable → Option PersistedRequestState
latest_for_session session table = head_of (session_rows session table)

-- `list_recent_for_session`, the oldest first; a negative limit is 1, as 0 is
unfoldable pub recent_for_session : String → ℕ → RequestTable → List PersistedRequestState
recent_for_session session limit table =
    reversed (take_rows (max 1 (min limit 20)) (session_rows session table))
