-- ===== src/Lifecycle/Execute.antt =====
-- `RequestLifecycleService.execute`. Between the reading of the request's row and the writing of the decision the
-- ports are awaited, and other requests may change the table: `others` is what they make of it meanwhile.
-- `lifetime` is `clarification_timeout_seconds`, in the microseconds of the clock.
use nyra.Base.{
  ℕ, ◌+◌, String, Bool, false, Option, none, some, ◌==◌, if◌then◌else◌, Result, ok, raise, List, [],
  ◌++◌,
}
use nyra.Json.{Fields}
use nyra.Lifecycle.{
  NyraRequest, NyraRequestResponse, PersistedRequestState, LifecycleError, wrong_session,
  cannot_resume, integrity_error, validation_error, LifecycleDecision, RequestStatus,
  needs_clarification, closed, expired, StoredTime, dumped, Deed, state, session_closed,
  processing_local, waiting_clarification,
}
use nyra.Lifecycle.Store.{
  RequestTable, get_state, create_state, update_state, expire_due, latest_for_session, is_waiting,
}
use nyra.Lifecycle.Identify.{
  RawIdentity, Speaker, known_speaker, identify_speaker, context_identity, ResolvedIdentity,
}
use nyra.Lifecycle.Decide.{Ports, decide}
use nyra.Lifecycle.Trace.{Traced, pure, throw, emit, call_port, ◌>>=◌, ◌>>◌}

-- How a request goes on: its row has expired, or it is worked on, as a new one or with the row that it resumes
pub data Opened : Type 0 where
  already_expired : Opened
  proceeds : Option PersistedRequestState → Opened

abbrev pub is_session : Option String → String → Bool
is_session none session = false
is_session (some given) session = session == given

abbrev pub check_resume : NyraRequest → PersistedRequestState → Result LifecycleError Opened
check_resume r s =
    if is_session r.session_id s.session_id
    then elim s.status [
      | expired ↦ ok already_expired
      | needs_clarification ↦ ok (proceeds (some s))
      | _ ↦ raise cannot_resume
    ]
    else raise wrong_session

abbrev pub reopened : NyraRequest → Option PersistedRequestState → Result LifecycleError Opened
reopened r none = ok (proceeds none)
reopened r (some s) = check_resume r s

abbrev pub response_of : NyraRequest → String → LifecycleDecision → NyraRequestResponse
response_of r trace d = record {
  status = d.status;
  session_id = r.session_id;
  request_id = r.request_id;
  trace_id = trace;
  text = d.text;
  close_reason = d.close_reason;
  error = d.error;
}

abbrev pub expired_response : NyraRequest → String → NyraRequestResponse
expired_response r trace = record {
  status = expired;
  session_id = r.session_id;
  request_id = r.request_id;
  trace_id = trace;
  text = none;
  close_reason = none;
  error = none;
}

-- `NyraRequestResponse`, with `validate_close` where the request is not closed
abbrev pub unclosed : NyraRequest → String → LifecycleDecision → Traced NyraRequestResponse
unclosed r trace d = elim d.close_reason [
  | none ↦ pure (response_of r trace d)
  | some reason ↦ throw validation_error
]

-- The events after the decision, and the response
unfoldable pub respond : NyraRequest → String → LifecycleDecision → Traced NyraRequestResponse
respond r trace d = elim d.status [
  | needs_clarification ↦ emit (state waiting_clarification) >> unclosed r trace d
  | closed ↦ elim d.close_reason [
    | none ↦ throw validation_error
    | some reason ↦ emit (session_closed (some reason)) >> pure (response_of r trace d)
  ]
  | _ ↦ unclosed r trace d
]

abbrev pub expiry : ℕ → ℕ → RequestStatus → Option StoredTime
expiry now lifetime status = if is_waiting status then some (dumped (now + lifetime)) else none

abbrev pub identity_user : Option ResolvedIdentity → Option String
identity_user none = none
identity_user (some identity) = some identity.user_id

-- What the work on a request hands to its end
pub record Worked : Type 0 where
  pub identity : Option ResolvedIdentity
  pub last_trusted_user_id : Option String
  pub decision : LifecycleDecision

abbrev pub new_state :
    ℕ → ℕ → NyraRequest → String → String → String → Worked → PersistedRequestState
new_state now lifetime r id session trace w = record {
  request_id = id;
  session_id = session;
  type_of = r.type_of;
  language = r.language;
  source = r.source;
  identity_user_id = identity_user w.identity;
  last_trusted_user_id = w.last_trusted_user_id;
  original_input = r.text;
  status = w.decision.status;
  current_trace_id = trace;
  pending_state = w.decision.pending_state;
  created_at = dumped now;
  updated_at = dumped now;
  expires_at = expiry now lifetime w.decision.status;
}

abbrev pub resumed_state : ℕ → ℕ → String → Worked → PersistedRequestState → PersistedRequestState
resumed_state now lifetime trace w existing = record existing {
  identity_user_id = identity_user w.identity;
  last_trusted_user_id = w.last_trusted_user_id;
  status = w.decision.status;
  current_trace_id = trace;
  pending_state = w.decision.pending_state;
  created_at = dumped existing.created_at.moment;
  updated_at = dumped now;
  expires_at = expiry now lifetime w.decision.status;
}

abbrev pub or_integrity_error :
    RequestTable → Option RequestTable → Result LifecycleError (Unit {0}) × RequestTable
or_integrity_error before none = (raise integrity_error, before)
or_integrity_error before (some after) = (ok tt, after)

-- The decision in the table: a new row, or the row that was resumed. A job has no row.
unfoldable pub persist :
    ℕ
    → ℕ
    → NyraRequest
    → String
    → Option PersistedRequestState
    → Worked
    → RequestTable
    → Result LifecycleError (Unit {0}) × RequestTable
persist now lifetime r trace existing w table = elim r.request_id [
  | none ↦ (ok tt, table)
  | some id ↦ elim existing [
    | some s ↦ (ok tt, update_state (resumed_state now lifetime trace w s) table)
    | none ↦ elim r.session_id [
      | none ↦ (raise validation_error, table)
      | some session ↦
          or_integrity_error table
            (create_state (new_state now lifetime r id session trace w) table)
    ]
  ]
]

pub record Outcome : Type 0 where
  pub deeds : List Deed
  pub end : Result LifecycleError NyraRequestResponse
  pub table : RequestTable

abbrev pub pending_of : Option PersistedRequestState → Option Fields
pending_of none = none
pending_of (some s) = s.pending_state

-- The end of a request whose decision is there, on the table that it finds
unfoldable pub conclude :
    ℕ
    → ℕ
    → NyraRequest
    → String
    → Option PersistedRequestState
    → List Deed
    → Worked
    → RequestTable
    → Outcome
conclude lifetime now r trace existing deeds w table =
    elim (persist now lifetime r trace existing w table).0 [
      | raise e ↦ record {
        deeds = deeds;
        end = raise e;
        table = (persist now lifetime r trace existing w table).1;
      }
      | ok saved ↦ record {
        deeds = deeds ++ (respond r trace w.decision).deeds;
        end = (respond r trace w.decision).end;
        table = (persist now lifetime r trace existing w table).1;
      }
    ]

-- The first reading: what is due expires, and the request's row is looked up. A job has none.
unfoldable pub open_request :
    ℕ → NyraRequest → RequestTable → Result LifecycleError Opened × RequestTable
open_request now r table = elim r.request_id [
  | none ↦ (ok (proceeds none), table)
  | some id ↦ (reopened r (get_state id (expire_due now table)), expire_due now table)
]

-- `previous_session_state`
unfoldable pub previous_state :
    NyraRequest → Option PersistedRequestState → RequestTable → Option PersistedRequestState
previous_state r existing table = elim existing [
  | some s ↦ none
  | none ↦ elim r.session_id [ none ↦ none | some session ↦ latest_for_session session table ]
]

module _ {D M S : Type 0} (directory : String → Option String) (ports : Ports D M S) where
  -- The decision, with the context's values
  unfoldable pub with_values :
      NyraRequest → Option PersistedRequestState → Speaker → D → Traced Worked
  with_values r existing speaker values =
      let identity = context_identity directory r speaker in
      decide ports r (record { values = values; identity = identity }) (pending_of existing)
        speaker.user_id
      >>= λ decision. pure (record {
        identity = identity;
        last_trusted_user_id = speaker.last_trusted_user_id;
        decision = decision;
      })

  unfoldable pub with_speaker : NyraRequest → Option PersistedRequestState → Speaker → Traced Worked
  with_speaker r existing speaker =
      call_port (ports.resolve_context r speaker.user_id) >>= λ values.
      with_values r existing speaker values

module _ {D M S Score : Type 0} (lifetime : ℕ) (directory : String → Option String)
    (ports : Ports D M S) where
  -- From the row to the decision
  unfoldable pub work :
      RawIdentity Score → NyraRequest → Option PersistedRequestState → RequestTable → Traced Worked
  work raw r existing table =
      emit (state processing_local)
      >> (identify_speaker raw r (known_speaker r existing (previous_state r existing table))
          >>= λ speaker. with_speaker directory ports r existing speaker)

  unfoldable pub carry_on :
      ℕ
      → RawIdentity Score
      → String
      → NyraRequest
      → (RequestTable → RequestTable)
      → Option PersistedRequestState
      → RequestTable
      → Outcome
  carry_on now raw trace r others existing table = elim (work raw r existing table).end [
    | raise e ↦ record {
      deeds = (work raw r existing table).deeds;
      end = raise e;
      table = others table;
    }
    | ok w ↦
        conclude lifetime now r trace existing (work raw r existing table).deeds w (others table)
  ]

  -- `execute`
  unfoldable pub execute_request :
      ℕ
      → RawIdentity Score
      → String
      → NyraRequest
      → (RequestTable → RequestTable)
      → RequestTable
      → Outcome
  execute_request now raw trace r others table = elim (open_request now r table).0 [
    | raise e ↦ record { deeds = []; end = raise e; table = (open_request now r table).1 }
    | ok opened ↦ elim opened [
      | already_expired ↦ record {
        deeds = [];
        end = ok (expired_response r trace);
        table = (open_request now r table).1;
      }
      | proceeds existing ↦ carry_on now raw trace r others existing (open_request now r table).1
    ]
  ]
