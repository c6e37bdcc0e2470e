-- ===== src/Lifecycle.antt =====
-- The lifecycle of a request in the router (router/lifecycle): the request and the response of
-- shared/protocol/requests.py, the row of router/lifecycle/models.py, and what the ports hand to the service. The
-- context's data, what a memory search finds and what the language model proposes are values of any type, since the
-- service only passes them on.
mod Trace
mod Store
mod Identify
mod Decide
mod Execute
mod Guards
mod Final
mod Runs
mod Work
mod Stored
mod Expiry
mod Tests
use nyra.Base.{
  ℕ, String, Bool, true, false, ◌&&◌, not, Option, none, some, is_some, List, [], ◌∷◌, is_empty,
  if◌then◌else◌,
}
use nyra.Json.{Fields, end}

pub data ExecutionType : Type 0 where
  ha_speaker ha_assist job nyra_ui : ExecutionType

pub data RequestStatus : Type 0 where
  completed needs_clarification closed failed expired : RequestStatus

pub data CloseReason : Type 0 where
  explicit_close direct_command alarm_dismissed timeout policy : CloseReason

pub record RequestSource : Type 0 where
  pub id : String
  pub area : Option String

-- The confidence is read by no one here.
pub record TrustedIdentity : Type 0 where
  pub user_id : String
  pub provider : String
  pub display_name : Option String

pub record NyraRequest : Type 0 where
  pub type_of : ExecutionType
  pub session_id : Option String
  pub request_id : Option String
  pub language : String
  pub source : Option RequestSource
  pub identity : Option TrustedIdentity
  pub text : String

-- `validate_execution_ids`
unfoldable pub has_valid_ids : NyraRequest → Bool
has_valid_ids r = elim r.type_of [
  | job ↦ not (is_some r.session_id) && not (is_some r.request_id)
  | _ ↦ is_some r.session_id && is_some r.request_id
]

-- A time in a text column: pydantic and `isoformat` write the same moment differently.
pub record StoredTime : Type 0 where
  pub moment : ℕ
  pub by_isoformat : Bool

abbrev pub dumped : ℕ → StoredTime
dumped t = record { moment = t; by_isoformat = false }

abbrev pub iso : ℕ → StoredTime
iso t = record { moment = t; by_isoformat = true }

pub record PersistedRequestState : Type 0 where
  pub request_id : String
  pub session_id : String
  pub type_of : ExecutionType
  pub language : String
  pub source : Option RequestSource
  pub identity_user_id : Option String
  pub last_trusted_user_id : Option String
  pub original_input : String
  pub status : RequestStatus
  pub current_trace_id : String
  pub pending_state : Option Fields
  pub created_at : StoredTime
  pub updated_at : StoredTime
  pub expires_at : Option StoredTime

pub record NyraRequestResponse : Type 0 where
  pub status : RequestStatus
  pub session_id : Option String
  pub request_id : Option String
  pub trace_id : String
  pub text : Option String
  pub close_reason : Option CloseReason
  pub error : Option String

-- What `execute` raises: its own conflicts, what SQLite and pydantic refuse, and what a port raised, by its class
pub data LifecycleError : Type 0 where
  wrong_session cannot_resume integrity_error validation_error missing_user : LifecycleError
  port_raised : String → LifecycleError

pub data MemoryRequirement : Type 0 where
  no_memory optional_memory required_memory : MemoryRequirement

pub data SkillOutcome : Type 0 where
  handled miss unclear skill_failed : SkillOutcome

-- The similarity threshold and the types of a query are the skill's, and are passed on.
pub record MemoryQuery : Type 0 where
  pub query : String
  pub limit : ℕ

-- `MemoryQuery | str | None`
pub data RawQuery : Type 0 where
  full_query : MemoryQuery → RawQuery
  text_query : String → RawQuery
  no_query : RawQuery

pub record SkillMatch : Type 0 where
  pub matched : Bool
  pub skill_name : Option String
  pub memory_requirement : MemoryRequirement
  pub memory_query : RawQuery
  pub outcome : SkillOutcome
  pub text : Option String
  pub pending_state : Option Fields
  pub error_code : Option String

pub record LifecycleDecision : Type 0 where
  pub status : RequestStatus
  pub text : Option String
  pub pending_state : Option Fields
  pub close_reason : Option CloseReason
  pub error : Option String

-- `LifecycleDecision.needs_clarification`, `failed`
abbrev pub clarify : String → Fields → LifecycleDecision
clarify text pending = record {
  status = needs_clarification;
  text = some text;
  pending_state = some pending;
  close_reason = none;
  error = none;
}

abbrev pub fail_with : String → LifecycleDecision
fail_with code = record {
  status = failed;
  text = none;
  pending_state = none;
  close_reason = none;
  error = some code;
}

pub data InteractionState : Type 0 where
  idle listening transcribing identifying processing_local processing_global using_tool
        waiting_clarification speaking in_error :
      InteractionState

pub data IdentityFeedback : Type 0 where
  recognized not_recognized identity_changed : IdentityFeedback

-- What a request does that others see, in order: the events that it publishes, the run of a skill, the call of the
-- reasoning model
pub data Deed : Type 0 where
  state : InteractionState → Deed
  feedback : IdentityFeedback → Deed
  session_closed : Option CloseReason → Deed
  skill_run : Option String → Deed
  reasoned : Deed

-- `value or default`
abbrev pub or_text : Option String → String → String
or_text none default = default
or_text (some s) default = if is_empty s then default else s

abbrev pub or_no_fields : Option Fields → Fields
or_no_fields none = end
or_no_fields (some fields) = fields
