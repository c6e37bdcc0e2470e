-- ===== src/Capability.antt =====
-- The values that services exchange with the Router's capability API: shared/protocol/common.py,
-- shared/protocol/execution_common.py and shared/protocol/capabilities.py.
use nyra.Base.{String, Option, none, some, List, [], ◌∷◌, ◌==◌, ◌≡◌, refl, if◌then◌else◌}
use nyra.Json.{Fields}

pub data CommonOutcome : Type 0 where
  success denied not_found ambiguous unavailable failed unsupported unknown_outcome : CommonOutcome

abbrev pub outcome_value : CommonOutcome → String
outcome_value success = "SUCCESS"
outcome_value denied = "DENIED"
outcome_value not_found = "NOT_FOUND"
outcome_value ambiguous = "AMBIGUOUS"
outcome_value unavailable = "UNAVAILABLE"
outcome_value failed = "FAILED"
outcome_value unsupported = "UNSUPPORTED"
outcome_value unknown_outcome = "UNKNOWN_OUTCOME"

pub data NyraOperation : Type 0 where
  turn_on turn_off open_cover close_cover toggle set increase decrease start stop trigger :
      NyraOperation

abbrev pub operation_value : NyraOperation → String
operation_value turn_on = "TURN_ON"
operation_value turn_off = "TURN_OFF"
operation_value open_cover = "OPEN"
operation_value close_cover = "CLOSE"
operation_value toggle = "TOGGLE"
operation_value set = "SET"
operation_value increase = "INCREASE"
operation_value decrease = "DECREASE"
operation_value start = "START"
operation_value stop = "STOP"
operation_value trigger = "TRIGGER"

pub data NyraResourceType : Type 0 where
  light switch cover climate media_player script scene automation : NyraResourceType

abbrev pub resource_type_value : NyraResourceType → String
resource_type_value light = "LIGHT"
resource_type_value switch = "SWITCH"
resource_type_value cover = "COVER"
resource_type_value climate = "CLIMATE"
resource_type_value media_player = "MEDIA_PLAYER"
resource_type_value script = "SCRIPT"
resource_type_value scene = "SCENE"
resource_type_value automation = "AUTOMATION"

-- An enum class called with a value: the member that has it, or `ValueError`.
pub member_of {ℓ} : {E : Type ℓ} → (E → String) → List E → String → Option E
member_of value [] given = none
member_of value (e ∷ es) given =
    let found = member_of value es given in if value e == given then some e else found

abbrev all_operations : List NyraOperation
all_operations =
    turn_on ∷ turn_off ∷ open_cover ∷ close_cover ∷ toggle ∷ set ∷ increase ∷ decrease ∷ start
    ∷ stop ∷ trigger ∷ []

abbrev all_resource_types : List NyraResourceType
all_resource_types =
    light ∷ switch ∷ cover ∷ climate ∷ media_player ∷ script ∷ scene ∷ automation ∷ []

unfoldable pub parse_operation : String → Option NyraOperation
unfolding member_of
parse_operation = member_of operation_value all_operations

unfoldable pub parse_resource_type : String → Option NyraResourceType
unfolding member_of
parse_resource_type = member_of resource_type_value all_resource_types

-- Every member is read back from its value.
pub parse_operation-operation_value :
    (o : NyraOperation) → parse_operation (operation_value o) ≡ some o
unfolding parse_operation
parse_operation-operation_value turn_on = refl
parse_operation-operation_value _ = refl

pub parse_resource_type-resource_type_value :
    (t : NyraResourceType) → parse_resource_type (resource_type_value t) ≡ some t
unfolding parse_resource_type
parse_resource_type-resource_type_value light = refl
parse_resource_type-resource_type_value _ = refl

pub record ExecuteRequest : Type 0 where
  pub origin_request_id : String
  pub trace_id : String
  pub parent_span_id : Option String
  pub operation : NyraOperation
  pub resource_id : String
  pub resource_type : NyraResourceType
  pub parameters : Fields

pub record ExecuteResponse : Type 0 where
  pub outcome : CommonOutcome
  pub result : Option Fields
  pub error_code : Option String

-- What `await capability.execute(…)` ends with; an exception is known by its class.
pub data Reply : Type 0 where
  answered : ExecuteResponse → Reply
  threw : String → Reply
