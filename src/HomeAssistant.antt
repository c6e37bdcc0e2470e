-- ===== src/HomeAssistant.antt =====
-- The Home Assistant capability of the router (router/ha_capability.py): `HomeAssistantCapabilityPort.execute`, and
-- `resolve` (Resolve). What Home Assistant answers over HTTP is an argument.
mod Calls
mod Resolve
mod Targets
mod Tests
use Prim.Native.Char.{code}
use Prim.Native.String.{◌++◌ as text_append}
use nyra.Base.{
  nat_eq, String, Bool, true, false, ◌&&◌, ◌||◌, not, Option, none, some, List, [], ◌∷◌, ◌==◌, any,
  if◌then◌else◌, Result, ok, raise,
}
use nyra.Json.{Fields, end, field, text}
use nyra.Capability.{
  NyraOperation, turn_on, turn_off, open_cover, close_cover, trigger, operation_value,
  NyraResourceType, light, switch, cover, climate, media_player, script, scene, automation,
  CommonOutcome, success, denied, not_found, unsupported, unavailable, failed, unknown_outcome,
  ExecuteRequest, ExecuteResponse,
}

-- `_RESOURCE_DOMAIN`, which has every type
abbrev pub resource_domain : NyraResourceType → String
resource_domain light = "light"
resource_domain switch = "switch"
resource_domain cover = "cover"
resource_domain climate = "climate"
resource_domain media_player = "media_player"
resource_domain script = "script"
resource_domain scene = "scene"
resource_domain automation = "automation"

-- A service of Home Assistant, by its domain and name
pub record Service : Type 0 where
  pub domain : String
  pub name : String

abbrev service : String → String → Option Service
service domain name = some (record { domain = domain; name = name })

-- `_OPERATION_MAP`
unfoldable pub operation_map : NyraResourceType → NyraOperation → Option Service
operation_map light turn_on = service "light" "turn_on"
operation_map light turn_off = service "light" "turn_off"
operation_map switch turn_on = service "switch" "turn_on"
operation_map switch turn_off = service "switch" "turn_off"
operation_map cover open_cover = service "cover" "open_cover"
operation_map cover close_cover = service "cover" "close_cover"
operation_map script trigger = service "script" "turn_on"
operation_map scene trigger = service "scene" "turn_on"
operation_map automation trigger = service "automation" "trigger"
operation_map _ _ = none

-- `str.startswith`
unfoldable pub starts_with : String → String → Bool
starts_with s String.[] = true
starts_with String.[] (String.◌∷◌ d p) = false
starts_with (String.◌∷◌ c s) (String.◌∷◌ d p) = nat_eq (code c) (code d) && starts_with s p

-- A state that Home Assistant answers: its entity and its state, where these are texts
pub record NativeState : Type 0 where
  pub entity_id : Option String
  pub state : Option String

-- One call of `client.invoke`
pub record Invocation : Type 0 where
  pub service : Service
  pub entity_id : String
  pub parameters : Fields

-- How it ends: it returns, no answer came (`TimeoutException`, `TransportError`), an answer with an error status, or
-- another exception
pub data InvokeReply : Type 0 where
  invoked no_answer error_status : InvokeReply
  invoke_raised : String → InvokeReply

-- The client, and the world that it changes; `state` may raise.
pub record Client (W : Type 0) : Type 0 where
  pub state_of : String → W → Result String (Option NativeState)
  pub invoke : Invocation → W → InvokeReply × W

-- The identifiers of `allowed_resource_ids` where the trusted context has a list there
abbrev pub is_denied : Option (List String) → String → Bool
is_denied none id = false
is_denied (some allowed) id = not (any (λ a. a == id) allowed)

abbrev pub refused_with : CommonOutcome → String → ExecuteResponse
refused_with outcome error = record { outcome = outcome; result = none; error_code = some error }

abbrev pub succeeded : ExecuteRequest → ExecuteResponse
succeeded r = record {
  outcome = success;
  result = some (
      field "resource_id" (text r.resource_id)
        (field "operation" (text (operation_value r.operation)) end));
  error_code = none;
}

abbrev pub is_entity : String → Option String → Bool
is_entity id none = false
is_entity id (some entity) = entity == id

abbrev pub is_down : Option String → Bool
is_down none = false
is_down (some state) = (state == "unavailable") || (state == "unknown")

-- The checks up to the service, in order
unfoldable pub check_request :
    Option (List String) → ExecuteRequest → Result ExecuteResponse Service
check_request allowed r =
    if is_denied allowed r.resource_id
    then raise (refused_with denied "RESOURCE_DENIED")
    else if starts_with r.resource_id (text_append (resource_domain r.resource_type) ".")
    then elim (operation_map r.resource_type r.operation) [
      | none ↦ raise (refused_with unsupported "UNSUPPORTED_OPERATION")
      | some found ↦ ok found
    ]
    else raise (refused_with not_found "RESOURCE_TYPE_MISMATCH")

-- The check of the state that was read
unfoldable pub check_state : ExecuteRequest → Option NativeState → Result ExecuteResponse (Unit {0})
check_state r none = raise (refused_with not_found "RESOURCE_NOT_FOUND")
check_state r (some native) =
    if is_entity r.resource_id native.entity_id
    then (if is_down native.state
        then raise (refused_with unavailable "RESOURCE_UNAVAILABLE")
        else ok tt)
    else raise (refused_with not_found "RESOURCE_NOT_FOUND")

-- What is answered after the call
abbrev pub reply_response : ExecuteRequest → InvokeReply → Result String ExecuteResponse
reply_response r invoked = ok (succeeded r)
reply_response r no_answer = ok (refused_with unknown_outcome "EXECUTION_OUTCOME_UNKNOWN")
reply_response r error_status = ok (refused_with failed "HA_EXECUTION_FAILED")
reply_response r (invoke_raised error) = raise error

abbrev pub invocation_of : ExecuteRequest → Service → Invocation
invocation_of r found = record {
  service = found;
  entity_id = r.resource_id;
  parameters = r.parameters;
}

-- What one request leads to: the calls of services, the answer or what escapes, the world after it
pub record Executed (W : Type 0) : Type 0 where
  pub calls : List Invocation
  pub answer : Result String ExecuteResponse
  pub world : W

module _ {W : Type 0} (client : Client W) where
  abbrev quiet : Result String ExecuteResponse → W → Executed W
  quiet answer world = record { calls = []; answer = answer; world = world }

  unfoldable pub invoke_service : ExecuteRequest → Service → W → Executed W
  invoke_service r found world =
      let (reply, after) = client.invoke (invocation_of r found) world in
      record { calls = invocation_of r found ∷ []; answer = reply_response r reply; world = after }

  -- From the service on
  unfoldable pub execute_service : ExecuteRequest → Service → W → Executed W
  execute_service r found world = elim (client.state_of r.resource_id world) [
    | raise error ↦ quiet (raise error) world
    | ok native ↦ elim (check_state r native) [
      | raise response ↦ quiet (ok response) world
      | ok passed ↦ invoke_service r found world
    ]
  ]

  -- `execute`
  unfoldable pub execute_resource : Option (List String) → ExecuteRequest → W → Executed W
  execute_resource allowed r world = elim (check_request allowed r) [
    | raise response ↦ quiet (ok response) world
    | ok found ↦ execute_service r found world
  ]
