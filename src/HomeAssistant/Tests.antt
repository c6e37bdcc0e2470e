-- ===== src/HomeAssistant/Tests.antt =====
-- Runs at concrete inputs, and the witnesses of the properties. The client counts its calls of services.
use nyra.Base.{
  length, List, Option, Result, All, ℕ, suc, ◌≡◌, refl, String, ◌==◌, none, some, [], ◌∷◌, ok,
  raise, if◌then◌else◌,
}
use nyra.Json.{end}
use nyra.Capability.{turn_on, light, denied, not_found, unavailable, ExecuteRequest}
use nyra.HomeAssistant.{
  Client, invoked, refused_with, succeeded, check_request, check_state, operation_map, starts_with,
  execute_resource, execute_service, invoke_service,
}
use nyra.Plans.{resolved_one}
use nyra.HomeAssistant.Resolve.{
  one_resource, ResourceReference, NativeEntity, ResolveCandidate, resolve_reference, candidates_of,
  tokens_of, words_of, domain_of, spaced, area_ids_of, wanted_area,
}
use nyra.HomeAssistant.Targets.{IsTarget, resolve_reference-AllTargets}

abbrev client : Client ℕ
client = record {
  state_of = λ id count. ok (
      if id == "light.lost"
      then none
      else some (record {
        entity_id = some id;
        state = some (if id == "light.off" then "unavailable" else "on");
      }));
  invoke = λ call count. (invoked, suc count);
}

abbrev asked : String → ExecuteRequest
asked id = record {
  origin_request_id = "r1";
  trace_id = "t1";
  parent_span_id = none;
  operation = turn_on;
  resource_id = id;
  resource_type = light;
  parameters = end;
}

desk_called : execute_resource client none (asked "light.desk") 0 ≡ record {
  calls =
      record {
        service = record { domain = "light"; name = "turn_on" };
        entity_id = "light.desk";
        parameters = end;
      }
      ∷ [];
  answer = ok (succeeded (asked "light.desk"));
  world = 1;
}
unfolding execute_resource check_request execute_service check_state invoke_service starts_with
    operation_map
desk_called = refl

desk_denied :
    execute_resource client (some ("light.hall" ∷ [])) (asked "light.desk") 0
    ≡ record { calls = []; answer = ok (refused_with denied "RESOURCE_DENIED"); world = 0 }
unfolding execute_resource check_request
desk_denied = refl

switch_mismatch :
    check_request none (asked "switch.desk")
    ≡ raise (refused_with not_found "RESOURCE_TYPE_MISMATCH")
unfolding check_request starts_with
switch_mismatch = refl

off_unavailable : execute_resource client none (asked "light.off") 0 ≡ record {
  calls = [];
  answer = ok (refused_with unavailable "RESOURCE_UNAVAILABLE");
  world = 0;
}
unfolding execute_resource check_request execute_service check_state starts_with operation_map
off_unavailable = refl

abbrev lamp : ResourceReference
lamp = record { reference = "desk lamp"; resource_type = some light; cardinality = one_resource }

abbrev entities : List NativeEntity
entities =
    record { entity_id = some "light.desk_lamp"; friendly_name = some "desk lamp" }
    ∷ record { entity_id = some "switch.desk_lamp"; friendly_name = none }
    ∷ record { entity_id = some "light.hall"; friendly_name = none }
    ∷ []

abbrev desk_lamp : ResolveCandidate
desk_lamp = record {
  resource_id = "light.desk_lamp";
  resource_type = light;
  name = some "desk lamp";
  score = 2;
}

desk_resolved :
    resolve_reference (λ s. s) lamp (ok entities) (λ area. ok []) none none
    ≡ ok (resolved_one, desk_lamp ∷ [])
unfolding resolve_reference candidates_of tokens_of words_of domain_of spaced
desk_resolved = refl

abbrev answered_states : Result String (List NativeEntity)
answered_states = ok entities

resolve_reference-AllTargets_example :
    ((natives : List NativeEntity) × (ids : Option (List String)) × (answered_states ≡ ok natives)
      × (area_ids_of (λ s. s) lamp (λ area. ok []) (wanted_area (λ s. s) lamp none) ≡ ok ids)
      × All (IsTarget (λ s. s) lamp none ids natives) (desk_lamp ∷ []))
    × (resolved_one ≡ resolved_one → one_resource ≡ one_resource → length (desk_lamp ∷ []) ≡ 1)
resolve_reference-AllTargets_example =
    resolve_reference-AllTargets (λ s. s) lamp (ok entities) (λ area. ok []) none none resolved_one
      (desk_lamp ∷ []) desk_resolved
