-- ===== src/HomeAssistant/Calls.antt =====
-- Which services are called.
use Prim.Native.String.{◌++◌ as text_append}
use nyra.Base.{◌≡◌, ◌⊎◌, String, true, false, Option, some, List, [], ◌∷◌, ok}
use nyra.Capability.{ExecuteRequest, ExecuteResponse}
use nyra.Plans.{is_success}
use nyra.HomeAssistant.{
  Service, operation_map, starts_with, resource_domain, Client, NativeState, is_denied, is_entity,
  is_down, reply_response, invocation_of, Executed,
}

module _ {W : Type 0} (client : Client W) (allowed : Option (List String)) (r : ExecuteRequest)
    (world : W) where
  -- The resource may be used, is of the type that is named, is there and not down, and the operation has a service.
  pub record IsPermitted (found : Service) : Type 0 where
    pub native : NativeState
    pub state_read : client.state_of r.resource_id world ≡ ok (some native)
    pub allowed_id : is_denied allowed r.resource_id ≡ false
    pub of_type :
        starts_with r.resource_id (text_append (resource_domain r.resource_type) ".") ≡ true
    pub mapped : operation_map r.resource_type r.operation ≡ some found
    pub there : is_entity r.resource_id native.entity_id ≡ true
    pub up : is_down native.state ≡ false

  -- Nothing is called and the world is as it was, or one service is, of what is permitted
  pub IsGuarded : Executed W → Type 0
  IsGuarded done =
      ((done.calls ≡ [])
        × (done.world ≡ world)
        × ((response : ExecuteResponse)
            → done.answer ≡ ok response
            → is_success response.outcome ≡ false))
      ⊎ ((found : Service) × IsPermitted found
          × (done.calls ≡ invocation_of r found ∷ [])
          × (done.answer ≡ reply_response r (client.invoke (invocation_of r found) world).0)
          × (done.world ≡ (client.invoke (invocation_of r found) world).1))
