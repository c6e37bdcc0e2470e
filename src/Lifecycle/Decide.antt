-- ===== src/Lifecycle/Decide.antt =====
-- From the request in its context to a decision, in `_execute`: the check by the skills, the semantic proposal of the
-- language model, the memory that a skill wants, the skill's run, the reasoning model.
use nyra.Base.{String, Bool, false, ◌||◌, Option, none, some, ◌==◌, is_empty, if◌then◌else◌, Result}
use nyra.Json.{Fields}
use nyra.Lifecycle.{
  NyraRequest, LifecycleDecision, SkillMatch, no_memory, required_memory, MemoryQuery, RawQuery,
  full_query, text_query, no_query, handled, miss, unclear, skill_failed, clarify, fail_with,
  processing_global, using_tool, state, skill_run, reasoned, or_text, or_no_fields, port_raised,
  InteractionState, processing_local,
}
use nyra.Lifecycle.Identify.{ResolvedIdentity}
use nyra.Lifecycle.Trace.{Traced, pure, throw, emit, call_port, ◌>>=◌, ◌>>◌}

-- The context that the ports are handed: its data with the identity that `_execute` adds
pub record Context (D : Type 0) : Type 0 where
  pub values : D
  pub identity : Option ResolvedIdentity

-- `llm_port.semantic`: a proposal or none, `LlmUnavailable`, another exception
pub data SemanticAnswer (S : Type 0) : Type 0 where
  proposes : S → SemanticAnswer S
  proposes_nothing llm_unavailable : SemanticAnswer S
  semantic_raised : String → SemanticAnswer S

-- `memory_port.search`: what it found, `MemoryAccessError`, another exception
pub data SearchAnswer (M : Type 0) : Type 0 where
  found : M → SearchAnswer M
  access_error : SearchAnswer M
  search_raised : String → SearchAnswer M

-- The ports; the two that a port may lack are options (`hasattr`).
pub record Ports (D M S : Type 0) : Type 0 where
  pub resolve_context : NyraRequest → Option String → Result String D
  pub check : NyraRequest → Context D → Option Fields → Result String SkillMatch
  pub run_skill :
      SkillMatch
      → NyraRequest
      → Context D
      → Option M
      → Option Fields
      → Result String LifecycleDecision
  pub semantic : Option (NyraRequest → Context D → Option Fields → SemanticAnswer S)
  pub semantic_check :
      Option (NyraRequest → Context D → Option Fields → S → Result String SkillMatch)
  pub search : NyraRequest → Option String → MemoryQuery → SearchAnswer M
  pub reason : NyraRequest → Context D → Option Fields → Result String LifecycleDecision

-- `_PROTECTED_CAPABILITY_SKILLS`
abbrev pub is_protected : Option String → Bool
is_protected none = false
is_protected (some name) =
    (name == "home_assistant_action")
    || (name == "delayed_action")
    || (name == "behavior")
    || (name == "memory_management")

-- `skill_interaction_state`
abbrev pub skill_interaction_state : Option String → InteractionState
skill_interaction_state name = if is_protected name then using_tool else processing_local

-- The default of a memory query: as many results as `MemoryQuery` says
abbrev pub memory_query_of : RawQuery → NyraRequest → MemoryQuery
memory_query_of (full_query query) r = query
memory_query_of (text_query text) r = record {
  query = if is_empty text then r.text else text;
  limit = 10;
}
memory_query_of no_query r = record { query = r.text; limit = 10 }

module _ {D M S : Type 0} (ports : Ports D M S) (r : NyraRequest) (context : Context D)
    (pending : Option Fields) where
  -- `skill_port.execute`
  unfoldable pub run_match : SkillMatch → Option M → Traced LifecycleDecision
  run_match match memory =
      emit (skill_run match.skill_name)
      >> call_port (ports.run_skill match r context memory pending)

  unfoldable pub reason_about : Traced LifecycleDecision
  reason_about = emit reasoned >> call_port (ports.reason r context pending)

  -- `semantic`: none too where the model is unavailable or the port has no such method
  unfoldable pub semantic_proposal : Traced (Option S)
  semantic_proposal = elim ports.semantic [
    | none ↦ pure none
    | some propose ↦ elim (propose r context pending) [
      | proposes s ↦ pure (some s)
      | proposes_nothing ↦ pure none
      | llm_unavailable ↦ pure none
      | semantic_raised error ↦ throw (port_raised error)
    ]
  ]

  -- `semantic_match`
  unfoldable pub semantic_match : Option S → Traced (Option SkillMatch)
  semantic_match none = pure none
  semantic_match (some s) = elim ports.semantic_check [
    | none ↦ pure none
    | some check ↦ call_port (check r context pending s) >>= λ match. pure (some match)
  ]

  -- What follows the semantic check
  unfoldable pub after_semantic : Option SkillMatch → Traced LifecycleDecision
  after_semantic none = reason_about
  after_semantic (some match) =
      if match.matched
      then emit (state (skill_interaction_state match.skill_name)) >> run_match match none
      else elim match.outcome [
        | skill_failed ↦ pure (fail_with (or_text match.error_code "SKILLS_FAILED"))
        | _ ↦ reason_about
      ]

  unfoldable pub on_miss : Traced LifecycleDecision
  on_miss =
      emit (state processing_global)
      >> (semantic_proposal >>= λ s. semantic_match s >>= λ match. after_semantic match)

  -- The run of the match that the skills made, with the memory that was found for it
  unfoldable pub run_handled : SkillMatch → Option M → Traced LifecycleDecision
  run_handled match memory = elim (skill_interaction_state match.skill_name) [
    | using_tool ↦ emit (state using_tool) >> run_match match memory
    | _ ↦ run_match match memory
  ]

  -- Where the search is refused, a skill that requires memory is not run.
  unfoldable pub without_memory : SkillMatch → Traced LifecycleDecision
  without_memory match = elim match.memory_requirement [
    | required_memory ↦ pure (fail_with "MEMORY_UNAVAILABLE")
    | _ ↦ run_handled match none
  ]

  unfoldable pub with_search : Option String → SkillMatch → Traced LifecycleDecision
  with_search user match = elim (ports.search r user (memory_query_of match.memory_query r)) [
    | found memory ↦ run_handled match (some memory)
    | access_error ↦ without_memory match
    | search_raised error ↦ throw (port_raised error)
  ]

  unfoldable pub on_match : Option String → SkillMatch → Traced LifecycleDecision
  on_match user match = elim match.memory_requirement [
    | no_memory ↦ run_handled match none
    | _ ↦ with_search user match
  ]

  unfoldable pub on_check : Option String → SkillMatch → Traced LifecycleDecision
  on_check user match = elim match.outcome [
    | unclear ↦ pure (clarify (or_text match.text "") (or_no_fields match.pending_state))
    | skill_failed ↦ pure (fail_with (or_text match.error_code "SKILLS_FAILED"))
    | miss ↦ on_miss
    | handled ↦
        if match.matched then on_match user match else pure (fail_with "SKILLS_INVALID_MATCH")
  ]

  unfoldable pub decide : Option String → Traced LifecycleDecision
  decide user = call_port (ports.check r context pending) >>= λ match. on_check user match
