-- ===== src/Plans/Reports.antt =====
-- What the executor reports of the steps, and what the capability answered.
use nyra.Capability.{success, ExecuteRequest}
use nyra.Base.{◌≡◌, String, none, some, List, [], ◌∷◌, All, Result, ok, raise}
use nyra.Plans.{
  ExecutionStep, ExecutionPlan, StepResult, step_completed, step_failed, ExecutionResult,
  all_completed, Correlation, ResolvedResource, ResolvedTarget, resolved_one, Capability,
}

module _ {W : Type 0} (capability : Capability W) (correlation : Correlation) where
  -- The resource of a step: that of the plan where it names one, which asks nothing, or else the only candidate of the
  -- capability's answer in the world that the step finds.
  pub record Resolves (step : ExecutionStep) (world : W) (found : Result String ResolvedResource)
      (after : W) : Type 0 where
    pub as_planned :
        (t : ResolvedTarget)
        → step.target.resolved ≡ some t
        → (found ≡ ok (record { resource_id = t.resource_id; resource_type = t.resource_type }))
          × (after ≡ world)
    pub looked_up :
        step.target.resolved ≡ none
        → (after ≡ (capability.resolve step.target.reference step.target.resource_type world).1)
          × ((resource : ResolvedResource)
              → found ≡ ok resource
              → ((capability.resolve step.target.reference step.target.resource_type world).0.status
                  ≡ resolved_one)
                × ((capability.resolve step.target.reference step.target.resource_type
                      world).0.candidates
                    ≡ resource ∷ []))

  -- The call of a step: its operation and parameters, at the resource, under the correlation of the plan
  abbrev pub due_call : ExecutionStep → ResolvedResource → ExecuteRequest
  due_call step resource = record {
    origin_request_id = correlation.origin_request_id;
    trace_id = correlation.trace_id;
    parent_span_id = correlation.parent_span_id;
    operation = step.operation;
    resource_id = resource.resource_id;
    resource_type = resource.resource_type;
    parameters = step.parameters;
  }

  -- One step, from the world that it finds to the one that it leaves: without a resource it fails and calls nothing; with
  -- one it makes its call in the world after the resolution, and is COMPLETED exactly where that call's outcome is SUCCESS.
  pub record IsCarriedOut (step : ExecutionStep) (world : W) (result : StepResult) (after : W)
      : Type 0 where
    pub found : Result String ResolvedResource
    pub between : W
    pub resolves : Resolves step world found between
    pub named : result.step_id ≡ step.step_id
    pub not_called :
        (error : String)
        → found ≡ raise error
        → (result.status ≡ step_failed) × (result.error ≡ some error) × (after ≡ between)
    pub called :
        (resource : ResolvedResource)
        → found ≡ ok resource
        → (after ≡ (capability.execute (due_call step resource) between).1)
          × (result.status ≡ step_completed
              → (capability.execute (due_call step resource) between).0.outcome ≡ success)
          × ((capability.execute (due_call step resource) between).0.outcome ≡ success
              → result.status ≡ step_completed)

  -- One result for each step, in order, each step in the world that the one before it leaves
  pub Reports : List ExecutionStep → List StepResult → W → W → Type 0
  Reports [] [] world last = world ≡ last
  Reports [] (result ∷ results) world last = ⊥
  Reports (step ∷ steps) [] world last = ⊥
  Reports (step ∷ steps) (result ∷ results) world last =
      (after : W) × IsCarriedOut step world result after × Reports steps results after last

  -- What the executor hands back for a plan, and the world that it leaves
  pub record IsFaithful {B : Type 0} (plan : ExecutionPlan B) (world : W)
      (outcome : Result String ExecutionResult × W) : Type 0 where
    pub result : ExecutionResult
    pub returned : outcome.0 ≡ ok result
    pub named : result.plan_id ≡ plan.plan_id
    pub reports : Reports plan.steps result.steps world outcome.1
    pub complete : result.status ≡ all_completed → All (λ r. r.status ≡ step_completed) result.steps
    pub completes :
        All (λ r. r.status ≡ step_completed) result.steps → result.status ≡ all_completed
