-- ===== src/Execution.antt =====
-- The executor of the skills service (skills/execution.py, `ExecutionPlanExecutor`) and the check of a plan's graph, which
-- `ExecutionPlan` in shared/protocol/execution.py makes too. The capability and the evaluator of conditions are
-- arguments, already given the trusted context; what a call of the capability raises is left out, and the evaluator
-- changes nothing. A set of identifiers is the list of them: the order in which a dependency is visited does not show.
mod Run
mod Topology
mod Accepts
mod Ready
mod Progress
mod Rounds
mod Outcomes
mod Ends
mod Tests
use Prim.Native.String.{◌++◌ as text_append}
use nyra.Base.{
  ℕ, zero, suc, String, Bool, true, false, ◌&&◌, ◌||◌, not, Option, none, some, List, [], ◌∷◌, ◌==◌,
  any, all, filter, map, length, is_some, if◌then◌else◌, Result, ok, raise, raise_if, ◌>>=◌, ◌>>◌,
  strip,
}
use nyra.Base.Mapping.{Mapping, get, put}
use nyra.Table.{find}
use nyra.Capability.{CommonOutcome, success, ExecuteResponse}
use nyra.Plans.{
  ExecutionStep, ExecutionPlan, StepResult, step_completed, skipped_dependency, skipped_condition,
  ExecutionResult, all_completed, partially_completed, validated, proposed, Correlation, Capability,
  ResolvedResource, find_target, is_success, is_completed, failed_step, error_of, step_request,
}

-- `InvalidExecutionPlan` by its message; a missing key, and fuel that does not suffice, are told apart from it
pub data PlanError : Type 0 where
  invalid_plan : String → PlanError
  key_error out_of_fuel : PlanError

abbrev pub step_key : ExecutionStep → String
step_key s = s.step_id

abbrev pub member : String → List String → Bool
member x xs = any (λ y. y == x) xs

abbrev pub has_duplicate : List String → Bool
has_duplicate [] = false
has_duplicate (x ∷ xs) = member x xs || has_duplicate xs

-- `deps <= known`
abbrev pub are_known : List String → List String → Bool
are_known known deps = all (λ d. member d known) deps

-- A loop over a set that carries the set of what was visited
abbrev pub visit_each :
    (String → List String → Result PlanError (List String))
    → List String
    → List String
    → Result PlanError (List String)
visit_each visit_one [] visited = ok visited
visit_each visit_one (node ∷ nodes) visited =
    visit_one node visited >>= λ after. visit_each visit_one nodes after

module _ (steps : List ExecutionStep) where
  -- `visit`; `visiting` is the set on the path to the node
  unfoldable pub visit : ℕ → List String → String → List String → Result PlanError (List String)
  visit zero visiting node visited = raise out_of_fuel
  visit (suc fuel) visiting node visited = elim (member node visiting) [
    | true ↦ raise (invalid_plan "cyclic plan")
    | false ↦ elim (member node visited) [
      | true ↦ ok visited
      | false ↦ elim (find step_key node steps) [
        | none ↦ raise key_error
        | some step ↦
            visit_each (λ dep seen. visit fuel (node ∷ visiting) dep seen) step.depends_on visited
            >>= λ after. ok (node ∷ after)
      ]
    ]
  ]

abbrev pub ids_of : List ExecutionStep → List String
ids_of steps = map step_key steps

-- `not deps <= known or node in deps`
abbrev pub has_bad_dependency : List String → ExecutionStep → Bool
has_bad_dependency known s = not (are_known known s.depends_on) || member s.step_id s.depends_on

-- The search from every node: a path has no node twice, so the fuel is above the length of any
unfoldable pub check_cycles : List ExecutionStep → Result PlanError (List String)
check_cycles steps =
    visit_each (λ node seen. visit steps (suc (length steps)) [] node seen) (ids_of steps) []

unfoldable pub check_steps : List ExecutionStep → Result PlanError (List String)
check_steps steps =
    raise_if (has_duplicate (ids_of steps)) (invalid_plan "duplicate step")
    >> (raise_if (any (has_bad_dependency (ids_of steps)) steps) (invalid_plan "invalid dependency")
        >> check_cycles steps)

-- `validate`: what it visited, where it does not raise
unfoldable pub validate : {B : Type 0} → ExecutionPlan B → Result PlanError (List String)
validate plan = elim plan.validation_state [
  | proposed ↦ raise (invalid_plan "execution plan must be VALIDATED")
  | validated ↦ check_steps plan.steps
]

-- The loop over the graph in `_validate_graph`, one step
abbrev pub check_dependencies : List String → ExecutionStep → Result PlanError (Unit {0})
check_dependencies known s =
    raise_if (member s.step_id s.depends_on) (invalid_plan "step cannot depend on itself")
    >> raise_if (not (are_known known s.depends_on))
        (invalid_plan "dependencies must reference existing steps")

abbrev pub check_each : List String → List ExecutionStep → Result PlanError (Unit {0})
check_each known [] = ok tt
check_each known (s ∷ steps) = check_dependencies known s >> check_each known steps

-- `_validate_graph` of `ExecutionPlan`
unfoldable pub validate_graph : List ExecutionStep → Result PlanError (List String)
validate_graph steps =
    raise_if (has_duplicate (ids_of steps)) (invalid_plan "step_id values must be unique")
    >> (check_each (ids_of steps) steps >> check_cycles steps)

-- `_default_condition`, after `casefold`
unfoldable pub default_condition : (String → String) → String → Result PlanError Bool
default_condition casefold expression =
    let value = casefold (strip expression) in
    if (value == "true") || (value == "always")
    then ok true
    else if (value == "false") || (value == "never")
    then ok false
    else raise (invalid_plan (text_append "unsupported condition: " expression))
