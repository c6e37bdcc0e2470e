-- ===== src/Plans/Tests.antt =====
-- Runs at concrete inputs, and the witness of the property.
use nyra.Base.{ℕ, suc, ◌≡◌, refl, true, none, some, [], ◌∷◌, raise}
use nyra.Json.{end}
use nyra.Capability.{success, turn_on, light}
use nyra.Plans.{
  reasoning_llm, validated, ExecutionStep, ExecutionPlan, Correlation, Capability,
  resolve_not_found, execute_plan, run_steps, run_step, find_target, call_target, validate_proposal,
}

-- A capability that counts its calls, knows no name, and carries out what it is asked.
abbrev counting : Capability ℕ
counting = record {
  resolve =
      λ reference type calls. (record { status = resolve_not_found; candidates = [] }, suc calls);
  execute =
      λ request calls. (record { outcome = success; result = none; error_code = none }, suc calls);
}

abbrev correlation : Correlation
correlation = record { origin_request_id = "r1"; trace_id = "t1"; parent_span_id = none }

abbrev known : ExecutionStep
known = record {
  step_id = "s1";
  operation = turn_on;
  target = record {
    reference = "desk";
    resource_type = light;
    resolved =
        some (record {
          resource_id = "light.desk";
          resource_type = light;
          semantic_reference = "desk";
        });
  };
  parameters = end;
  depends_on = [];
  conditions = [];
}

abbrev unknown : ExecutionStep
unknown = record {
  step_id = "s2";
  operation = turn_on;
  target = record { reference = "attic"; resource_type = light; resolved = none };
  parameters = end;
  depends_on = [];
  conditions = [];
}

abbrev plan : ExecutionPlan (Unit {0})
plan = record {
  plan_id = "p1";
  origin = reasoning_llm;
  validation_state = validated;
  steps = known ∷ unknown ∷ [];
  behaviors = [];
}

-- Two calls: one of `execute`, and one of `resolve`, which fails.
two_calls : (execute_plan counting correlation plan 0).1 ≡ 2
unfolding execute_plan run_steps run_step find_target call_target
two_calls = refl

-- A validated plan does not pass the gate for proposals.
validated_refused :
    validate_proposal (λ p. record { accepted = true; plan = some p; error_code = none }) plan
    ≡ raise "LLM action gate accepts only PROPOSED plans"
unfolding validate_proposal
validated_refused = refl
