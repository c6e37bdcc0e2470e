-- ===== src/Execution/Progress.antt =====
-- What holds of a run between any two steps, and that each step keeps it.
use nyra.Base.{
  ◌≡◌, refl, sym, String, Bool, true, false, none, some, List, [], ◌∷◌, ◌==◌, all, any, arith,
  eq_iff, inl, inr, Bool-cases, Result, ok, >>=-eq-ok, ok-injective, Result-cases,
}
use mathlib.Core.Path.{subst}
use nyra.Table.{find}
use nyra.Base.Mapping.{get, put, get-put}
use nyra.Plans.{ExecutionStep, StepResult, skipped_dependency, Capability, Correlation}
use nyra.Execution.{PlanError, step_key, member}
use nyra.Execution.Run.{
  Results, Run, has_result, is_ready, is_unmet, without, call_step, conditions_hold, outcome_of,
  run_one,
}
use nyra.Execution.Ready.{member-without, Covers}

abbrev pub is_skipped : StepResult → Bool
is_skipped r = elim r.status [ skipped_dependency ↦ true | _ ↦ false ]

-- A dependency that has a result keeps it when another step gets one.
put-fresh :
    (results : Results) (id d : String) (r : StepResult)
    → get id results ≡ none
    → has_result results d ≡ true
    → get d (put id r results) ≡ get d results
put-fresh results id d r fresh h = elim (Bool-cases (id == d)) [
  | inl e ↦
      let same : id ≡ d = (eq_iff id d).0 e in
      absurd (let gone = subst (λ x. get x results ≡ none) same fresh in ground arith)
  | inr e ↦ ground (arith, get-put id d r results)
]

pub all-put :
    (results : Results) (id : String) (r : StepResult) (deps : List String)
    → get id results ≡ none
    → all (has_result results) deps ≡ true
    → (all (has_result (put id r results)) deps ≡ true)
      × (any (is_unmet (put id r results)) deps ≡ any (is_unmet results) deps)
all-put results id r [] fresh h = (refl, refl)
all-put results id r (d ∷ deps) fresh h =
    let (kept, same) = all-put results id r deps fresh (ground arith) in
    let here = put-fresh results id d r fresh (ground arith) in
    (rw (here, kept) (ground arith), ground (arith, here, same))

module _ {W : Type 0} (capability : Capability W) (correlation : Correlation) where
  call_step-named :
      (step : ExecutionStep) (world : W)
      → ((call_step capability correlation step world).0.step_id ≡ step.step_id)
        × (is_skipped (call_step capability correlation step world).0 ≡ false)
  unfolding call_step
  call_step-named step world = (ground arith, ground arith)

  module _ (evaluate : String → Result PlanError Bool) where
    -- A result is of its step, and says that a dependency was not met exactly where one was not.
    outcome_of-named :
        (step : ExecutionStep) (results : Results) (world after : W) (r : StepResult)
        → outcome_of capability correlation evaluate step results world ≡ ok (r, after)
        → (r.step_id ≡ step.step_id) × (is_skipped r ≡ any (is_unmet results) step.depends_on)
    unfolding outcome_of
    outcome_of-named step results world after r e =
        elim (Result-cases (conditions_hold evaluate step.conditions)) [
          | inl (error, f) ↦ (ground arith, ground arith)
          | inr (true, f) ↦
              let (named, unskipped) = call_step-named step world in
              (ground (arith, named), ground (arith, unskipped))
          | inr (false, f) ↦ (ground arith, ground arith)
        ]

-- All dependencies have results, and the step is skipped for them exactly where one of them is not COMPLETED.
pub record IsJustified (results : Results) (s : ExecutionStep) (r : StepResult) : Type 0 where
  pub done : all (has_result results) s.depends_on ≡ true
  pub told : is_skipped r ≡ any (is_unmet results) s.depends_on

IsJustified-put :
    (id : String) (results : Results) (r q : StepResult) (t : ExecutionStep)
    → get id results ≡ none
    → IsJustified results t q
    → IsJustified (put id r results) t q
IsJustified-put id results r q t fresh old =
    let (kept, same) = all-put results id r t.depends_on fresh old.done in
    record { done = kept; told = rw same old.told }

module _ {W : Type 0} (steps : List ExecutionStep) (order : List String) where
  pub record IsOngoing (run : Run W) : Type 0 where
    pub covers : Covers run.pending run.results order
    pub known : (x : String) → member x run.pending ≡ true → member x order ≡ true
    pub apart : (x : String) → member x run.pending ≡ true → get x run.results ≡ none
    pub named : (x : String) (r : StepResult) → get x run.results ≡ some r → r.step_id ≡ x
    pub justified :
        (x : String) (s : ExecutionStep) (r : StepResult)
        → find step_key x steps ≡ some s
        → get x run.results ≡ some r
        → IsJustified run.results s r

  abbrev pub advanced : ExecutionStep → StepResult → W → Run W → Run W
  advanced s r world run = record {
    pending = without s.step_id run.pending;
    results = put s.step_id r run.results;
    world = world;
  }

  advanced-IsOngoing :
      (s : ExecutionStep) (r : StepResult) (world : W) (run : Run W)
      → IsOngoing run
      → find step_key s.step_id steps ≡ some s
      → is_ready run.pending run.results s ≡ true
      → r.step_id ≡ s.step_id
      → is_skipped r ≡ any (is_unmet run.results) s.depends_on
      → IsOngoing (advanced s r world run)
  advanced-IsOngoing s r world run on found ready own told =
      let fresh = on.apart s.step_id (ground arith) in
      record {
        covers = λ x there. ground (
          arith,
          on.covers x there,
          member-without s.step_id x run.pending,
          get-put s.step_id x r run.results,
          eq_iff s.step_id x,
        );
        known = λ x there. on.known x (ground (arith, member-without s.step_id x run.pending));
        apart = λ x there. ground (
          arith,
          on.apart x,
          member-without s.step_id x run.pending,
          get-put s.step_id x r run.results,
        );
        named = λ x q there.
            ground
              (arith, own, on.named x q, get-put s.step_id x r run.results, eq_iff s.step_id x);
        justified = λ x t q at there. elim (Bool-cases (s.step_id == x)) [
          | inl e ↦
              let same : s.step_id ≡ x = (eq_iff s.step_id x).0 e in
              let step_same : s ≡ t = cc in
              let result_same : r ≡ q = ground (arith, get-put s.step_id x r run.results) in
              rw (← step_same, ← result_same)
                (IsJustified-put s.step_id run.results r r s fresh
                  (record { done = ground arith; told = told }))
          | inr e ↦
              IsJustified-put s.step_id run.results r q t fresh
                (on.justified x t q at (ground (arith, get-put s.step_id x r run.results)))
        ];
      }

  module _ (capability : Capability W) (correlation : Correlation)
      (evaluate : String → Result PlanError Bool) where
    -- A ready step is carried out, or its condition raises.
    pub run_one-IsOngoing :
        (s : ExecutionStep) (run after : Run W)
        → IsOngoing run
        → find step_key s.step_id steps ≡ some s
        → is_ready run.pending run.results s ≡ true
        → run_one capability correlation evaluate s run ≡ ok after
        → IsOngoing after × ((r : StepResult) × (world : W) × (after ≡ advanced s r world run))
    unfolding run_one
    run_one-IsOngoing s run after on found ready e =
        let (outcome, f, g) =
          >>=-eq-ok (outcome_of capability correlation evaluate s run.results run.world) _ e in
        let (own, told) =
          outcome_of-named capability correlation evaluate s run.results run.world outcome.1
            outcome.0 f in
        let same : advanced s outcome.0 outcome.1 run ≡ after = ok-injective _ after g in
        (
          rw (← same) (advanced-IsOngoing s outcome.0 outcome.1 run on found ready own told),
          (outcome.0, outcome.1, sym same),
        )
