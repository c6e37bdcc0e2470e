-- ===== src/Execution/Rounds.antt =====
-- The rounds of a run: each carries out what is ready, and none is without a step that is.
use nyra.Base.{
  ◌≡◌, refl, ℕ, zero, suc, ◌+◌, ◌≤◌, ◌<◌, String, Bool, true, false, none, some, List, [], ◌∷◌,
  ◌==◌, all, any, filter, arith, eq_self, eq_iff, length, ◌⊎◌, inl, inr, Bool-cases, Result, ok,
  raise, >>=-eq-ok, ok-injective, All, Result-cases,
}
use mathlib.Core.Path.{subst}
use nyra.Table.{find}
use nyra.Base.Mapping.{get, put}
use nyra.Plans.{ExecutionStep, StepResult, Capability, Correlation}
use nyra.Execution.{PlanError, step_key, member, ids_of, has_duplicate}
use nyra.Execution.Run.{
  Results, Run, is_ready, is_unmet, without, conditions_hold, outcome_of, run_one, run_ready,
  run_rounds,
}
use nyra.Execution.Topology.{IsTopological}
use nyra.Execution.Ready.{
  member-without, length-without-member, filter-nonempty, all-filter, any-ready,
}
use nyra.Execution.Progress.{all-put, IsOngoing, run_one-IsOngoing}

-- What is ready stays so while another step is carried out.
ready-advanced :
    (s : ExecutionStep) (r : StepResult) (pending : List String) (results : Results)
    (others : List ExecutionStep)
    → get s.step_id results ≡ none
    → member s.step_id (ids_of others) ≡ false
    → all (is_ready pending results) others ≡ true
    → all (is_ready (without s.step_id pending) (put s.step_id r results)) others ≡ true
ready-advanced s r pending results [] fresh apart h = refl
ready-advanced s r pending results (t ∷ others) fresh apart h =
    let (kept, same) = all-put results s.step_id r t.depends_on fresh (ground arith) in
    let rest = ready-advanced s r pending results others fresh (ground arith) (ground arith) in
    ground (
      arith,
      member-without s.step_id t.step_id pending,
      eq_iff t.step_id s.step_id,
      eq_iff s.step_id t.step_id,
      kept,
      rest,
    )

List-cases {ℓ} :
    {A : Type ℓ} (xs : List A) → (xs ≡ []) ⊎ ((x : A) × ((rest : List A) × (xs ≡ x ∷ rest)))
List-cases [] = inl refl
List-cases (x ∷ xs) = inr (x, (xs, refl))

All-filter {ℓ κ} :
    {A : Type ℓ} (P : A → Type κ) (p : A → Bool) (xs : List A) → All P xs → All P (filter p xs)
All-filter P p [] h = tt
All-filter P p (x ∷ xs) (first, h) = elim (Bool-cases (p x)) [
  | inl e ↦ rw e (first, All-filter P p xs h)
  | inr e ↦ rw e (All-filter P p xs h)
]

member-filter :
    (x : String) (p : ExecutionStep → Bool) (ss : List ExecutionStep)
    → member x (ids_of ss) ≡ false
    → member x (ids_of (filter p ss)) ≡ false
member-filter x p [] h = refl
member-filter x p (s ∷ ss) h = ground (arith, member-filter x p ss)

duplicate-filter :
    (p : ExecutionStep → Bool) (ss : List ExecutionStep)
    → has_duplicate (ids_of ss) ≡ false
    → has_duplicate (ids_of (filter p ss)) ≡ false
duplicate-filter p [] h = refl
duplicate-filter p (s ∷ ss) h = ground (arith, duplicate-filter p ss, member-filter s.step_id p ss)

any-common :
    (x : String) (pending order : List String)
    → member x order ≡ true
    → member x pending ≡ true
    → any (λ y. member y pending) order ≡ true
any-common x pending [] h there = ground arith
any-common x pending (y ∷ order) h there = elim (Bool-cases (y == x)) [
  | inl e ↦ let same : y ≡ x = (eq_iff y x).0 e in rw same (ground arith)
  | inr e ↦ ground (arith, any-common x pending order)
]

abbrev some_done : List ExecutionStep → ℕ
some_done [] = 0
some_done (s ∷ ss) = 1

module _ (evaluate : String → Result PlanError Bool) where
  -- The evaluator raised it on some condition.
  pub record IsRaised (error : PlanError) : Type 0 where
    pub condition : String
    pub raised : evaluate condition ≡ raise error

  conditions-IsRaised :
      (conditions : List String) (error : PlanError)
      → conditions_hold evaluate conditions ≡ raise error
      → IsRaised error
  conditions-IsRaised [] error e = ground arith
  conditions-IsRaised (c ∷ conditions) error e = elim (Result-cases (evaluate c)) [
    | inl (err, f) ↦ record { condition = c; raised = ground arith }
    | inr (true, f) ↦ conditions-IsRaised conditions error (ground arith)
    | inr (false, f) ↦ ground arith
  ]

  module _ {W : Type 0} (capability : Capability W) (correlation : Correlation) where
    run_one-IsRaised :
        (s : ExecutionStep) (run : Run W) (error : PlanError)
        → run_one capability correlation evaluate s run ≡ raise error
        → IsRaised error
    unfolding run_one outcome_of
    run_one-IsRaised s run error e = elim (Bool-cases (any (is_unmet run.results) s.depends_on)) [
      | inl f ↦ ground arith
      | inr f ↦ elim (Result-cases (conditions_hold evaluate s.conditions)) [
        | inl (err, g) ↦ conditions-IsRaised s.conditions error (ground arith)
        | inr (true, g) ↦ ground arith
        | inr (false, g) ↦ ground arith
      ]
    ]

    run_ready-IsRaised :
        (ss : List ExecutionStep) (run : Run W) (error : PlanError)
        → run_ready capability correlation evaluate ss run ≡ raise error
        → IsRaised error
    run_ready-IsRaised [] run error e = ground arith
    run_ready-IsRaised (s ∷ ss) run error e =
        elim (Result-cases (run_one capability correlation evaluate s run)) [
          | inl (err, f) ↦ run_one-IsRaised s run error (ground arith)
          | inr (after, f) ↦ run_ready-IsRaised ss after error (ground arith)
        ]

    module _ (steps : List ExecutionStep) (order : List String) where
      abbrev Found : ExecutionStep → Type 0
      Found s = find step_key s.step_id steps ≡ some s

      run_ready-IsOngoing :
          (ss : List ExecutionStep) (run after : Run W)
          → IsOngoing steps order run
          → All Found ss
          → has_duplicate (ids_of ss) ≡ false
          → all (is_ready run.pending run.results) ss ≡ true
          → run_ready capability correlation evaluate ss run ≡ ok after
          → IsOngoing steps order after × (length after.pending + some_done ss ≤ length run.pending)
      run_ready-IsOngoing [] run after on found unique ready e =
          let same : run ≡ after = ok-injective run after e in rw (← same) (on, omega arith)
      run_ready-IsOngoing (s ∷ ss) run after on (here, found) unique ready e =
          let (mid, f, g) = >>=-eq-ok (run_one capability correlation evaluate s run) _ e in
          let (on', (r, world, shape)) =
            run_one-IsOngoing steps order capability correlation evaluate s run mid on here
              (ground arith) f in
          let ready' : all (is_ready mid.pending mid.results) ss ≡ true = rw shape (
            ready-advanced s r run.pending run.results ss (on.apart s.step_id (ground arith))
              (ground arith) (ground arith)) in
          let fewer : length mid.pending < length run.pending =
            rw shape (length-without-member s.step_id run.pending (ground arith)) in
          let (done, rest) = run_ready-IsOngoing ss mid after on' found (ground arith) ready' g in
          (done, omega arith)

      abbrev pub run_of : List String → Results → W → Run W
      run_of pending results world = record { pending = pending; results = results; world = world }

      -- How the rounds of a run end
      abbrev pub Ends : Result PlanError (Run W) → Type 0
      Ends result =
          ((error : PlanError) × IsRaised error × (result ≡ raise error))
          ⊎ ((after : Run W) × (result ≡ ok after)
              × IsOngoing steps order after
              × (after.pending ≡ []))

      pub run_rounds-Ends :
          (fuel : ℕ) (pending : List String) (results : Results) (world : W)
          → IsTopological steps order
          → All Found steps
          → has_duplicate (ids_of steps) ≡ false
          → IsOngoing steps order (run_of pending results world)
          → length pending ≤ fuel
          → Ends
              (run_rounds capability correlation evaluate steps fuel (run_of pending results world))
      unfolding run_rounds
      run_rounds-Ends zero [] results world sorted found unique on fits =
          inr (run_of [] results world, refl, on, refl)
      run_rounds-Ends (suc fuel) [] results world sorted found unique on fits =
          inr (run_of [] results world, refl, on, refl)
      run_rounds-Ends zero (id ∷ more) results world sorted found unique on fits =
          absurd (omega arith)
      run_rounds-Ends (suc fuel) (id ∷ more) results world sorted found unique on fits =
          let pending = id ∷ more in
          let some_ready = any-ready pending results steps order sorted on.covers (
            any-common id pending order (on.known id (ground (arith, eq_self id)))
              (ground (arith, eq_self id))) in
          elim (List-cases (filter (is_ready pending results) steps)) [
            | inl f ↦ absurd (
                let no = filter-nonempty (is_ready pending results) steps some_ready f in
                ground arith)
            | inr (first, (others, f)) ↦
                elim (Result-cases (
                  run_ready capability correlation evaluate (first ∷ others)
                    (run_of pending results world))) [
                      | inl (error, g) ↦ inl (
                        error,
                        run_ready-IsRaised (first ∷ others) (run_of pending results world) error g,
                        rw (run_rounds, f, g) refl,
                      )
                      | inr (after, g) ↦
                          let (on', fewer) =
                            run_ready-IsOngoing (first ∷ others) (run_of pending results world)
                              after on
                              (subst (λ ss. All Found ss) f
                                (All-filter Found (is_ready pending results) steps found))
                              (subst (λ ss. has_duplicate (ids_of ss) ≡ false) f
                                (duplicate-filter (is_ready pending results) steps unique))
                              (subst (λ ss. all (is_ready pending results) ss ≡ true) f
                                (all-filter (is_ready pending results) steps))
                              g in
                          let rest =
                            run_rounds-Ends fuel after.pending after.results after.world sorted
                              found unique on' (omega arith) in
                          rw (run_rounds, f, g) rest
                    ]
          ]
