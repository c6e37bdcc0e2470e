-- ===== src/Execution/Ready.antt =====
-- In an order in which every step stands before its dependencies, the last pending step is ready.
use nyra.Base.{
  ◌≡◌, refl, ◌≤◌, ◌<◌, String, Bool, true, false, ◌&&◌, ◌||◌, not, some, List, [], ◌∷◌, ◌==◌, all,
  any, filter, arith, eq_self, eq_iff, length, inl, inr, Bool-cases,
}
use nyra.Table.{find}
use nyra.Table.Laws.{find-key}
use nyra.Plans.{ExecutionStep}
use nyra.Execution.{step_key, member}
use nyra.Execution.Run.{Results, has_result, is_ready, without}
use nyra.Execution.Topology.{IsTopological}

pub member-without :
    (id x : String) (xs : List String) → member x (without id xs) ≡ (not (id == x) && member x xs)
member-without id x [] = ground arith
member-without id x (y ∷ ys) =
    ground (arith, member-without id x ys, eq_iff y id, eq_iff y x, eq_iff id x, eq_self x)

pub length-without : (id : String) (xs : List String) → length (without id xs) ≤ length xs
length-without id [] = omega arith
length-without id (y ∷ ys) = ground (arith, length-without id ys)

pub length-without-member :
    (id : String) (xs : List String) → member id xs ≡ true → length (without id xs) < length xs
length-without-member id [] h = ground arith
length-without-member id (y ∷ ys) h =
    ground (arith, length-without-member id ys, length-without id ys)

pub filter-nonempty {ℓ} :
    {A : Type ℓ} (p : A → Bool) (xs : List A) → any p xs ≡ true → filter p xs ≡ [] → false ≡ true
filter-nonempty p [] h e = h
filter-nonempty p (x ∷ xs) h e = ground (arith, filter-nonempty p xs)

pub all-filter {ℓ} : {A : Type ℓ} (p : A → Bool) (xs : List A) → all p (filter p xs) ≡ true
all-filter p [] = refl
all-filter p (x ∷ xs) = ground (arith, all-filter p xs)

any-found :
    (p : ExecutionStep → Bool) (x : String) (s : ExecutionStep) (steps : List ExecutionStep)
    → find step_key x steps ≡ some s
    → p s ≡ true
    → any p steps ≡ true
any-found p x s [] found h = ground arith
any-found p x s (t ∷ steps) found h = ground (arith, any-found p x s steps)

not-pending :
    (x : String) (pending others : List String)
    → any (λ y. member y pending) others ≡ false
    → member x others ≡ true
    → member x pending ≡ false
not-pending x pending [] none_pending h = ground arith
not-pending x pending (y ∷ others) none_pending h = elim (Bool-cases (y == x)) [
  | inl e ↦ let same : y ≡ x = (eq_iff y x).0 e in rw (← same) (ground arith)
  | inr e ↦ not-pending x pending others (ground arith) (ground arith)
]

module _ (pending : List String) (results : Results) where
  -- A step of the order is pending, or has its result.
  abbrev pub Covers : List String → Type 0
  Covers order =
      (x : String) → member x order ≡ true → (member x pending || has_result results x) ≡ true

  deps-done :
      (others deps : List String)
      → any (λ y. member y pending) others ≡ false
      → Covers others
      → all (λ d. member d others) deps ≡ true
      → all (has_result results) deps ≡ true
  deps-done others [] none_pending covers behind = refl
  deps-done others (d ∷ deps) none_pending covers behind = ground (
    arith,
    covers d,
    not-pending d pending others none_pending,
    deps-done others deps none_pending covers,
  )

  pub any-ready :
      (steps : List ExecutionStep) (order : List String)
      → IsTopological steps order
      → Covers order
      → any (λ x. member x pending) order ≡ true
      → any (is_ready pending results) steps ≡ true
  any-ready steps [] sorted covers h = ground arith
  any-ready steps (node ∷ others) (stands, sorted) covers h =
      elim (Bool-cases (any (λ x. member x pending) others)) [
        | inl e ↦ any-ready steps others sorted (λ x there. covers x (ground arith)) e
        | inr e ↦
            let same = find-key step_key node steps stands.found in
            let done =
              deps-done others stands.step.depends_on e (λ x there. covers x (ground arith))
                stands.behind in
            any-found (is_ready pending results) node stands.step steps stands.found
              (rw (same, done) (ground arith))
      ]
