-- ===== src/Lifecycle/Guards.antt =====
-- How much of a request is carried out.
use mathlib.Core.Path.{subst}
use nyra.Base.{
  sym, ok-injective, ◌≤◌, ◌≡◌, refl, inl, inr, String, Bool, true, false, Option, none, some, [],
  count, count-append, arith, Result, ok, raise, Result-cases, if◌then◌else◌,
}
use nyra.Json.{Fields}
use nyra.Lifecycle.{
  Deed, state, skill_run, reasoned, LifecycleError, LifecycleDecision, RequestStatus, completed,
  SkillMatch, NyraRequest, clarify, fail_with, InteractionState, handled, miss, unclear,
  skill_failed, no_memory, required_memory, SkillOutcome, MemoryRequirement, using_tool, or_text,
  or_no_fields, port_raised,
}
use nyra.Lifecycle.Trace.{Traced, pure, throw, emit, call_port, ◌>>=◌, ◌>>◌}
use nyra.Lifecycle.Decide.{
  Context, Ports, SearchAnswer, found, access_error, search_raised, run_match, reason_about,
  semantic_proposal, semantic_match, after_semantic, on_miss, run_handled, without_memory,
  with_search, on_match, on_check, decide, skill_interaction_state, memory_query_of,
}

-- The run of a skill, or of the reasoning model
abbrev pub is_work : Deed → Bool
is_work (skill_run name) = true
is_work reasoned = true
is_work _ = false

abbrev pub is_completed : RequestStatus → Bool
is_completed completed = true
is_completed _ = false

-- At most one run, and one where the status of the result is COMPLETED
pub record EarnedBy {A : Type 0} (status : A → RequestStatus) (t : Traced A) : Type 0 where
  pub once : count is_work t.deeds ≤ 1
  pub earned : (a : A) → t.end ≡ ok a → is_completed (status a) ≡ true → count is_work t.deeds ≡ 1

abbrev pub Earned : Traced LifecycleDecision → Type 0
Earned t = EarnedBy (λ d. d.status) t

pure-Earned : (d : LifecycleDecision) → is_completed d.status ≡ false → Earned (pure d)
pure-Earned d h = record { once = omega arith; earned = λ e f g. ground arith }

throw-Earned : (e : LifecycleError) → Earned (throw e)
throw-Earned e = record { once = omega arith; earned = λ d f g. ground arith }

-- One run, whatever its port answers
work-Earned :
    (deed : Deed) (answer : Result String LifecycleDecision)
    → is_work deed ≡ true
    → Earned (emit deed >> call_port answer)
work-Earned deed (ok d) h = record { once = ground arith; earned = λ e f g. ground arith }
work-Earned deed (raise error) h = record { once = ground arith; earned = λ e f g. ground arith }

state-Earned :
    (s : InteractionState) (t : Traced LifecycleDecision) → Earned t → Earned (emit (state s) >> t)
state-Earned s t h = record { once = h.once; earned = λ d f g. h.earned d f g }

pub call_port-quiet {ℓ} :
    {A : Type ℓ} (answer : Result String A) → count is_work (call_port answer).deeds ≡ 0
call_port-quiet (ok a) = refl
call_port-quiet (raise e) = refl

if-Earned :
    (b : Bool) (t u : Traced LifecycleDecision) → Earned t → Earned u → Earned (if b then t else u)
if-Earned true t u h k = h
if-Earned false t u h k = k

pub bind-EarnedBy {ℓ} :
    {A : Type ℓ} {B : Type 0} (status : B → RequestStatus) (m : Traced A) (f : A → Traced B)
    → count is_work m.deeds ≡ 0
    → ((a : A) → EarnedBy status (f a))
    → EarnedBy status (m >>= f)
bind-EarnedBy status m f quiet h = elim (Result-cases m.end) [
  | inl (e, g) ↦ rw g (record { once = omega (arith, quiet); earned = λ d k l. ground arith })
  | inr (a, g) ↦ rw g (record {
    once = omega (arith, quiet, count-append is_work m.deeds (f a).deeds, (h a).once);
    earned =
        λ d k l. omega (arith, quiet, count-append is_work m.deeds (f a).deeds, (h a).earned d k l);
  })
]

bind-Earned {ℓ} :
    {A : Type ℓ} (m : Traced A) (f : A → Traced LifecycleDecision)
    → count is_work m.deeds ≡ 0
    → ((a : A) → Earned (f a))
    → Earned (m >>= f)
bind-Earned m f quiet h = bind-EarnedBy (λ d. d.status) m f quiet h

-- A result that is made of a decision and has its status
pub map-EarnedBy :
    {B : Type 0} (status : B → RequestStatus) (t : Traced LifecycleDecision)
    (g : LifecycleDecision → B)
    → ((d : LifecycleDecision) → status (g d) ≡ d.status)
    → Earned t
    → EarnedBy status (t >>= λ d. pure (g d))
map-EarnedBy status t g same h = elim (Result-cases t.end) [
  | inl (e, k) ↦ rw k (record { once = h.once; earned = λ b f c. ground arith })
  | inr (d, k) ↦ rw k (record {
    once = omega (arith, count-append is_work t.deeds [], h.once);
    earned = λ b f c. omega (
      arith,
      count-append is_work t.deeds [],
      h.earned d k (
          subst (λ s. is_completed s ≡ true) (same d)
            (subst (λ x. is_completed (status x) ≡ true) (sym (ok-injective (g d) b f)) c)),
    );
  })
]

module _ {D M S : Type 0} (ports : Ports D M S) (r : NyraRequest) (context : Context D)
    (pending : Option Fields) where
  run_match-Earned :
      (match : SkillMatch) (memory : Option M)
      → Earned (run_match ports r context pending match memory)
  unfolding run_match
  run_match-Earned match memory = work-Earned (skill_run match.skill_name) _ refl

  reason_about-Earned : Earned (reason_about ports r context pending)
  unfolding reason_about
  reason_about-Earned = work-Earned reasoned _ refl

  semantic_proposal-quiet : count is_work (semantic_proposal ports r context pending).deeds ≡ 0
  unfolding semantic_proposal
  semantic_proposal-quiet = ground arith

  semantic_match-quiet :
      (s : Option S) → count is_work (semantic_match ports r context pending s).deeds ≡ 0
  unfolding semantic_match
  semantic_match-quiet s = ground arith

  unmatched-Earned :
      (match : SkillMatch) (outcome : SkillOutcome)
      → Earned (elim outcome [
        | skill_failed ↦ pure (fail_with (or_text match.error_code "SKILLS_FAILED"))
        | _ ↦ reason_about ports r context pending
      ])
  unmatched-Earned match skill_failed = pure-Earned _ refl
  unmatched-Earned match _ = reason_about-Earned

  after_semantic-Earned :
      (match : Option SkillMatch) → Earned (after_semantic ports r context pending match)
  unfolding after_semantic
  after_semantic-Earned none = reason_about-Earned
  after_semantic-Earned (some match) =
      if-Earned match.matched _ _ (state-Earned _ _ (run_match-Earned match none))
        (unmatched-Earned match match.outcome)

  on_miss-Earned : Earned (on_miss ports r context pending)
  unfolding on_miss
  on_miss-Earned = state-Earned _ _ (
      bind-Earned (semantic_proposal ports r context pending) _ semantic_proposal-quiet (λ s.
        bind-Earned (semantic_match ports r context pending s) _ (semantic_match-quiet s)
          after_semantic-Earned))

  tool-Earned :
      (match : SkillMatch) (memory : Option M) (stage : InteractionState)
      → Earned (elim stage [
        | using_tool ↦ emit (state using_tool) >> run_match ports r context pending match memory
        | _ ↦ run_match ports r context pending match memory
      ])
  tool-Earned match memory using_tool = state-Earned _ _ (run_match-Earned match memory)
  tool-Earned match memory _ = run_match-Earned match memory

  run_handled-Earned :
      (match : SkillMatch) (memory : Option M)
      → Earned (run_handled ports r context pending match memory)
  unfolding run_handled
  run_handled-Earned match memory =
      tool-Earned match memory (skill_interaction_state match.skill_name)

  refused-Earned :
      (match : SkillMatch) (requirement : MemoryRequirement)
      → Earned (elim requirement [
        | required_memory ↦ pure (fail_with "MEMORY_UNAVAILABLE")
        | _ ↦ run_handled ports r context pending match none
      ])
  refused-Earned match required_memory = pure-Earned _ refl
  refused-Earned match _ = run_handled-Earned match none

  without_memory-Earned :
      (match : SkillMatch) → Earned (without_memory ports r context pending match)
  unfolding without_memory
  without_memory-Earned match = refused-Earned match match.memory_requirement

  searched-Earned :
      (match : SkillMatch) (answer : SearchAnswer M)
      → Earned (elim answer [
        | found memory ↦ run_handled ports r context pending match (some memory)
        | access_error ↦ without_memory ports r context pending match
        | search_raised error ↦ throw (port_raised error)
      ])
  searched-Earned match (found memory) = run_handled-Earned match (some memory)
  searched-Earned match access_error = without_memory-Earned match
  searched-Earned match (search_raised error) = throw-Earned _

  with_search-Earned :
      (user : Option String) (match : SkillMatch)
      → Earned (with_search ports r context pending user match)
  unfolding with_search
  with_search-Earned user match =
      searched-Earned match (ports.search r user (memory_query_of match.memory_query r))

  required-Earned :
      (user : Option String) (match : SkillMatch) (requirement : MemoryRequirement)
      → Earned (elim requirement [
        | no_memory ↦ run_handled ports r context pending match none
        | _ ↦ with_search ports r context pending user match
      ])
  required-Earned user match no_memory = run_handled-Earned match none
  required-Earned user match _ = with_search-Earned user match

  on_match-Earned :
      (user : Option String) (match : SkillMatch)
      → Earned (on_match ports r context pending user match)
  unfolding on_match
  on_match-Earned user match = required-Earned user match match.memory_requirement

  handled-Earned :
      (user : Option String) (match : SkillMatch)
      → Earned (
          if match.matched
          then on_match ports r context pending user match
          else pure (fail_with "SKILLS_INVALID_MATCH"))
  handled-Earned user match =
      if-Earned match.matched _ _ (on_match-Earned user match) (pure-Earned _ refl)

  checked-Earned :
      (user : Option String) (match : SkillMatch) (outcome : SkillOutcome)
      → Earned (elim outcome [
        | unclear ↦ pure (clarify (or_text match.text "") (or_no_fields match.pending_state))
        | skill_failed ↦ pure (fail_with (or_text match.error_code "SKILLS_FAILED"))
        | miss ↦ on_miss ports r context pending
        | handled ↦
            if match.matched
            then on_match ports r context pending user match
            else pure (fail_with "SKILLS_INVALID_MATCH")
      ])
  checked-Earned user match unclear = pure-Earned _ refl
  checked-Earned user match skill_failed = pure-Earned _ refl
  checked-Earned user match miss = on_miss-Earned
  checked-Earned user match handled = handled-Earned user match

  on_check-Earned :
      (user : Option String) (match : SkillMatch)
      → Earned (on_check ports r context pending user match)
  unfolding on_check
  on_check-Earned user match = checked-Earned user match match.outcome

  -- A decision costs at most one run, of one skill or of the reasoning model, and a COMPLETED one comes of a run.
  pub decide-Earned : (user : Option String) → Earned (decide ports r context pending user)
  unfolding decide
  decide-Earned user =
      bind-Earned (call_port (ports.check r context pending)) _
        (call_port-quiet (ports.check r context pending)) (on_check-Earned user)
