-- ===== src/Lifecycle/Work.antt =====
-- A whole request: how much work it does, and what it leaves in its row.
use mathlib.Core.Path.{subst}
use nyra.Base.{
  ℕ, ◌≤◌, ◌≡◌, refl, inl, inr, String, true, Option, List, count, count-append, arith, Result, ok,
  Result-cases,
}
use nyra.Lifecycle.{
  Deed, NyraRequest, NyraRequestResponse, PersistedRequestState, LifecycleDecision, LifecycleError,
  RequestStatus,
}
use nyra.Lifecycle.Trace.{call_port, ◌>>=◌}
use nyra.Lifecycle.Store.{RequestTable}
use nyra.Lifecycle.Identify.{
  RawIdentity, Speaker, identify_speaker, known_speaker, context_identity,
}
use nyra.Lifecycle.Decide.{Context, Ports, decide}
use nyra.Lifecycle.Execute.{
  proceeds, already_expired, Worked, work, with_values, with_speaker, pending_of, conclude,
  carry_on, execute_request, open_request, persist, respond, previous_state,
}
use nyra.Lifecycle.Guards.{
  is_work, is_completed, EarnedBy, bind-EarnedBy, map-EarnedBy, call_port-quiet, decide-Earned,
}

abbrev decided : Worked → RequestStatus
decided w = w.decision.status

identify-quiet :
    {Score : Type 0} (raw : RawIdentity Score) (r : NyraRequest) (known : Speaker)
    → count is_work (identify_speaker raw r known).deeds ≡ 0
unfolding identify_speaker
identify-quiet raw r known = ground arith

respond-quiet :
    (r : NyraRequest) (trace : String) (d : LifecycleDecision)
    → count is_work (respond r trace d).deeds ≡ 0
unfolding respond
respond-quiet r trace d = ground arith

-- The response has the status of the decision.
pub respond-status :
    (r : NyraRequest) (trace : String) (d : LifecycleDecision) (response : NyraRequestResponse)
    → (respond r trace d).end ≡ ok response
    → response.status ≡ d.status
unfolding respond
respond-status r trace d response h = ground arith

-- At most one run, and one where the response is COMPLETED
pub record IsEarned (deeds : List Deed) (end : Result LifecycleError NyraRequestResponse)
    : Type 0 where
  pub once : count is_work deeds ≤ 1
  pub earned :
      (response : NyraRequestResponse)
      → end ≡ ok response
      → is_completed response.status ≡ true
      → count is_work deeds ≡ 1

conclude-IsEarned :
    (lifetime now : ℕ) (r : NyraRequest) (trace : String) (existing : Option PersistedRequestState)
    (deeds : List Deed) (w : Worked) (table : RequestTable)
    → count is_work deeds ≤ 1
    → (is_completed w.decision.status ≡ true → count is_work deeds ≡ 1)
    → IsEarned
        (conclude lifetime now r trace existing deeds w table).deeds
        (conclude lifetime now r trace existing deeds w table).end
unfolding conclude
conclude-IsEarned lifetime now r trace existing deeds w table h k =
    elim (Result-cases (persist now lifetime r trace existing w table).0) [
      | inl (e, f) ↦ rw (conclude, f) (record { once = h; earned = λ response g c. ground arith })
      | inr (a, f) ↦
          rw (conclude, f)
            (record {
              once = omega (
                arith,
                count-append is_work deeds (respond r trace w.decision).deeds,
                respond-quiet r trace w.decision,
              );
              earned = λ response g c. omega (
                arith,
                count-append is_work deeds (respond r trace w.decision).deeds,
                respond-quiet r trace w.decision,
                k (
                    subst (λ s. is_completed s ≡ true)
                      (respond-status r trace w.decision response g) c),
              );
            })
    ]

module _ {D M S : Type 0} (directory : String → Option String) (ports : Ports D M S) where
  with_values-EarnedBy :
      (r : NyraRequest) (existing : Option PersistedRequestState) (speaker : Speaker) (values : D)
      → EarnedBy decided (with_values directory ports r existing speaker values)
  unfolding with_values
  with_values-EarnedBy r existing speaker values =
      let context : Context D = record {
        values = values;
        identity = context_identity directory r speaker;
      } in
      map-EarnedBy decided (decide ports r context (pending_of existing) speaker.user_id)
        (λ d. record {
          identity = context_identity directory r speaker;
          last_trusted_user_id = speaker.last_trusted_user_id;
          decision = d;
        })
        (λ d. refl) (decide-Earned ports r context (pending_of existing) speaker.user_id)

  with_speaker-EarnedBy :
      (r : NyraRequest) (existing : Option PersistedRequestState) (speaker : Speaker)
      → EarnedBy decided (with_speaker directory ports r existing speaker)
  unfolding with_speaker
  with_speaker-EarnedBy r existing speaker =
      bind-EarnedBy decided (call_port (ports.resolve_context r speaker.user_id))
        (λ values. with_values directory ports r existing speaker values) (call_port-quiet _)
        (with_values-EarnedBy r existing speaker)

module _ {D M S Score : Type 0} (lifetime : ℕ) where
  work-EarnedBy :
      (directory : String → Option String) (ports : Ports D M S) (raw : RawIdentity Score)
      (r : NyraRequest) (existing : Option PersistedRequestState) (table : RequestTable)
      → EarnedBy decided (work lifetime directory ports raw r existing table)
  unfolding work
  work-EarnedBy directory ports raw r existing table =
      let known = known_speaker r existing (previous_state r existing table) in
      let rest : EarnedBy decided (
          identify_speaker raw r known >>= λ speaker.
          with_speaker directory ports r existing speaker) =
        bind-EarnedBy decided (identify_speaker raw r known)
          (λ speaker. with_speaker directory ports r existing speaker) (identify-quiet raw r known)
          (with_speaker-EarnedBy directory ports r existing) in
      record { once = rest.once; earned = rest.earned }

  -- A request runs at most one skill or the reasoning model, once, and one that is answered as COMPLETED has run it,
  -- whatever the ports answer and whatever other requests do meanwhile.
  pub execute_request-IsEarned :
      (directory : String → Option String) (ports : Ports D M S) (now : ℕ) (raw : RawIdentity Score)
      (trace : String) (r : NyraRequest) (others : RequestTable → RequestTable)
      (table : RequestTable)
      → IsEarned
          (execute_request lifetime directory ports now raw trace r others table).deeds
          (execute_request lifetime directory ports now raw trace r others table).end
  unfolding execute_request carry_on
  execute_request-IsEarned directory ports now raw trace r others table =
      elim (Result-cases (open_request now r table).0) [
        | inl (e, f) ↦
            rw (execute_request, f)
              (record { once = omega arith; earned = λ response g c. ground arith })
        | inr (already_expired, f) ↦
            rw (execute_request, f)
              (record { once = omega arith; earned = λ response g c. ground arith })
        | inr (proceeds existing, f) ↦
            let opened = (open_request now r table).1 in
            let worked = work-EarnedBy directory ports raw r existing opened in
            rw (execute_request, f)
              (elim (Result-cases (work lifetime directory ports raw r existing opened).end) [
                | inl (e, g) ↦
                    rw (carry_on, g)
                      (record { once = worked.once; earned = λ response k c. ground arith })
                | inr (w, g) ↦
                    rw (carry_on, g)
                      (conclude-IsEarned lifetime now r trace existing _ w (others opened)
                        worked.once (worked.earned w g))
              ])
      ]
