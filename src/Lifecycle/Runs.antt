-- ===== src/Lifecycle/Runs.antt =====
-- Requests that are served one after the other.
use mathlib.Core.Path.{subst}
use nyra.Base.{
  ap, eq→path, ℕ, ◌≡◌, sym, ◌∙◌, inl, inr, String, Bool, true, false, ◌&&◌, Option, none, some,
  List, ◌==◌, arith, ok, Bool-cases, Result-cases,
}
use nyra.Lifecycle.{NyraRequest, PersistedRequestState, Deed}
use nyra.Lifecycle.Store.{RequestTable, get_state, is_waiting}
use nyra.Lifecycle.Identify.{RawIdentity}
use nyra.Lifecycle.Decide.{Ports}
use nyra.Lifecycle.Execute.{
  proceeds, already_expired, is_session, open_request, Worked, persist, conclude, carry_on, work,
  execute_request,
}
use nyra.Lifecycle.Final.{aged, open-find, open-resumed, persist-find}

abbrev pub alone : RequestTable → RequestTable
alone table = table

conclude-find :
    (lifetime now : ℕ) (r : NyraRequest) (trace id : String)
    (existing : Option PersistedRequestState) (deeds : List Deed) (w : Worked)
    (s : PersistedRequestState) (table : RequestTable)
    → get_state id table ≡ some s
    → ((x : PersistedRequestState) → existing ≡ some x → (x.request_id == id) ≡ false)
    → get_state id (conclude lifetime now r trace existing deeds w table).table ≡ some s
unfolding conclude
conclude-find lifetime now r trace id existing deeds w s table h other =
    elim (Result-cases (persist now lifetime r trace existing w table).0) [
      | inl (e, f) ↦
          rw (conclude, f) (persist-find now lifetime r trace id existing w s table h other)
      | inr (a, f) ↦
          rw (conclude, f) (persist-find now lifetime r trace id existing w s table h other)
    ]

contradiction_of : {a b c : Bool} → a ≡ true → b ≡ true → (a && b) ≡ false → c ≡ false
contradiction_of h k e = ground arith

some-injective {ℓ} : {A : Type ℓ} (a b : A) → ◌≡◌ {A = Option A} (some a) (some b) → a ≡ b
some-injective a b h = cc

aged-session :
    (now : ℕ) (r : NyraRequest) (s : PersistedRequestState)
    → (aged now r s).session_id ≡ s.session_id
aged-session now r s = ground arith

aged-ended :
    (now : ℕ) (r : NyraRequest) (s : PersistedRequestState)
    → is_waiting s.status ≡ false
    → aged now r s ≡ s
aged-ended now r s over = ground arith

resumed-foreign :
    (now : ℕ) (r : NyraRequest) (id : String) (s x y : PersistedRequestState) (table : RequestTable)
    → get_state id table ≡ some s
    → (is_waiting (aged now r s).status && is_session r.session_id s.session_id) ≡ false
    → (open_request now r table).0 ≡ ok (proceeds (some x))
    → ◌≡◌ {A = Option PersistedRequestState} (some x) (some y)
    → (y.request_id == id) ≡ false
resumed-foreign now r id s x y table h foreign f e = elim (Bool-cases (y.request_id == id)) [
  | inr other ↦ other
  | inl here ↦
      let opened = (open_request now r table).1 in
      let (stands, waits, own) = open-resumed now r x table f in
      let key : x.request_id ≡ id =
        ap (λ (z : PersistedRequestState). z.request_id) (some-injective x y e)
        ∙ eq→path y.request_id id here in
      let found : get_state id opened ≡ some x =
        subst (λ k. get_state k opened ≡ some x) key stands in
      let same : x ≡ aged now r s =
        some-injective x (aged now r s) (sym found ∙ open-find now r id s table h) in
      let waits' : is_waiting (aged now r s).status ≡ true =
        subst (λ (z : PersistedRequestState). is_waiting z.status ≡ true) same waits in
      let own' : is_session r.session_id s.session_id ≡ true =
        subst (λ k. is_session r.session_id k ≡ true) (aged-session now r s)
          (subst (λ (z : PersistedRequestState). is_session r.session_id z.session_id ≡ true) same
            own) in
      contradiction_of waits' own' foreign
]

module _ {D M S Score : Type 0} (lifetime : ℕ) where
  carry_on-find :
      (directory : String → Option String) (ports : Ports D M S) (now : ℕ) (raw : RawIdentity Score)
      (trace id : String) (r : NyraRequest) (existing : Option PersistedRequestState)
      (s : PersistedRequestState) (table : RequestTable)
      → get_state id table ≡ some s
      → ((x : PersistedRequestState) → existing ≡ some x → (x.request_id == id) ≡ false)
      → get_state id (carry_on lifetime directory ports now raw trace r alone existing table).table
        ≡ some s
  unfolding carry_on
  carry_on-find directory ports now raw trace id r existing s table h other =
      elim (Result-cases (work lifetime directory ports raw r existing table).end) [
        | inl (e, f) ↦ rw (carry_on, f) h
        | inr (w, f) ↦
            rw (carry_on, f)
              (conclude-find lifetime now r trace id existing
                (work lifetime directory ports raw r existing table).deeds w s table h other)
      ]

  -- A request leaves a row as it ages, unless it resumes that row: the row waits and is of the request's session.
  execute-find :
      (directory : String → Option String) (ports : Ports D M S) (now : ℕ) (raw : RawIdentity Score)
      (trace id : String) (r : NyraRequest) (s : PersistedRequestState) (table : RequestTable)
      → get_state id table ≡ some s
      → (is_waiting (aged now r s).status && is_session r.session_id s.session_id) ≡ false
      → get_state id (execute_request lifetime directory ports now raw trace r alone table).table
        ≡ some (aged now r s)
  unfolding execute_request
  execute-find directory ports now raw trace id r s table h foreign =
      elim (Result-cases (open_request now r table).0) [
        | inl (e, f) ↦ rw (execute_request, f) (open-find now r id s table h)
        | inr (already_expired, f) ↦ rw (execute_request, f) (open-find now r id s table h)
        | inr (proceeds none, f) ↦
            rw (execute_request, f)
              (carry_on-find directory ports now raw trace id r none (aged now r s) _
                (open-find now r id s table h) (λ x e. ground arith))
        | inr (proceeds (some x), f) ↦
            rw (execute_request, f)
              (carry_on-find directory ports now raw trace id r (some x) (aged now r s) _
                (open-find now r id s table h)
                (λ y e. resumed-foreign now r id s x y table h foreign f e))
      ]

module _ (D M S Score : Type 0) (lifetime : ℕ) where
  -- One request, served with no other in between
  pub data Step (t : RequestTable) : RequestTable → Type 0 where
    serve :
        (directory : String → Option String) (ports : Ports D M S) (now : ℕ)
        (raw : RawIdentity Score) (trace : String) (r : NyraRequest)
        → Step t (execute_request lifetime directory ports now raw trace r alone t).table

  pub data Reach (t : RequestTable) : RequestTable → Type 0 where
    here : Reach t t
    next : {u w : RequestTable} → Reach t u → Step u w → Reach t w

  -- A row whose request has ended (completed, closed, failed or expired) is read back unchanged after any requests,
  -- those that name it among them, that are served one after the other.
  pub ended_stays :
      (id : String) (s : PersistedRequestState) (t u : RequestTable)
      → get_state id t ≡ some s
      → is_waiting s.status ≡ false
      → Reach t u
      → get_state id u ≡ some s
  ended_stays id s t u h over here = h
  ended_stays id s t u h over (next {u = v} steps (serve directory ports now raw trace r)) =
      let same : aged now r s ≡ s = aged-ended now r s over in
      subst
        (λ (row : PersistedRequestState).
          get_state id (execute_request lifetime directory ports now raw trace r alone v).table
          ≡ some row)
        same
        (execute-find lifetime directory ports now raw trace id r s v
          (ended_stays id s t v h over steps)
          (subst
            (λ (row : PersistedRequestState).
              (is_waiting row.status && is_session r.session_id s.session_id) ≡ false)
            (sym same) (ground arith)))

  -- A request of another session leaves a row as it is, but for its expiry.
  pub other_session_untouched :
      (directory : String → Option String) (ports : Ports D M S) (now : ℕ) (raw : RawIdentity Score)
      (trace id : String) (r : NyraRequest) (s : PersistedRequestState) (table : RequestTable)
      → get_state id table ≡ some s
      → is_session r.session_id s.session_id ≡ false
      → get_state id (execute_request lifetime directory ports now raw trace r alone table).table
        ≡ some (aged now r s)
  other_session_untouched directory ports now raw trace id r s table h other =
      execute-find lifetime directory ports now raw trace id r s table h (ground arith)
