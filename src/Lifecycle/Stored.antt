-- ===== src/Lifecycle/Stored.antt =====
-- The row that a request leaves agrees with its response.
use mathlib.Core.Path.{subst}
use nyra.Base.{
  ℕ, ◌≡◌, refl, sym, ◌∙◌, inl, inr, String, true, Option, none, some, List, any, arith, eq_self, ok,
  Bool-cases, Option-cases, Result-cases,
}
use nyra.Table.{has_key}
use nyra.Table.Laws.{find-append, find-update_by_key, find-key, any-find-none}
use nyra.Lifecycle.{
  Deed, NyraRequest, NyraRequestResponse, PersistedRequestState, expired, RequestStatus,
}
use nyra.Lifecycle.Store.{RequestTable, state_id, get_state, update_state, expire_due}
use nyra.Lifecycle.Identify.{RawIdentity}
use nyra.Lifecycle.Decide.{Ports}
use nyra.Lifecycle.Execute.{
  proceeds, already_expired, is_session, open_request, Worked, new_state, resumed_state, persist,
  conclude, carry_on, work, execute_request,
}
use nyra.Lifecycle.Final.{open-resumed}
use nyra.Lifecycle.Work.{respond-status}
use nyra.Lifecycle.Runs.{alone}

-- The row of the request, of its session, has the status that the response gives.
pub record IsStored (r : NyraRequest) (id : String) (status : RequestStatus) (table : RequestTable)
    : Type 0 where
  pub row : PersistedRequestState
  pub stands : get_state id table ≡ some row
  pub same_status : row.status ≡ status
  pub own : is_session r.session_id row.session_id ≡ true

-- A row that was resumed
resumed-IsStored :
    (now lifetime : ℕ) (r : NyraRequest) (trace : String) (x : PersistedRequestState) (w : Worked)
    (table : RequestTable) (id : String)
    → r.request_id ≡ some id
    → get_state x.request_id table ≡ some x
    → x.request_id ≡ id
    → is_session r.session_id x.session_id ≡ true
    → IsStored r id w.decision.status (persist now lifetime r trace (some x) w table).1
unfolding persist
resumed-IsStored now lifetime r trace x w table id named h key own = record {
  row = resumed_state now lifetime trace w x;
  stands =
      rw (persist, named)
        (subst
          (λ k.
            get_state k (update_state (resumed_state now lifetime trace w x) table)
            ≡ some (resumed_state now lifetime trace w x))
          key
          (find-update_by_key state_id
              (λ row. record (resumed_state now lifetime trace w x) { request_id = row.request_id })
              (λ row. refl) x.request_id x.request_id table
            ∙ simp (eq_self x.request_id, h) refl));
  same_status = refl;
  own = own;
}

-- A row that is new
created-IsStored :
    (now lifetime : ℕ) (r : NyraRequest) (trace : String) (w : Worked) (table : RequestTable)
    (id : String)
    → r.request_id ≡ some id
    → (persist now lifetime r trace none w table).0 ≡ ok tt
    → IsStored r id w.decision.status (persist now lifetime r trace none w table).1
unfolding persist
created-IsStored now lifetime r trace w table id named saved = elim (Option-cases r.session_id) [
  | inl e ↦ absurd (ground arith)
  | inr (session, e) ↦ elim (Bool-cases (any (has_key state_id id) table)) [
    | inl taken ↦ absurd (ground arith)
    | inr free ↦ record {
      row = new_state now lifetime r id session trace w;
      stands =
          rw (persist, named, e, free)
            (find-append state_id id table (new_state now lifetime r id session trace w)
              ∙ rw (any-find-none state_id id table free, eq_self id) refl);
      same_status = refl;
      own = simp (e, eq_self session) refl;
    }
  ]
]

conclude-IsStored :
    (lifetime now : ℕ) (r : NyraRequest) (trace : String) (existing : Option PersistedRequestState)
    (deeds : List Deed) (w : Worked) (table : RequestTable) (id : String)
    (response : NyraRequestResponse)
    → ((persist now lifetime r trace existing w table).0 ≡ ok tt
        → IsStored r id w.decision.status (persist now lifetime r trace existing w table).1)
    → (conclude lifetime now r trace existing deeds w table).end ≡ ok response
    → IsStored r id response.status (conclude lifetime now r trace existing deeds w table).table
unfolding conclude
conclude-IsStored lifetime now r trace existing deeds w table id response stored h =
    elim (Result-cases (persist now lifetime r trace existing w table).0) [
      | inl (e, f) ↦ absurd (ground arith)
      | inr (a, f) ↦
          rw (conclude, f)
            (subst (λ s. IsStored r id s (persist now lifetime r trace existing w table).1)
              (sym (respond-status r trace w.decision response (ground arith))) (stored f))
    ]

-- A row of the request that is there already when it opens
module _ (now : ℕ) (r : NyraRequest) where
  expired-IsStored :
      (table : RequestTable) (id : String)
      → r.request_id ≡ some id
      → (open_request now r table).0 ≡ ok already_expired
      → IsStored r id expired (open_request now r table).1
  unfolding open_request
  expired-IsStored table id named h = elim (Option-cases (get_state id (expire_due now table))) [
    | inl e ↦ absurd (ground arith)
    | inr (x, e) ↦ record {
      row = x;
      stands = rw (open_request, named) e;
      same_status = ground arith;
      own = ground arith;
    }
  ]

  opened-key :
      (table : RequestTable) (id : String) (x : PersistedRequestState)
      → r.request_id ≡ some id
      → (open_request now r table).0 ≡ ok (proceeds (some x))
      → x.request_id ≡ id
  unfolding open_request
  opened-key table id x named h = elim (Option-cases (get_state id (expire_due now table))) [
    | inl e ↦ absurd (ground arith)
    | inr (y, e) ↦ ground (arith, find-key state_id id (expire_due now table) e)
  ]

  worked-IsStored :
      (lifetime : ℕ) (trace : String) (table : RequestTable) (id : String)
      (existing : Option PersistedRequestState) (w : Worked)
      → r.request_id ≡ some id
      → (open_request now r table).0 ≡ ok (proceeds existing)
      → (persist now lifetime r trace existing w (open_request now r table).1).0 ≡ ok tt
      → IsStored r id w.decision.status
          (persist now lifetime r trace existing w (open_request now r table).1).1
  worked-IsStored lifetime trace table id none w named f saved =
      created-IsStored now lifetime r trace w (open_request now r table).1 id named saved
  worked-IsStored lifetime trace table id (some x) w named f saved =
      let (stands, waits, own) = open-resumed now r x table f in
      resumed-IsStored now lifetime r trace x w (open_request now r table).1 id named stands
        (opened-key table id x named f) own

-- Where a request that has an identifier is answered, with no other request served meanwhile, its row is in the table
-- afterwards, is of the request's session, and has the status of the response: new, resumed and expired requests alike.
pub execute_request-IsStored :
    {D M S Score : Type 0} (lifetime : ℕ) (directory : String → Option String) (ports : Ports D M S)
    (now : ℕ) (raw : RawIdentity Score) (trace id : String) (r : NyraRequest) (table : RequestTable)
    (response : NyraRequestResponse)
    → r.request_id ≡ some id
    → (execute_request lifetime directory ports now raw trace r alone table).end ≡ ok response
    → IsStored r id response.status
        (execute_request lifetime directory ports now raw trace r alone table).table
unfolding execute_request carry_on
execute_request-IsStored lifetime directory ports now raw trace id r table response named h =
    elim (Result-cases (open_request now r table).0) [
      | inl (e, f) ↦ absurd (ground arith)
      | inr (already_expired, f) ↦
          rw (execute_request, f)
            (subst (λ s. IsStored r id s (open_request now r table).1) (ground arith)
              (expired-IsStored now r table id named f))
      | inr (proceeds existing, f) ↦
          let opened = (open_request now r table).1 in
          elim (Result-cases (work lifetime directory ports raw r existing opened).end) [
            | inl (e, g) ↦ absurd (ground arith)
            | inr (w, g) ↦
                rw (execute_request, f)
                  (rw (carry_on, g)
                    (conclude-IsStored lifetime now r trace existing _ w opened id response
                      (worked-IsStored now r lifetime trace table id existing w named f)
                      (ground arith)))
          ]
    ]
