-- ===== src/Lifecycle/Final.antt =====
-- What a request may do to a row that is not its own to resume.
use mathlib.Core.Path.{subst}
use nyra.Base.{
  ℕ, ◌≡◌, refl, sym, ◌∙◌, inl, inr, String, true, false, Option, none, some, ◌==◌, any, arith,
  eq_iff, if◌then◌else◌, ok, Bool-cases, Option-cases,
}
use nyra.Table.{has_key}
use nyra.Table.Laws.{find-append, find-update, find-update_by_key, find-key}
use nyra.Lifecycle.{NyraRequest, PersistedRequestState}
use nyra.Lifecycle.Store.{
  RequestTable, state_id, get_state, update_state, expire_due, is_waiting, is_expiring, expired_row,
}
use nyra.Lifecycle.Execute.{
  proceeds, is_session, check_resume, open_request, Worked, resumed_state, new_state, persist,
}

-- The row as a request finds it: a job looks at no row.
abbrev pub aged : ℕ → NyraRequest → PersistedRequestState → PersistedRequestState
aged now r s = elim r.request_id [
  | none ↦ s
  | some id ↦ if is_expiring now s then expired_row now s else s
]

check_resume-proceeds :
    (r : NyraRequest) (x s : PersistedRequestState)
    → check_resume r x ≡ ok (proceeds (some s))
    → (x ≡ s) × (is_waiting x.status ≡ true) × (is_session r.session_id x.session_id ≡ true)
check_resume-proceeds r x s h = ground arith

module _ (now : ℕ) (r : NyraRequest) where
  pub open-find :
      (id : String) (s : PersistedRequestState) (table : RequestTable)
      → get_state id table ≡ some s
      → get_state id (open_request now r table).1 ≡ some (aged now r s)
  unfolding open_request expire_due
  open-find id s table h = elim (Option-cases r.request_id) [
    | inl e ↦ rw (open_request, e) h
    | inr (rid, e) ↦
        rw (open_request, e)
          (find-update state_id (is_expiring now) (expired_row now) (λ row. refl) id table
            ∙ rw h refl)
  ]

  -- A row that is resumed stands in the table, waits, and is of the request's session.
  pub open-resumed :
      (s : PersistedRequestState) (table : RequestTable)
      → (open_request now r table).0 ≡ ok (proceeds (some s))
      → (get_state s.request_id (open_request now r table).1 ≡ some s)
        × (is_waiting s.status ≡ true)
        × (is_session r.session_id s.session_id ≡ true)
  unfolding open_request
  open-resumed s table h = elim (Option-cases r.request_id) [
    | inl e ↦ ground arith
    | inr (rid, e) ↦ elim (Option-cases (get_state rid (expire_due now table))) [
      | inl f ↦ ground arith
      | inr (x, f) ↦
          let (same, waits, own) = check_resume-proceeds r x s (ground arith) in
          let key = find-key state_id rid (expire_due now table) f in
          subst
            (λ (y : PersistedRequestState).
              (get_state y.request_id (open_request now r table).1 ≡ some y)
              × (is_waiting y.status ≡ true)
              × (is_session r.session_id y.session_id ≡ true))
            same
            (
              rw (open_request, e)
                  (subst (λ k. get_state k (expire_due now table) ≡ some x) (sym key) f),
              waits,
              own,
            )
    ]
  ]

update-find :
    (id : String) (x s : PersistedRequestState) (table : RequestTable)
    → get_state id table ≡ some s
    → (x.request_id == id) ≡ false
    → get_state id (update_state x table) ≡ some s
update-find id x s table h other =
    find-update_by_key state_id (λ row. record x { request_id = row.request_id }) (λ row. refl)
      x.request_id id table
    ∙ ground (arith, eq_iff id x.request_id, eq_iff x.request_id id)

-- The end of a request touches no row but the one that it resumes.
pub persist-find :
    (now lifetime : ℕ) (r : NyraRequest) (trace id : String)
    (existing : Option PersistedRequestState) (w : Worked) (s : PersistedRequestState)
    (table : RequestTable)
    → get_state id table ≡ some s
    → ((x : PersistedRequestState) → existing ≡ some x → (x.request_id == id) ≡ false)
    → get_state id (persist now lifetime r trace existing w table).1 ≡ some s
unfolding persist
persist-find now lifetime r trace id (some x) w s table h other = elim (Option-cases r.request_id) [
  | inl e ↦ rw (persist, e) h
  | inr (rid, e) ↦
      rw (persist, e)
        (update-find id (resumed_state now lifetime trace w x) s table h (other x refl))
]
persist-find now lifetime r trace id none w s table h other = elim (Option-cases r.request_id) [
  | inl e ↦ rw (persist, e) h
  | inr (rid, e) ↦ elim (Option-cases r.session_id) [
    | inl f ↦ rw (persist, e, f) h
    | inr (session, f) ↦
        let new = new_state now lifetime r rid session trace w in
        elim (Bool-cases (any (has_key state_id rid) table)) [
          | inl taken ↦ rw (persist, e, f, taken) h
          | inr free ↦ rw (persist, e, f, free) (find-append state_id id table new ∙ rw h refl)
        ]
  ]
]
