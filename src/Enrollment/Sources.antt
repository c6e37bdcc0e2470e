-- ===== src/Enrollment/Sources.antt =====
-- The table of sessions under any sequence of calls.
use mathlib.Core.Path.{subst}
use nyra.Base.{
  ℕ, zero, suc, ◌≤◌, ◌≡◌, refl, inl, inr, sym, String, Bool, true, false, Option, none, some, List,
  [], ◌∷◌, ◌++◌, ◌==◌, any, count, count-append, arith, eq_iff, All, Result, ok, Option-cases,
  Bool-cases, Result-cases, is_some, ◌<◌, ◌⊎◌, get_elem?, length,
}
use nyra.Table.{update, has_key}
use nyra.Table.Laws.{HasUniqueKeys, update-HasUniqueKeys, append-HasUniqueKeys, count-update_by_key}
use nyra.Enrollment.Phrases.{EnrollmentPhrase}
use nyra.Enrollment.Sessions.{
  EnrollmentSession, EnrollmentError, SessionTable, id_of, active_for, is_active, find_session, get,
  create, mutate, written, current_phrase, get_active_for_source, accepted_count,
}
use nyra.Enrollment.Service.{
  Generator, StartRequest, Checked, Attempt, check_start, required, new_session, start,
  attempt_update, record_attempt, terminate_update, terminate,
}
use nyra.Enrollment.Progress.{
  IsValid, new_session-IsValid, attempt_update-IsValid, attempt_update-eq, terminate_update-IsValid,
}

pub record IsSound (table : SessionTable) : Type 0 where
  pub valid : All IsValid table
  pub unique : HasUniqueKeys id_of table
  pub single : (source : String) → count (active_for source) table ≤ 1

append-All :
    (table : SessionTable) (s : EnrollmentSession)
    → All IsValid table
    → IsValid s
    → All IsValid (table ++ s ∷ [])
append-All [] s h v = (v, tt)
append-All (r ∷ table) s h v = (h.0, append-All table s h.1 v)

any-count-zero :
    (p : EnrollmentSession → Bool) (table : SessionTable) → any p table ≡ false → count p table ≡ 0
any-count-zero p [] h = refl
any-count-zero p (r ∷ table) h = ground (arith, any-count-zero p table)

active_for_other :
    (source : String) (s : EnrollmentSession) → active_for source s ≡ true → source ≡ s.source_id
active_for_other source s h = ground (arith, eq_iff s.source_id source)

single_append :
    (table : SessionTable) (s : EnrollmentSession) (source : String)
    → count (active_for source) table ≤ 1
    → any (active_for s.source_id) table ≡ false
    → count (active_for source) (table ++ s ∷ []) ≤ 1
single_append table s source h n = elim (Bool-cases (active_for source s)) [
  | inl a ↦
      let same : source ≡ s.source_id = active_for_other source s a in
      let gone : count (active_for source) table ≡ 0 =
        rw same (any-count-zero (active_for s.source_id) table n) in
      rw count-append (ground (arith, gone))
  | inr a ↦ rw count-append (ground arith)
]

create-IsSound :
    (s : EnrollmentSession) (table : SessionTable)
    → IsValid s
    → is_active s.status ≡ true
    → IsSound table
    → IsSound (create s table).1
unfolding create
create-IsSound s table v act h = elim (Bool-cases (any (has_key id_of s.session_id) table)) [
  | inl e ↦ rw e h
  | inr e ↦ elim (Bool-cases (any (active_for s.source_id) table)) [
    | inl f ↦ rw (e, act, f) h
    | inr f ↦
        rw (e, act, f)
          (record {
            valid = append-All table s h.valid v;
            unique = append-HasUniqueKeys id_of table s h.unique e;
            single = λ source. single_append table s source (h.single source) f;
          })
  ]
]

-- What a mutation may do to the session that it is given.
pub record IsMild (operation : EnrollmentSession → Result EnrollmentError EnrollmentSession)
    : Type 0 where
  pub keeps : (s t : EnrollmentSession) → operation s ≡ ok t → IsValid s → IsValid t
  pub wakes_nothing :
      (s t : EnrollmentSession)
      → operation s ≡ ok t
      → (source : String) → active_for source t ≡ true
      → active_for source s ≡ true

written-IsValid : (t row : EnrollmentSession) → IsValid t → IsValid (written t row)
written-IsValid t row v = record {
  planned = v.planned;
  room = v.room;
  full = v.full;
  distinct = v.distinct;
}

update-All :
    (t : EnrollmentSession) (k : String) (table : SessionTable)
    → All IsValid table
    → IsValid t
    → All IsValid (update (λ row. row.session_id == k) (written t) table)
update-All t k [] h v = tt
update-All t k (r ∷ table) h v = elim (Bool-cases (r.session_id == k)) [
  | inl e ↦ rw e (written-IsValid t r v, update-All t k table h.1 v)
  | inr e ↦ rw e (h.0, update-All t k table h.1 v)
]

find-All :
    (k : String) (table : SessionTable) (s : EnrollmentSession)
    → All IsValid table
    → find_session k table ≡ some s
    → IsValid s
find-All k [] s h e = absurd (ground arith)
find-All k (r ∷ table) s h e = elim (Bool-cases (r.session_id == k)) [
  | inl f ↦ subst IsValid (ground arith) h.0
  | inr f ↦ find-All k table s h.1 (ground arith)
]

mutate-IsSound :
    (k : String) (operation : EnrollmentSession → Result EnrollmentError EnrollmentSession)
    (table : SessionTable)
    → IsMild operation
    → IsSound table
    → IsSound (mutate k operation table).1
unfolding mutate
mutate-IsSound k operation table mild h = elim (Option-cases (find_session k table)) [
  | inl e ↦ rw (e, mutate) h
  | inr (s, e) ↦ elim (Result-cases (operation s)) [
    | inl (x, f) ↦ rw (e, mutate) (rw (f, mutate) h)
    | inr (t, f) ↦
        rw (e, mutate)
          (rw (f, mutate)
            (record {
              valid =
                  update-All t k table h.valid (mild.keeps s t f (find-All k table s h.valid e));
              unique =
                  update-HasUniqueKeys id_of (λ row. row.session_id == k) (written t) (λ r. refl)
                    table h.unique;
              single = λ source. omega (
                arith,
                h.single source,
                count-update_by_key id_of (active_for source) (written t) k table s h.unique e
                    (mild.wakes_nothing s t f source),
              );
            }))
  ]
]

attempt_update-IsMild : (a : Attempt) → IsMild (attempt_update a)
attempt_update-IsMild a = record {
  keeps = λ s t e v. attempt_update-IsValid a s t v e;
  wakes_nothing =
      λ s t e source h. let (ys, act, f, same) = attempt_update-eq a s t e in ground arith;
}

terminate_update-IsMild : (reason : String) → IsMild (terminate_update reason)
unfolding terminate_update
terminate_update-IsMild reason = record {
  keeps = λ s t e v. terminate_update-IsValid reason s t v e;
  wakes_nothing = λ s t e source h. ground arith;
}

-- The calls of the service.
pub data Call : Type 0 where
  start_call : Option Generator → StartRequest → Call
  attempt_call : String → Attempt → Call
  terminate_call : String → String → Call

abbrev pub serve : SessionTable → Call → SessionTable
serve table (start_call generator r) = (start generator r table).table
serve table (attempt_call session_id a) = (record_attempt session_id a table).table
serve table (terminate_call session_id reason) = (terminate session_id reason table).table

unfoldable pub serve_all : SessionTable → List Call → SessionTable
serve_all table [] = table
serve_all table (call ∷ calls) = serve_all (serve table call) calls

-- What each method makes of the table.
table-record_attempt :
    (k : String) (a : Attempt) (table : SessionTable)
    → ((record_attempt k a table).table ≡ table)
      ⊎ ((record_attempt k a table).table ≡ (mutate k (attempt_update a) table).1)
unfolding record_attempt
table-record_attempt k a table = ground arith

table-terminate :
    (k reason : String) (table : SessionTable)
    → ((terminate k reason table).table ≡ table)
      ⊎ ((given : String) × ((terminate k reason table).table
            ≡ (mutate k (terminate_update given) table).1))
unfolding terminate
table-terminate k reason table = elim (Result-cases (required reason)) [
  | inl (e, f) ↦ inl (ground arith)
  | inr (given, f) ↦ elim (Result-cases (get k table)) [
    | inl (e, g) ↦ inl (ground arith)
    | inr (s, g) ↦ inr (given, ground arith)
  ]
]

table-start :
    (g : Option Generator) (r : StartRequest) (table : SessionTable)
    → ((start g r table).table ≡ table)
      ⊎ ((c : Checked) × (check_start r ≡ ok c)
          × ((start g r table).table ≡ (create (new_session g r c) table).1))
unfolding start
table-start g r table = elim (Result-cases (check_start r)) [
  | inl (e, f) ↦ inl (ground arith)
  | inr (c, f) ↦ elim (Option-cases (get_active_for_source c.source_id table)) [
    | inl n ↦ inr (c, f, ground arith)
    | inr (s, n) ↦ inl (ground arith)
  ]
]

serve-IsSound : (table : SessionTable) (call : Call) → IsSound table → IsSound (serve table call)
serve-IsSound table (start_call g r) h = elim (table-start g r table) [
  | inl e ↦ subst IsSound (sym e) h
  | inr (c, f, e) ↦
      subst IsSound (sym e)
        (create-IsSound (new_session g r c) table (new_session-IsValid g r c f) refl h)
]
serve-IsSound table (attempt_call k a) h = elim (table-record_attempt k a table) [
  | inl e ↦ subst IsSound (sym e) h
  | inr e ↦
      subst IsSound (sym e) (mutate-IsSound k (attempt_update a) table (attempt_update-IsMild a) h)
]
serve-IsSound table (terminate_call k reason) h = elim (table-terminate k reason table) [
  | inl e ↦ subst IsSound (sym e) h
  | inr (given, e) ↦
      subst IsSound (sym e)
        (mutate-IsSound k (terminate_update given) table (terminate_update-IsMild given) h)
]

-- Whatever calls are made, a sound table stays sound: each session holds its plan and distinct samples, has
-- room while it is active and is full when it is completed, identifiers are unique, and no source has two
-- active sessions.
pub serve_all-IsSound :
    (table : SessionTable) (calls : List Call) → IsSound table → IsSound (serve_all table calls)
unfolding serve_all
serve_all-IsSound table [] h = h
serve_all-IsSound table (call ∷ calls) h =
    serve_all-IsSound (serve table call) calls (serve-IsSound table call h)

pub IsSound-nil : IsSound []
IsSound-nil = record { valid = tt; unique = tt; single = λ source. omega arith }

get_elem?-some :
    (phrases : List EnrollmentPhrase) (i : ℕ)
    → i < length phrases
    → (p : EnrollmentPhrase) × (get_elem? phrases i ≡ some p)
get_elem?-some [] i h = absurd (omega arith)
get_elem?-some (p ∷ phrases) zero h = (p, refl)
get_elem?-some (p ∷ phrases) (suc i) h = get_elem?-some phrases i (omega arith)

-- The phrase to read next is found, for every session that any calls on an empty table lead to: there is
-- one exactly while the session is active, and no index is out of range.
pub current_phrase_found :
    (calls : List Call) (k : String) (s : EnrollmentSession)
    → find_session k (serve_all [] calls) ≡ some s
    → (phrase : Option EnrollmentPhrase) × (current_phrase s ≡ ok phrase)
      × (is_some phrase ≡ is_active s.status)
unfolding current_phrase
current_phrase_found calls k s e =
    let sound = serve_all-IsSound [] calls IsSound-nil in
    let v = find-All k (serve_all [] calls) s sound.valid e in
    elim (Bool-cases (is_active s.status)) [
      | inr idle ↦ (none, rw idle, rw idle)
      | inl act ↦
          let room : accepted_count s < length s.phrases = omega (arith, v.planned, v.room act) in
          let (p, f) = get_elem?-some s.phrases (accepted_count s) room in
          (some p, rw act (rw f), rw act)
    ]
