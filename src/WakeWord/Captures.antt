-- ===== src/WakeWord/Captures.antt =====
-- The table of capture sessions under any requests.
use nyra.Base.{
  ◌≤◌, ◌≡◌, refl, inl, inr, String, Bool, true, false, not, Option, is_some, List, [], ◌∷◌, ◌++◌,
  ◌==◌, any, count, count-append, All, arith, eq_iff, ok, Bool-cases, Option-cases, Result-cases,
}
use nyra.Table.{find, update, has_key}
use nyra.Table.Laws.{HasUniqueKeys, update-HasUniqueKeys, append-HasUniqueKeys, count-update_by_key}
use nyra.WakeWord.{
  WakeWordCaptureStatus, capture_active, accepted, rejected, failed, WakeWordCaptureSession,
  CaptureTable, CaptureRequest, capture_id, is_capturing, capturing_for, insert_capture,
  completed_capture, store_complete, new_capture, start_capture, parse_capture_status, lacks_sample,
  check_result, complete_capture, active_capture,
}

pub data Request : Type 0 where
  begin : CaptureRequest → Request
  report : (id text : String) (sample reason : Option String) → Request

unfoldable pub serve : Request → CaptureTable → CaptureTable
serve (begin request) table = (start_capture request table).1
serve (report id text sample reason) table = (complete_capture id text sample reason table).1

unfoldable pub serve_all : List Request → CaptureTable → CaptureTable
serve_all [] table = table
serve_all (request ∷ requests) table = serve_all requests (serve request table)

-- An accepted session has a sample, and no other has one.
abbrev pub sample_fits : WakeWordCaptureStatus → Option String → Bool
sample_fits accepted sample = not (lacks_sample sample)
sample_fits _ sample = not (is_some sample)

abbrev pub Fits : WakeWordCaptureSession → Type 0
Fits s = sample_fits s.status s.sample_id ≡ true

pub record IsSound (table : CaptureTable) : Type 0 where
  pub fits : All Fits table
  pub unique : HasUniqueKeys capture_id table
  pub single : (source : String) → count (capturing_for source) table ≤ 1

append-Fits :
    (table : CaptureTable) (s : WakeWordCaptureSession)
    → All Fits table
    → Fits s
    → All Fits (table ++ s ∷ [])
append-Fits [] s h v = (v, tt)
append-Fits (r ∷ table) s h v = (h.0, append-Fits table s h.1 v)

none-count :
    (p : WakeWordCaptureSession → Bool) (table : CaptureTable)
    → any p table ≡ false
    → count p table ≡ 0
none-count p [] h = refl
none-count p (r ∷ table) h = ground (arith, none-count p table)

append-single :
    (table : CaptureTable) (s : WakeWordCaptureSession) (source : String)
    → count (capturing_for source) table ≤ 1
    → is_capturing s.status ≡ true
    → any (capturing_for s.source_id) table ≡ false
    → count (capturing_for source) (table ++ s ∷ []) ≤ 1
append-single table s source h a n =
    rw count-append
      (ground (arith, eq_iff s.source_id source, none-count (capturing_for s.source_id) table n))

insert_capture-IsSound :
    (s : WakeWordCaptureSession) (table : CaptureTable)
    → Fits s
    → is_capturing s.status ≡ true
    → IsSound table
    → IsSound (insert_capture s table).1
unfolding insert_capture
insert_capture-IsSound s table v a h =
    elim (Bool-cases (any (has_key capture_id s.session_id) table)) [
      | inl e ↦ rw (insert_capture, e) h
      | inr e ↦ elim (Bool-cases (any (capturing_for s.source_id) table)) [
        | inl f ↦ rw (insert_capture, e, a, f) h
        | inr f ↦
            rw (insert_capture, e, a, f)
              (record {
                fits = append-Fits table s h.fits v;
                unique = append-HasUniqueKeys capture_id table s h.unique e;
                single = λ source. append-single table s source (h.single source) a f;
              })
      ]
    ]

new_capture-starts :
    (request : CaptureRequest) (s : WakeWordCaptureSession)
    → new_capture request ≡ ok s
    → (is_capturing s.status ≡ true) × Fits s
unfolding new_capture
new_capture-starts request s h = ground arith

start_capture-IsSound :
    (request : CaptureRequest) (table : CaptureTable)
    → IsSound table
    → IsSound (start_capture request table).1
unfolding start_capture
start_capture-IsSound request table h = elim (Result-cases (new_capture request)) [
  | inl (e, f) ↦ rw (start_capture, f) h
  | inr (s, f) ↦ elim (Bool-cases (is_some (active_capture s.source_id table))) [
    | inl g ↦ rw (start_capture, f, g) h
    | inr g ↦
        let (a, v) = new_capture-starts request s f in
        rw (start_capture, f, g) (insert_capture-IsSound s table v a h)
  ]
]

update-Fits :
    (status : WakeWordCaptureStatus) (sample reason : Option String) (id : String)
    (table : CaptureTable)
    → sample_fits status sample ≡ true
    → All Fits table
    → All Fits (update (λ row. row.session_id == id) (completed_capture status sample reason) table)
update-Fits status sample reason id [] v h = tt
update-Fits status sample reason id (r ∷ table) v h = elim (Bool-cases (r.session_id == id)) [
  | inl e ↦ rw e (v, update-Fits status sample reason id table v h.1)
  | inr e ↦ rw e (h.0, update-Fits status sample reason id table v h.1)
]

pub check_result-ends :
    (status : WakeWordCaptureStatus) (sample : Option String)
    → check_result status sample ≡ ok tt
    → (is_capturing status ≡ false) × (sample_fits status sample ≡ true)
unfolding check_result
check_result-ends capture_active sample h = ground arith
check_result-ends accepted sample h = ground arith
check_result-ends rejected sample h = ground arith
check_result-ends failed sample h = ground arith

store_complete-IsSound :
    (id : String) (status : WakeWordCaptureStatus) (sample reason : Option String)
    (table : CaptureTable)
    → is_capturing status ≡ false
    → sample_fits status sample ≡ true
    → IsSound table
    → IsSound (store_complete id status sample reason table).1
unfolding store_complete
store_complete-IsSound id status sample reason table over v h =
    elim (Option-cases (find capture_id id table)) [
      | inl e ↦ rw (store_complete, e) h
      | inr (s, e) ↦ elim (Bool-cases (is_capturing s.status)) [
        | inr f ↦ rw (store_complete, e, f) h
        | inl f ↦
            rw (store_complete, e, f)
              (record {
                fits = update-Fits status sample reason id table v h.fits;
                unique =
                    update-HasUniqueKeys capture_id (λ row. row.session_id == id)
                      (completed_capture status sample reason) (λ r. refl) table h.unique;
                single = λ source. ground (
                  arith,
                  count-update_by_key capture_id (capturing_for source)
                      (completed_capture status sample reason) id table s h.unique e (ground arith),
                  h.single source,
                );
              })
      ]
    ]

complete_capture-IsSound :
    (id text : String) (sample reason : Option String) (table : CaptureTable)
    → IsSound table
    → IsSound (complete_capture id text sample reason table).1
unfolding complete_capture
complete_capture-IsSound id text sample reason table h =
    elim (Option-cases (parse_capture_status text)) [
      | inl e ↦ rw (complete_capture, e) h
      | inr (status, e) ↦ elim (Result-cases (check_result status sample)) [
        | inl (error, f) ↦ rw (complete_capture, e, f) h
        | inr (checked, f) ↦
            let (over, v) = check_result-ends status sample f in
            rw (complete_capture, e, f)
              (store_complete-IsSound id status sample reason table over v h)
      ]
    ]

-- From a sound table, any requests lead to a sound one: at most one session per source captures, no identifier is
-- there twice, and the sessions with a sample are those that were accepted.
pub serve_captures-IsSound :
    (requests : List Request) (table : CaptureTable)
    → IsSound table
    → IsSound (serve_all requests table)
unfolding serve_all serve
serve_captures-IsSound [] table h = h
serve_captures-IsSound (begin request ∷ requests) table h =
    serve_captures-IsSound requests _ (start_capture-IsSound request table h)
serve_captures-IsSound (report id text sample reason ∷ requests) table h =
    serve_captures-IsSound requests _ (complete_capture-IsSound id text sample reason table h)
