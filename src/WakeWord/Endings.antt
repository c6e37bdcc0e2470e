-- ===== src/WakeWord/Endings.antt =====
-- What ended stays as it ended.
use nyra.Base.{
  ◌≡◌, refl, ◌∙◌, inl, inr, String, true, false, ◌||◌, ◌&&◌, Option, some, is_some, List, [], ◌∷◌,
  any, arith, eq_iff, eq_self, ok, raise, Bool-cases, Option-cases, Result-cases,
}
use nyra.Table.{find, has_key}
use nyra.Table.Laws.{find-append, find-update_by_key}
use nyra.WakeWord.{
  capture_conflict, WakeWordCaptureStatus, WakeWordCaptureSession, CaptureTable, CaptureRequest,
  capture_id, is_capturing, capturing_for, insert_capture, completed_capture, store_complete,
  new_capture, start_capture, parse_capture_status, check_result, complete_capture, active_capture,
  get_capture,
}
use nyra.WakeWord.Captures.{Request, begin, report, serve, serve_all, check_result-ends}

insert_capture-find :
    (id : String) (new s : WakeWordCaptureSession) (table : CaptureTable)
    → find capture_id id table ≡ some s
    → find capture_id id (insert_capture new table).1 ≡ some s
unfolding insert_capture
insert_capture-find id new s table h =
    elim (Bool-cases (
      any (has_key capture_id new.session_id) table
      || (is_capturing new.status && any (capturing_for new.source_id) table))) [
        | inl e ↦ rw (insert_capture, e) h
        | inr e ↦ rw (insert_capture, e) (find-append capture_id id table new ∙ rw h refl)
      ]

start_capture-find :
    (id : String) (request : CaptureRequest) (s : WakeWordCaptureSession) (table : CaptureTable)
    → find capture_id id table ≡ some s
    → find capture_id id (start_capture request table).1 ≡ some s
unfolding start_capture
start_capture-find id request s table h = elim (Result-cases (new_capture request)) [
  | inl (e, f) ↦ rw (start_capture, f) h
  | inr (new, f) ↦ elim (Bool-cases (is_some (active_capture new.source_id table))) [
    | inl g ↦ rw (start_capture, f, g) h
    | inr g ↦ rw (start_capture, f, g) (insert_capture-find id new s table h)
  ]
]

store_complete-find :
    (j id : String) (status : WakeWordCaptureStatus) (sample reason : Option String)
    (s : WakeWordCaptureSession) (table : CaptureTable)
    → find capture_id id table ≡ some s
    → is_capturing s.status ≡ false
    → find capture_id id (store_complete j status sample reason table).1 ≡ some s
unfolding store_complete
store_complete-find j id status sample reason s table h over =
    elim (Option-cases (find capture_id j table)) [
      | inl e ↦ rw (store_complete, e) h
      | inr (r, e) ↦ elim (Bool-cases (is_capturing r.status)) [
        | inr f ↦ rw (store_complete, e, f) h
        | inl f ↦
            rw (store_complete, e, f)
              (find-update_by_key capture_id (completed_capture status sample reason) (λ row. refl)
                  j id table
                ∙ ground (arith, eq_iff id j))
      ]
    ]

complete_capture-find :
    (j id text : String) (sample reason : Option String) (s : WakeWordCaptureSession)
    (table : CaptureTable)
    → find capture_id id table ≡ some s
    → is_capturing s.status ≡ false
    → find capture_id id (complete_capture j text sample reason table).1 ≡ some s
unfolding complete_capture
complete_capture-find j id text sample reason s table h over =
    elim (Option-cases (parse_capture_status text)) [
      | inl e ↦ rw (complete_capture, e) h
      | inr (status, e) ↦ elim (Result-cases (check_result status sample)) [
        | inl (error, f) ↦ rw (complete_capture, e, f) h
        | inr (checked, f) ↦
            rw (complete_capture, e, f)
              (store_complete-find j id status sample reason s table h over)
      ]
    ]

-- A session that has ended is read back as it ended, whatever requests follow.
pub serve_all-keeps_ended :
    (requests : List Request) (id : String) (s : WakeWordCaptureSession) (table : CaptureTable)
    → find capture_id id table ≡ some s
    → is_capturing s.status ≡ false
    → get_capture id (serve_all requests table) ≡ ok s
unfolding serve_all serve get_capture
serve_all-keeps_ended [] id s table h over = rw (get_capture, h) refl
serve_all-keeps_ended (begin request ∷ requests) id s table h over =
    serve_all-keeps_ended requests id s _ (start_capture-find id request s table h) over
serve_all-keeps_ended (report j text sample reason ∷ requests) id s table h over =
    serve_all-keeps_ended requests id s _
      (complete_capture-find j id text sample reason s table h over) over

get_capture-find :
    (id : String) (s : WakeWordCaptureSession) (table : CaptureTable)
    → get_capture id table ≡ ok s
    → find capture_id id table ≡ some s
unfolding get_capture
get_capture-find id s table h = elim (Option-cases (find capture_id id table)) [
  | inl e ↦ absurd (ground arith)
  | inr (row, e) ↦ ground arith
]

complete_capture-again :
    (id text : String) (status : WakeWordCaptureStatus) (sample reason : Option String)
    (s : WakeWordCaptureSession) (table : CaptureTable)
    → parse_capture_status text ≡ some status
    → check_result status sample ≡ ok tt
    → find capture_id id table ≡ some s
    → is_capturing s.status ≡ false
    → (complete_capture id text sample reason table).0 ≡ raise capture_conflict
unfolding complete_capture store_complete
complete_capture-again id text status sample reason s table parsed checked h over =
    rw (complete_capture, parsed, checked, store_complete, h, over) refl

-- The first report for a session that captures, with a known status and a sample that fits it, is the only one: it answers
-- with the session, its status, sample and reason those of the report and all else as it was; the session is read back
-- that way after whatever requests follow, and a further report, whose status is known too and whose sample fits, is
-- then refused as a conflict.
pub complete_capture-ends :
    (id text later_text : String) (status later_status : WakeWordCaptureStatus)
    (sample reason later_sample later_reason : Option String) (s : WakeWordCaptureSession)
    (table : CaptureTable) (requests : List Request)
    → parse_capture_status text ≡ some status
    → check_result status sample ≡ ok tt
    → parse_capture_status later_text ≡ some later_status
    → check_result later_status later_sample ≡ ok tt
    → find capture_id id table ≡ some s
    → is_capturing s.status ≡ true
    → let after = serve_all requests (complete_capture id text sample reason table).1 in
      ((complete_capture id text sample reason table).0
        ≡ ok (record s { status = status; sample_id = sample; reason_code = reason }))
      × (get_capture id after
          ≡ ok (record s { status = status; sample_id = sample; reason_code = reason }))
      × ((complete_capture id later_text later_sample later_reason after).0
          ≡ raise capture_conflict)
unfolding complete_capture store_complete
complete_capture-ends id text later_text status later_status sample reason later_sample later_reason
      s table requests parsed checked later_parsed later_checked h on =
    let after = serve_all requests (complete_capture id text sample reason table).1 in
    let over = (check_result-ends status sample checked).0 in
    let kept : get_capture id after ≡ ok (completed_capture status sample reason s) =
      serve_all-keeps_ended requests id (completed_capture status sample reason s) _
        (rw (complete_capture, parsed, checked, store_complete, h, on)
          (find-update_by_key capture_id (completed_capture status sample reason) (λ row. refl) id
              id table
            ∙ rw (eq_self id, h) refl))
        over in
    (
      rw (complete_capture, parsed, checked, store_complete, h, on) refl,
      kept,
      complete_capture-again id later_text later_status later_sample later_reason
          (completed_capture status sample reason s) after later_parsed later_checked
          (get_capture-find id _ after kept) over,
    )
