-- ===== src/WakeWord/Tests.antt =====
-- Runs at concrete inputs, and the witnesses of the properties.
use nyra.Base.{◌≡◌, refl, none, some, List, [], ◌∷◌, ok, raise, arith}
use nyra.WakeWord.{
  accepted, capture_active, CaptureRequest, WakeWordCaptureSession, capture_conflict, start_capture,
  complete_capture, completed_capture, get_capture, new_capture, required_words, insert_capture,
  parse_capture_status, check_result,
}
use nyra.WakeWord.Captures.{Request, begin, report, serve_all, IsSound, serve_captures-IsSound}
use nyra.WakeWord.Endings.{serve_all-keeps_ended, complete_capture-ends}

abbrev request : CaptureRequest
request = record {
  user_id = " ada ";
  source_id = "desk";
  language = "en";
  wake_word_text = "hey  nyra";
  fresh = "1";
}

abbrev session : WakeWordCaptureSession
session = record {
  session_id = "wwc_1";
  user_id = "ada";
  source_id = "desk";
  language = "en";
  wake_word_text = "hey nyra";
  status = capture_active;
  sample_id = none;
  reason_code = none;
}

abbrev ended : WakeWordCaptureSession
ended = completed_capture accepted (some "s1") none session

-- The words of the text are joined by single spaces.
start_normalises : start_capture request [] ≡ (ok session, session ∷ [])
unfolding start_capture new_capture required_words insert_capture
start_normalises = refl

-- A second capture on the source is refused while the first one runs.
second_refused : start_capture request (session ∷ []) ≡ (raise capture_conflict, session ∷ [])
unfolding start_capture new_capture required_words insert_capture
second_refused = refl

abbrev requests : List Request
requests = begin request ∷ report "wwc_1" "ACCEPTED" (some "s1") none ∷ begin request ∷ []

serve_captures-IsSound_example : IsSound (serve_all requests [])
serve_captures-IsSound_example =
    serve_captures-IsSound requests []
      (record { fits = tt; unique = tt; single = λ source. ground arith })

serve_all-keeps_ended_example : get_capture "wwc_1" (serve_all requests (ended ∷ [])) ≡ ok ended
serve_all-keeps_ended_example = serve_all-keeps_ended requests "wwc_1" ended (ended ∷ []) refl refl

complete_capture-ends_example :
    let after =
      serve_all requests (complete_capture "wwc_1" "ACCEPTED" (some "s1") none (session ∷ [])).1 in
    ((complete_capture "wwc_1" "ACCEPTED" (some "s1") none (session ∷ [])).0 ≡ ok ended)
    × (get_capture "wwc_1" after ≡ ok ended)
    × ((complete_capture "wwc_1" "ACCEPTED" (some "s2") none after).0 ≡ raise capture_conflict)
unfolding parse_capture_status check_result
complete_capture-ends_example =
    complete_capture-ends "wwc_1" "ACCEPTED" "ACCEPTED" accepted accepted (some "s1") none
      (some "s2") none session (session ∷ []) requests refl refl refl refl refl refl
