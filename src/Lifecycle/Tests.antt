-- ===== src/Lifecycle/Tests.antt =====
-- Runs at concrete inputs, and the witnesses of the properties. The ports here ask once which lamp is meant, and then
-- the skill answers.
use nyra.Base.{arith, ℕ, ◌≡◌, refl, String, true, Option, none, some, [], ◌∷◌, ok}
use nyra.Json.{Fields, end}
use nyra.Lifecycle.{
  nyra_ui, NyraRequest, PersistedRequestState, dumped, completed, needs_clarification, SkillMatch,
  no_memory, no_query, handled, unclear, LifecycleDecision, state, skill_run, processing_local,
  using_tool,
}
use nyra.Lifecycle.Store.{
  stored_le, get_state, expire_due, expired_row, latest_for_session, session_rows,
}
use nyra.Lifecycle.Identify.{RawIdentity, late, known_speaker, identify_speaker, context_identity}
use nyra.Lifecycle.Decide.{Ports, access_error, decide, on_check, on_match, run_handled, run_match}
use nyra.Lifecycle.Execute.{
  execute_request, open_request, carry_on, work, with_speaker, with_values, conclude, persist,
  respond, previous_state, expired_response,
}
use nyra.Lifecycle.Runs.{here, next, serve, alone, ended_stays, other_session_untouched}
use nyra.Lifecycle.Work.{IsEarned, execute_request-IsEarned}
use nyra.Lifecycle.Stored.{IsStored, execute_request-IsStored}
use nyra.Lifecycle.Expiry.{overdue_is_refused}

abbrev lamp_match : Option Fields → SkillMatch
lamp_match pending = record {
  matched = true;
  skill_name = some "home_assistant_action";
  memory_requirement = no_memory;
  memory_query = no_query;
  outcome = elim pending [ none ↦ unclear | some fields ↦ handled ];
  text = some "Which lamp?";
  pending_state = none;
  error_code = none;
}

abbrev done : LifecycleDecision
done = record {
  status = completed;
  text = some "Done";
  pending_state = none;
  close_reason = none;
  error = none;
}

abbrev ports : Ports ℕ ℕ ℕ
ports = record {
  resolve_context = λ r user. ok 0;
  check = λ r context pending. ok (lamp_match pending);
  run_skill = λ match r context memory pending. ok done;
  semantic = none;
  semantic_check = none;
  search = λ r user query. access_error;
  reason = λ r context pending. ok done;
}

abbrev directory : String → Option String
directory user = none

abbrev request : String → NyraRequest
request session = record {
  type_of = nyra_ui;
  session_id = some session;
  request_id = some "req_1";
  language = "en";
  source = none;
  identity = none;
  text = "turn on the lamp";
}

abbrev no_answer : RawIdentity ℕ
no_answer = late

abbrev row : PersistedRequestState
row = record {
  request_id = "req_1";
  session_id = "ses_1";
  type_of = nyra_ui;
  language = "en";
  source = none;
  identity_user_id = some "guest";
  last_trusted_user_id = none;
  original_input = "turn on the lamp";
  status = needs_clarification;
  current_trace_id = "trc_1";
  pending_state = some end;
  created_at = dumped 5000000;
  updated_at = dumped 5000000;
  expires_at = some (dumped 125000000);
}

abbrev ended : PersistedRequestState
ended = record row { status = completed; pending_state = none; expires_at = none }

-- The first request waits for a clarification, and the second one completes it.
first_asks :
    (execute_request 120000000 directory ports 5000000 no_answer "trc_1"
      (request "ses_1")
      alone
      []).table
    ≡ row ∷ []
unfolding execute_request open_request expire_due carry_on work previous_state latest_for_session
    session_rows known_speaker identify_speaker with_speaker with_values context_identity decide
    on_check conclude persist respond
first_asks = refl

second_completes :
    (execute_request 120000000 directory ports 9000000 no_answer "trc_2"
      (request "ses_1")
      alone
      (row ∷ [])).deeds
    ≡ state processing_local ∷ state using_tool ∷ skill_run (some "home_assistant_action") ∷ []
unfolding execute_request open_request expire_due carry_on work previous_state latest_for_session
    session_rows known_speaker identify_speaker with_speaker with_values context_identity decide
    on_check on_match run_handled run_match conclude persist respond stored_le
second_completes = refl

ended_stays_example :
    get_state "req_1"
      (execute_request 120000000 directory ports 9000000 no_answer "trc_2"
        (request "ses_1")
        alone
        (ended ∷ [])).table
    ≡ some ended
ended_stays_example =
    ended_stays ℕ ℕ ℕ ℕ 120000000 "req_1" ended (ended ∷ []) _ refl refl
      (next here (serve directory ports 9000000 no_answer "trc_2" (request "ses_1")))

other_session_untouched_example :
    get_state "req_1"
      (execute_request 120000000 directory ports 9000000 no_answer "trc_2"
        (request "ses_2")
        alone
        (row ∷ [])).table
    ≡ some row
unfolding stored_le
other_session_untouched_example =
    other_session_untouched ℕ ℕ ℕ ℕ 120000000 directory ports 9000000 no_answer "trc_2" "req_1"
      (request "ses_2") row (row ∷ []) refl refl

execute_request-IsEarned_example :
    IsEarned
      (execute_request 120000000 directory ports 9000000 no_answer "trc_2"
        (request "ses_1")
        alone
        (row ∷ [])).deeds
      (execute_request 120000000 directory ports 9000000 no_answer "trc_2"
        (request "ses_1")
        alone
        (row ∷ [])).end
execute_request-IsEarned_example =
    execute_request-IsEarned 120000000 directory ports 9000000 no_answer "trc_2" (request "ses_1")
      alone (row ∷ [])

execute_request-IsStored_example :
    IsStored
      (request "ses_1")
      "req_1"
      needs_clarification
      (execute_request 120000000 directory ports 5000000 no_answer "trc_1"
        (request "ses_1")
        alone
        []).table
unfolding execute_request open_request expire_due carry_on work previous_state latest_for_session
    session_rows known_speaker identify_speaker with_speaker with_values context_identity decide
    on_check conclude persist respond
execute_request-IsStored_example =
    execute_request-IsStored 120000000 directory ports 5000000 no_answer "trc_1" "req_1"
      (request "ses_1") []
      (record {
        status = needs_clarification;
        session_id = some "ses_1";
        request_id = some "req_1";
        trace_id = "trc_1";
        text = some "Which lamp?";
        close_reason = none;
        error = none;
      })
      refl refl

overdue_is_refused_example :
    ((execute_request 120000000 directory ports 126000000 no_answer "trc_2"
        (request "ses_1")
        alone
        (row ∷ [])).end
      ≡ ok (expired_response (request "ses_1") "trc_2"))
    × ((execute_request 120000000 directory ports 126000000 no_answer "trc_2"
          (request "ses_1")
          alone
          (row ∷ [])).deeds
        ≡ [])
    × (get_state "req_1"
          (execute_request 120000000 directory ports 126000000 no_answer "trc_2"
            (request "ses_1")
            alone
            (row ∷ [])).table
        ≡ some (expired_row 126000000 row))
overdue_is_refused_example =
    overdue_is_refused 120000000 directory ports 126000000 125000000 no_answer "trc_2" "req_1"
      (request "ses_1") alone row (row ∷ []) refl refl refl refl refl (omega arith)
