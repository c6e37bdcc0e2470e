-- ===== src/Enrollment/Tests.antt =====
-- Runs of the enrollment service, and the theorems at concrete inputs.
use nyra.Base.{
  ◌≡◌, refl, true, Option, none, some, List, [], ◌∷◌, ok, strip, is_blank, text_length, get_elem?,
  is_some, arith,
}
use nyra.Enrollment.Phrases.{
  EnrollmentPhrase, short, deterministic_phrase_plan, deterministic_phrase_plan-eq,
}
use nyra.Enrollment.Sessions.{
  active, EnrollmentSession, SessionTable, find_session, create, mutate, get_active_for_source,
  current_phrase,
}
use nyra.Enrollment.Service.{
  StartRequest, check_start, phrases_for, required, start, check_attempt, attempt_update,
  record_attempt,
}
use nyra.Enrollment.Sources.{
  Call, start_call, attempt_call, serve_all, IsSound, IsSound-nil, serve_all-IsSound,
  current_phrase_found,
}
use nyra.Enrollment.Attempts.{accept, with_sample}
use nyra.Enrollment.Completion.{accept_all, IsCompleted, accept_all-IsCompleted}

abbrev ask : StartRequest
ask = record {
  profile_user_id = " ada ";
  source_id = "kitchen";
  language = "IT-it";
  target_count = 2;
  fresh = "1f";
}

abbrev ada : EnrollmentSession
ada = record {
  session_id = "enr_1f";
  profile_user_id = "ada";
  source_id = "kitchen";
  language = "IT-it";
  target_count = 2;
  accepted_sample_ids = [];
  phrases = phrases_for none "IT-it" 2;
  status = active;
  termination_reason = none;
  last_reason_code = none;
}

start-ask : (start none ask []).outcome ≡ ok ada
unfolding start check_start required strip is_blank text_length get_active_for_source create
start-ask = refl

deterministic_phrase_plan-eq_example :
    get_elem? (deterministic_phrase_plan "it" 5) 3
    ≡ some (record { text = "Oggi resto a casa."; language = "it"; length_class = short })
unfolding deterministic_phrase_plan
deterministic_phrase_plan-eq_example = deterministic_phrase_plan-eq "it" 5 3 (omega arith)

abbrev calls : List Call
calls = start_call none ask ∷ attempt_call "enr_1f" (accept "s1") ∷ []

abbrev halfway : SessionTable
halfway = with_sample "s1" ada ∷ []

serve_all-calls : serve_all [] calls ≡ halfway
unfolding serve_all start check_start required strip is_blank text_length get_active_for_source
    create record_attempt check_attempt mutate attempt_update
serve_all-calls = refl

serve_all-IsSound_example : IsSound (serve_all [] calls)
serve_all-IsSound_example = serve_all-IsSound [] calls IsSound-nil

find-halfway : find_session "enr_1f" (serve_all [] calls) ≡ some (with_sample "s1" ada)
unfolding serve_all start check_start required strip is_blank text_length get_active_for_source
    create record_attempt check_attempt mutate attempt_update
find-halfway = refl

current_phrase_found_example :
    (phrase : Option EnrollmentPhrase) × (current_phrase (with_sample "s1" ada) ≡ ok phrase)
    × (is_some phrase ≡ true)
current_phrase_found_example =
    current_phrase_found calls "enr_1f" (with_sample "s1" ada) find-halfway

accept_all-IsCompleted_example :
    IsCompleted "enr_1f"
      ("s2" ∷ [])
      (with_sample "s1" ada)
      (accept_all "enr_1f" ("s2" ∷ []) halfway)
accept_all-IsCompleted_example =
    accept_all-IsCompleted "enr_1f" "s2" [] halfway (with_sample "s1" ada) refl refl
      (refl, refl, tt) refl
