-- ===== src/Enrollment/Attempts.antt =====
-- One attempt and one end, on every branch.
use nyra.Base.{
  suc, ◌≡◌, String, true, false, none, some, List, [], ◌∷◌, ◌++◌, ◌==◌, if◌then◌else◌, nat_eq, any,
  length-append, arith, ok, raise,
}
use nyra.Table.{update}
use nyra.Enrollment.Sessions.{
  active, completed, is_active, EnrollmentSession, conflict, accepted_count, SessionTable,
  find_session, mutate, written,
}
use nyra.Enrollment.Service.{Attempt, Event, check_attempt, attempt_update, record_attempt}

-- The attempt by which a sample is accepted.
abbrev pub accept : String → Attempt
accept sample = record { status = "ACCEPTED"; sample_id = some sample; reason_code = none }

-- The session with one more sample, which is COMPLETED when the sample is the last that was wanted.
abbrev pub with_sample : String → EnrollmentSession → EnrollmentSession
with_sample sample s = record s {
  accepted_sample_ids = s.accepted_sample_ids ++ sample ∷ [];
  status = if nat_eq (suc (accepted_count s)) s.target_count then completed else active;
  last_reason_code = none;
}

abbrev pub event : String → EnrollmentSession → String → Event
event name session result = record { name = name; session = session; result = result }

-- The events of an accepted sample.
abbrev pub acceptance : String → EnrollmentSession → List Event
acceptance sample s =
    event "enrollment.sample.accepted" (with_sample sample s) "ACCEPTED"
    ∷ (if nat_eq (suc (accepted_count s)) s.target_count
        then event "enrollment.completed" (with_sample sample s) "COMPLETED" ∷ []
        else [])

attempt_update-accept :
    (s : EnrollmentSession) (sample : String)
    → is_active s.status ≡ true
    → any (λ x. x == sample) s.accepted_sample_ids ≡ false
    → attempt_update (accept sample) s ≡ ok (with_sample sample s)
unfolding attempt_update
attempt_update-accept s sample act new =
    ground (arith, length-append s.accepted_sample_ids (sample ∷ []))

check_attempt-accept :
    (sample : String) → (sample == "") ≡ false → check_attempt (accept sample) ≡ ok tt
unfolding check_attempt
check_attempt-accept sample h = ground arith

-- A new sample that is accepted for an active session is appended, the row is written, and the session is
-- announced as completed exactly when it was the last one wanted.
pub record_attempt_accepts :
    (k sample : String) (table : SessionTable) (s : EnrollmentSession)
    → find_session k table ≡ some s
    → is_active s.status ≡ true
    → (sample == "") ≡ false
    → any (λ x. x == sample) s.accepted_sample_ids ≡ false
    → record_attempt k (accept sample) table ≡ record {
      outcome = ok (with_sample sample s);
      table = update (λ row. row.session_id == k) (written (with_sample sample s)) table;
      events = acceptance sample s;
    }
unfolding record_attempt mutate
record_attempt_accepts k sample table s found act given new =
    ground (arith, check_attempt-accept sample, attempt_update-accept s sample)

-- A session that is completed or terminated takes no valid attempt of any kind: it is a conflict, nothing
-- is written and nothing announced.
pub record_attempt_refuses :
    (k : String) (a : Attempt) (table : SessionTable) (s : EnrollmentSession)
    → find_session k table ≡ some s
    → is_active s.status ≡ false
    → check_attempt a ≡ ok tt
    → record_attempt k a table ≡ record { outcome = raise conflict; table = table; events = [] }
unfolding record_attempt mutate attempt_update
record_attempt_refuses k a table s found idle valid = ground arith
