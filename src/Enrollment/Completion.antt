-- ===== src/Enrollment/Completion.antt =====
-- A session from its first missing sample to its completion.
use nyra.Base.{
  suc, ◌+◌, ◌≡◌, refl, ap, ◌∙◌, String, Bool, true, false, none, some, List, [], ◌∷◌, ◌++◌, ◌==◌,
  any, count, count-append, length, length-append, nat_eq, arith, eq_self, ok, raise,
}
use nyra.Table.Laws.{find-update_by_key}
use nyra.Enrollment.Sessions.{
  id_of, active, completed, is_active, EnrollmentSession, conflict, accepted_count, SessionTable,
  find_session, written,
}
use nyra.Enrollment.Service.{Attempt, Event, check_attempt, record_attempt}
use nyra.Enrollment.Attempts.{
  accept, with_sample, acceptance, record_attempt_accepts, record_attempt_refuses,
}

-- The samples are accepted one after the other: the table that they leave, and all events.
pub accept_all : String → List String → SessionTable → SessionTable × List Event
accept_all k [] table = (table, [])
accept_all k (sample ∷ samples) table =
    let first = record_attempt k (accept sample) table in
    let (last, events) = accept_all k samples first.table in (last, first.events ++ events)

-- None of the samples is empty, has been accepted or comes twice.
abbrev pub AreNew : List String → List String → Type 0
AreNew seen [] = Unit
AreNew seen (sample ∷ samples) =
    ((sample == "") ≡ false)
    × (any (λ x. x == sample) seen ≡ false)
    × AreNew (seen ++ sample ∷ []) samples

abbrev pub announces_completion : Event → Bool
announces_completion e = e.name == "enrollment.completed"

append-assoc-one :
    (xs : List String) (y : String) (ys : List String) → (xs ++ y ∷ []) ++ ys ≡ xs ++ y ∷ ys
append-assoc-one [] y ys = refl
append-assoc-one (x ∷ xs) y ys = ap (λ zs. x ∷ zs) (append-assoc-one xs y ys)

find-accepted :
    (k sample : String) (table : SessionTable) (s : EnrollmentSession)
    → find_session k table ≡ some s
    → is_active s.status ≡ true
    → (sample == "") ≡ false
    → any (λ x. x == sample) s.accepted_sample_ids ≡ false
    → find_session k (record_attempt k (accept sample) table).table ≡ some (with_sample sample s)
find-accepted k sample table s found act given new =
    rw (record_attempt_accepts k sample table s found act given new) (
      rw (find-update_by_key id_of (written (with_sample sample s)) (λ r. refl) k k table)
        (ground (arith, eq_self k)))

abbrev enrolled_by : List String → EnrollmentSession → EnrollmentSession
enrolled_by samples s = record s {
  accepted_sample_ids = s.accepted_sample_ids ++ samples;
  status = completed;
  last_reason_code = none;
}

-- After the last sample the session has all of them and is COMPLETED, which was announced once, and it takes no attempt
-- of any kind any more.
pub record IsCompleted (k : String) (samples : List String) (s : EnrollmentSession)
    (outcome : SessionTable × List Event) : Type 0 where
  pub stored :
      find_session k outcome.0
      ≡ some (record s {
        accepted_sample_ids = s.accepted_sample_ids ++ samples;
        status = completed;
        last_reason_code = none;
      })
  pub announced : count announces_completion outcome.1 ≡ 1
  pub closed :
      (a : Attempt)
      → check_attempt a ≡ ok tt
      → record_attempt k a outcome.0
        ≡ record { outcome = raise conflict; table = outcome.0; events = [] }

events-accept :
    (k sample : String) (table : SessionTable) (s : EnrollmentSession)
    → find_session k table ≡ some s
    → is_active s.status ≡ true
    → (sample == "") ≡ false
    → any (λ x. x == sample) s.accepted_sample_ids ≡ false
    → (record_attempt k (accept sample) table).events ≡ acceptance sample s
events-accept k sample table s found act given new =
    ap (λ o. o.events) (record_attempt_accepts k sample table s found act given new)

last-IsCompleted :
    (k sample : String) (table : SessionTable) (s : EnrollmentSession)
    → find_session k table ≡ some s
    → is_active s.status ≡ true
    → AreNew s.accepted_sample_ids (sample ∷ [])
    → nat_eq (suc (accepted_count s)) s.target_count ≡ true
    → IsCompleted k (sample ∷ []) s (accept_all k (sample ∷ []) table)
unfolding accept_all
last-IsCompleted k sample table s found act (given, new, rest) full =
    let after = (record_attempt k (accept sample) table).table in
    let same : with_sample sample s ≡ enrolled_by (sample ∷ []) s = rw full refl in
    let stored : find_session k after ≡ some (enrolled_by (sample ∷ []) s) =
      find-accepted k sample table s found act given new ∙ ap some same in
    record {
      stored = stored;
      announced = rw (events-accept k sample table s found act given new) (rw full refl);
      closed = λ a valid.
          record_attempt_refuses k a after (enrolled_by (sample ∷ []) s) stored refl valid;
    }

abbrev one_more : String → EnrollmentSession → EnrollmentSession
one_more sample s = record s {
  accepted_sample_ids = s.accepted_sample_ids ++ sample ∷ [];
  status = active;
  last_reason_code = none;
}

-- New samples for an active session, as many as it still wants, are accepted one after the other. The last of them
-- completes the session and announces that, and none before it does; what was there stays, the samples come behind it in
-- their order, and every attempt that follows, if it is valid, is a conflict that writes and announces nothing.
pub accept_all-IsCompleted :
    (k sample : String) (samples : List String) (table : SessionTable) (s : EnrollmentSession)
    → find_session k table ≡ some s
    → is_active s.status ≡ true
    → AreNew s.accepted_sample_ids (sample ∷ samples)
    → accepted_count s + length (sample ∷ samples) ≡ s.target_count
    → IsCompleted k (sample ∷ samples) s (accept_all k (sample ∷ samples) table)
unfolding accept_all
accept_all-IsCompleted k sample [] table s found act fresh wanted =
    last-IsCompleted k sample table s found act fresh (ground arith)
accept_all-IsCompleted k sample (next ∷ samples) table s found act (given, new, rest) wanted =
    let after = (record_attempt k (accept sample) table).table in
    let missing : nat_eq (suc (accepted_count s)) s.target_count ≡ false = ground arith in
    let same : with_sample sample s ≡ one_more sample s = rw missing refl in
    let ih =
      accept_all-IsCompleted k next samples after (one_more sample s)
        (find-accepted k sample table s found act given new ∙ ap some same) refl rest
        (omega (arith, length-append s.accepted_sample_ids (sample ∷ []))) in
    let silent : count announces_completion (record_attempt k (accept sample) table).events ≡ 0 =
      rw (events-accept k sample table s found act given new) (rw missing refl) in
    record {
      stored =
          ih.stored
          ∙ ap
              (λ xs. some (record s {
                accepted_sample_ids = xs;
                status = completed;
                last_reason_code = none;
              }))
              (append-assoc-one s.accepted_sample_ids sample (next ∷ samples));
      announced =
          count-append announces_completion (record_attempt k (accept sample) table).events _
          ∙ rw (silent, ih.announced) refl;
      closed = ih.closed;
    }
