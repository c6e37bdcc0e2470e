-- ===== src/Identity/Tests.antt =====
-- Answers and resolutions at concrete inputs, with scores left as numbers.
use nyra.Base.{ℕ, true, false, Option, none, some, [], ◌∷◌, ◌≡◌, refl, ok, raise}
use nyra.Json.{Json, text, number, Fields, end, field}
use nyra.Identity.Answers.{
  identified, SpeakerIdentityResult, invalid, parse_realtime, parse_outcome, validate_identity,
  optional_str, optional_float, IsHonest, parse_realtime-IsHonest,
}
use nyra.Identity.Trust.{Utterance, resolve_all, resolve_all-last}

abbrev to_score : Json → Option ℕ
to_score (number n) = some n
to_score _ = none

abbrev raw : Fields
raw =
    field "outcome" (text "IDENTIFIED")
      (field "identified_user_id" (text "ada") (field "best_score" (number 87) end))

abbrev ada : SpeakerIdentityResult ℕ
ada = record {
  outcome = identified;
  identified_user_id = some "ada";
  best_score = some 87;
  diagnostic_id = none;
  reason_code = none;
}

raw-parsed : parse_realtime to_score raw ≡ ok ada
unfolding parse_realtime parse_outcome validate_identity optional_str optional_float
raw-parsed = refl

guest_is_refused :
    parse_realtime to_score
      (field "outcome" (text "FAILED") (field "identified_user_id" (text "guest") end))
    ≡ raise invalid
unfolding parse_realtime parse_outcome validate_identity optional_str optional_float
guest_is_refused = refl

parse_realtime-IsHonest_example : IsHonest ada
parse_realtime-IsHonest_example = parse_realtime-IsHonest to_score raw ada raw-parsed

abbrev spoken : Utterance ℕ
spoken = record { answer = some ada; timed_out = false }

abbrev mumbled : Utterance ℕ
mumbled = record { answer = none; timed_out = true }

resolve_all-last_example : resolve_all none (mumbled ∷ spoken ∷ mumbled ∷ []) ≡ ok (some "ada")
resolve_all-last_example =
    resolve_all-last none (mumbled ∷ spoken ∷ mumbled ∷ []) (tt, (refl, (tt, tt)))
