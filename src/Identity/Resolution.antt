-- ===== src/Identity/Resolution.antt =====
-- `resolve_speaker_identity`.
use nyra.Base.{String, Bool, false, Option, none, some, ◌==◌, if◌then◌else◌, Result, ok, raise}
use nyra.Identity.Answers.{SpeakerIdentityOutcome, SpeakerIdentityResult}

pub data IdentityOutcome : Type 0 where
  identified confirmed changed continuity guest : IdentityOutcome

-- shared/protocol/context.py
pub data IdentityResolutionSource : Type 0 where
  trusted_ha_identity speaker_identification session_continuity guest_fallback :
      IdentityResolutionSource

pub record IdentityResolution : Type 0 where
  pub current_user_id : String
  pub outcome : IdentityOutcome
  pub previous_user_id : Option String
  pub last_trusted_user_id : Option String
  pub resolution_source : IdentityResolutionSource
  pub timed_out : Bool

-- `ValueError`
pub data MissingUser : Type 0 where
  missing_user : MissingUser

abbrev pub outcome_for : Option String → String → IdentityOutcome
outcome_for none detected = IdentityOutcome.identified
outcome_for (some last) detected = if last == detected then confirmed else changed

abbrev pub detected_resolution : Option String → String → IdentityResolution
detected_resolution last detected = record {
  current_user_id = detected;
  outcome = outcome_for last detected;
  previous_user_id = last;
  last_trusted_user_id = some detected;
  resolution_source = speaker_identification;
  timed_out = false;
}

abbrev pub fallback_resolution : Option String → Bool → IdentityResolution
fallback_resolution (some last) timed_out = record {
  current_user_id = last;
  outcome = continuity;
  previous_user_id = some last;
  last_trusted_user_id = some last;
  resolution_source = session_continuity;
  timed_out = timed_out;
}
fallback_resolution none timed_out = record {
  current_user_id = "guest";
  outcome = guest;
  previous_user_id = none;
  last_trusted_user_id = none;
  resolution_source = guest_fallback;
  timed_out = timed_out;
}

abbrev with_detected : Option String → Option String → Result MissingUser IdentityResolution
with_detected last none = raise missing_user
with_detected last (some detected) = ok (detected_resolution last detected)

module _ {Score : Type 0} where
  unfoldable pub resolve_speaker_identity :
      Option String
      → Option (SpeakerIdentityResult Score)
      → Bool
      → Result MissingUser IdentityResolution
  resolve_speaker_identity last none timed_out = ok (fallback_resolution last timed_out)
  resolve_speaker_identity last (some result) timed_out = elim result.outcome [
    | SpeakerIdentityOutcome.identified ↦ with_detected last result.identified_user_id
    | _ ↦ ok (fallback_resolution last timed_out)
  ]
