-- ===== src/Lifecycle/Identify.antt =====
-- Who speaks, in `_execute`: the identity that a request brings or continues, and for a speaker the resolution of
-- what Speaker-ID answered in time (router/lifecycle/identity.py, modelled in Identity).
use nyra.Base.{String, Bool, true, false, Option, none, some, ◌==◌, if◌then◌else◌, ok, raise}
use nyra.Identity.Answers.{SpeakerIdentityOutcome, SpeakerIdentityResult}
use nyra.Identity.Resolution.{
  IdentityOutcome, confirmed, changed, continuity, guest, IdentityResolution,
  IdentityResolutionSource, trusted_ha_identity, speaker_identification, guest_fallback,
  resolve_speaker_identity,
}
use nyra.Lifecycle.{
  ha_speaker, job, NyraRequest, PersistedRequestState, missing_user, identifying, processing_local,
  state, feedback, IdentityFeedback, recognized, not_recognized, identity_changed,
}
use nyra.Lifecycle.Trace.{Traced, pure, throw, emit, ◌>>◌}

-- What the identification task ends with: nothing before the timeout, an exception, a result, a text, anything else
pub data RawIdentity (Score : Type 0) : Type 0 where
  late failed_task other_value : RawIdentity Score
  answered : SpeakerIdentityResult Score → RawIdentity Score
  user_text : String → RawIdentity Score

pub record Speaker : Type 0 where
  pub user_id : Option String
  pub last_trusted_user_id : Option String
  pub source : Option IdentityResolutionSource

abbrev pub request_user : NyraRequest → Option String
request_user r = elim r.identity [ none ↦ none | some identity ↦ some identity.user_id ]

abbrev pub trusted_of : Option PersistedRequestState → Option String
trusted_of none = none
trusted_of (some s) = s.last_trusted_user_id

-- `last_trusted_user_id`, `identity_user_id` and `identity_source` before an identification
unfoldable pub known_speaker :
    NyraRequest → Option PersistedRequestState → Option PersistedRequestState → Speaker
known_speaker r existing previous = elim r.identity [
  | some identity ↦ record {
    user_id = some identity.user_id;
    last_trusted_user_id = some identity.user_id;
    source = some trusted_ha_identity;
  }
  | none ↦ elim existing [
    | some s ↦ record {
      user_id = s.identity_user_id;
      last_trusted_user_id = s.last_trusted_user_id;
      source = none;
    }
    | none ↦ record {
      user_id = trusted_of previous;
      last_trusted_user_id = trusted_of previous;
      source = none;
    }
  ]
]

abbrev pub feedback_of : IdentityOutcome → IdentityFeedback
feedback_of IdentityOutcome.identified = recognized
feedback_of confirmed = recognized
feedback_of changed = identity_changed
feedback_of continuity = not_recognized
feedback_of guest = not_recognized

abbrev pub resolved_speaker : IdentityResolution → Speaker
resolved_speaker resolution = record {
  user_id = some resolution.current_user_id;
  last_trusted_user_id = resolution.last_trusted_user_id;
  source = some resolution.resolution_source;
}

module _ {Score : Type 0} where
  abbrev unscored :
      SpeakerIdentityOutcome → Option String → Option String → SpeakerIdentityResult Score
  unscored outcome user reason = record {
    outcome = outcome;
    identified_user_id = user;
    best_score = none;
    diagnostic_id = none;
    reason_code = reason;
  }

  -- `identity_result`
  abbrev pub identity_result : RawIdentity Score → Option (SpeakerIdentityResult Score)
  identity_result late = none
  identity_result other_value = none
  identity_result failed_task =
      some (unscored SpeakerIdentityOutcome.failed none (some "SERVICE_UNAVAILABLE"))
  identity_result (answered result) = some result
  identity_result (user_text user) =
      some (unscored SpeakerIdentityOutcome.identified (some user) none)

  abbrev pub timed_out : RawIdentity Score → Bool
  timed_out late = true
  timed_out _ = false

  abbrev pub resolve_answer : Option String → RawIdentity Score → Traced Speaker
  resolve_answer last raw =
      elim (resolve_speaker_identity last (identity_result raw) (timed_out raw)) [
        | raise e ↦ throw missing_user
        | ok resolution ↦
            emit (feedback (feedback_of resolution.outcome))
            >> (emit (state processing_local) >> pure (resolved_speaker resolution))
      ]

  -- The branch `request.type is ExecutionType.HA_SPEAKER`
  unfoldable pub identify_speaker : RawIdentity Score → NyraRequest → Speaker → Traced Speaker
  identify_speaker raw r known = elim r.type_of [
    | ha_speaker ↦ emit (state identifying) >> resolve_answer known.last_trusted_user_id raw
    | _ ↦ pure known
  ]

pub record ResolvedIdentity : Type 0 where
  pub user_id : String
  pub resolution_source : IdentityResolutionSource
  pub display_name : Option String

abbrev is_guest : Option String → Bool
is_guest none = true
is_guest (some user) = user == "guest"

abbrev or_guest : Option String → String
or_guest none = "guest"
or_guest (some user) = if user == "" then "guest" else user

-- `_identity_display_name`; `directory` is the user directory's answer for a user, `none` also where it raises
unfoldable pub identity_display_name :
    (String → Option String) → NyraRequest → Option String → Option String
identity_display_name directory r none = none
identity_display_name directory r (some user) = if user == "guest" then none else elim r.identity [
  | none ↦ directory user
  | some identity ↦ elim identity.display_name [
    | none ↦ directory user
    | some name ↦ if identity.user_id == user then some name else directory user
  ]
]

-- The default of `identity_source` in `_build_request_context`
abbrev pub source_or_default :
    NyraRequest → Option String → Option IdentityResolutionSource → IdentityResolutionSource
source_or_default r user (some source) = source
source_or_default r user none = elim r.identity [
  | some identity ↦ trusted_ha_identity
  | none ↦ elim r.type_of [
    | ha_speaker ↦ if is_guest user then guest_fallback else speaker_identification
    | _ ↦ guest_fallback
  ]
]

-- The identity of `_build_request_context`: none for a job
unfoldable pub context_identity :
    (String → Option String) → NyraRequest → Speaker → Option ResolvedIdentity
unfolding identity_display_name
context_identity directory r speaker = elim r.type_of [
  | job ↦ none
  | _ ↦ some (record {
    user_id = or_guest speaker.user_id;
    resolution_source = source_or_default r speaker.user_id speaker.source;
    display_name = identity_display_name directory r speaker.user_id;
  })
]
