-- ===== src/Identity/Trust.antt =====
-- A session's identity over its utterances.
use nyra.Base.{
  String, Bool, Option, none, some, List, [], ◌∷◌, ◌≡◌, refl, Result, ok, raise, arith, All,
  Option-cases, inl, inr,
}
use nyra.Identity.Answers.{identified, SpeakerIdentityResult, IsHonest}
use nyra.Identity.Resolution.{
  IdentityResolution, MissingUser, resolve_speaker_identity, detected_resolution,
  fallback_resolution,
}

-- One utterance: what Speaker-ID answered, if anything, and whether the wait timed out.
pub record Utterance (Score : Type 0) : Type 0 where
  pub answer : Option (SpeakerIdentityResult Score)
  pub timed_out : Bool

abbrev pub IsHonestAnswer : {Score : Type 0} → Utterance Score → Type 0
IsHonestAnswer u = elim u.answer [ none ↦ Unit | some r ↦ IsHonest r ]

-- The user that an utterance identifies.
abbrev pub identified_by : {Score : Type 0} → Option (SpeakerIdentityResult Score) → Option String
identified_by none = none
identified_by (some r) = elim r.outcome [ identified ↦ r.identified_user_id | _ ↦ none ]

abbrev pub or_else : Option String → Option String → Option String
or_else none other = other
or_else (some user) other = some user

-- The user that the utterances identified last, if they identified any, else the one trusted before them.
abbrev pub last_identified :
    {Score : Type 0} → Option String → List (Utterance Score) → Option String
last_identified trusted [] = trusted
last_identified trusted (u ∷ rest) = last_identified (or_else (identified_by u.answer) trusted) rest

abbrev pub user_or_guest : Option String → String
user_or_guest none = "guest"
user_or_guest (some user) = user

module _ {Score : Type 0} where
  -- One request after another, each starting from the trust that the last one left.
  pub resolve_all : Option String → List (Utterance Score) → Result MissingUser (Option String)
  resolve_all trusted [] = ok trusted
  resolve_all trusted (u ∷ rest) = elim (resolve_speaker_identity trusted u.answer u.timed_out) [
    | raise e ↦ raise e
    | ok r ↦ resolve_all r.last_trusted_user_id rest
  ]

-- One resolution of an honest answer raises nothing; the trusted user is the one identified now, or the
-- one trusted before; the current user is the trusted one, or guest where there is none; the
-- previous user is the one trusted before.
pub resolve_honest :
    {Score : Type 0} (trusted : Option String) (u : Utterance Score)
    → IsHonestAnswer u
    → (r : IdentityResolution) × (resolve_speaker_identity trusted u.answer u.timed_out ≡ ok r)
      × (r.last_trusted_user_id ≡ or_else (identified_by u.answer) trusted)
      × (r.current_user_id ≡ user_or_guest r.last_trusted_user_id)
      × (r.previous_user_id ≡ trusted)
unfolding resolve_speaker_identity
resolve_honest trusted u h = elim (Option-cases u.answer) [
  | inl e ↦ (
    fallback_resolution trusted u.timed_out,
    ground arith,
    ground arith,
    ground arith,
    ground arith,
  )
  | inr (a, e) ↦ elim (Option-cases (identified_by u.answer)) [
    | inl f ↦ (
      fallback_resolution trusted u.timed_out,
      ground arith,
      ground arith,
      ground arith,
      ground arith,
    )
    | inr (user, f) ↦
        (detected_resolution trusted user, ground arith, ground arith, ground arith, ground arith)
  ]
]

-- Over any utterances with honest answers no resolution raises, and the user that the session ends up
-- trusting is the one identified last, or the one trusted before where none was identified.
pub resolve_all-last :
    {Score : Type 0} (trusted : Option String) (utterances : List (Utterance Score))
    → All IsHonestAnswer utterances
    → resolve_all trusted utterances ≡ ok (last_identified trusted utterances)
unfolding resolve_all
resolve_all-last trusted [] h = refl
resolve_all-last trusted (u ∷ rest) h =
    let (r, resolved, kept, _, _) = resolve_honest trusted u h.0 in
    rw (resolved, resolve_all)
      (rw kept (resolve_all-last (or_else (identified_by u.answer) trusted) rest h.1))
