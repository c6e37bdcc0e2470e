-- ===== src/Enrollment/Progress.antt =====
-- What every session in the table satisfies, after any calls of the service.
use mathlib.Core.Path.{subst}
use nyra.Base.{
  ℕ, suc, ◌≤◌, ◌<◌, ◌≡◌, refl, inl, inr, String, true, false, Option, none, some, List, [], ◌∷◌,
  ◌++◌, ◌==◌, any, any-append, length, length-append, arith, eq_iff, ok, Result-cases, sym,
}
use nyra.Enrollment.Phrases.{length-deterministic_phrase_plan}
use nyra.Enrollment.Sessions.{completed, is_active, EnrollmentSession, accepted_count}
use nyra.Enrollment.Service.{
  Generator, StartRequest, Checked, Attempt, check_start, phrases_for, is_valid_plan, new_session,
  attempt_update, terminate_update, samples_after, attempted, text_or_empty,
}

-- No sample is listed twice.
abbrev pub IsDistinct : List String → Type 0
IsDistinct [] = Unit
IsDistinct (x ∷ xs) = (any (λ s. s == x) xs ≡ false) × IsDistinct xs

pub record IsValid (s : EnrollmentSession) : Type 0 where
  pub planned : length s.phrases ≡ s.target_count
  pub room : is_active s.status ≡ true → accepted_count s < s.target_count
  pub full : s.status ≡ completed → accepted_count s ≡ s.target_count
  pub distinct : IsDistinct s.accepted_sample_ids

append-IsDistinct :
    (xs : List String) (x : String)
    → IsDistinct xs
    → any (λ s. s == x) xs ≡ false
    → IsDistinct (xs ++ x ∷ [])
append-IsDistinct [] x h n = (refl, tt)
append-IsDistinct (y ∷ xs) x h n = ground (
  arith,
  eq_iff x y,
  eq_iff y x,
  any-append (λ s. s == y) xs (x ∷ []),
  append-IsDistinct xs x h.1,
)

-- The plan that `_phrases` hands back has the length that was asked for, whatever the generator does.
length-phrases_for :
    (g : Option Generator) (language : String) (n : ℕ) → length (phrases_for g language n) ≡ n
unfolding phrases_for is_valid_plan
length-phrases_for none language n = length-deterministic_phrase_plan language n
length-phrases_for (some g) language n = ground (arith, length-deterministic_phrase_plan language n)

pub new_session-IsValid :
    (g : Option Generator) (r : StartRequest) (c : Checked)
    → check_start r ≡ ok c
    → IsValid (new_session g r c)
unfolding check_start
new_session-IsValid g r c h = record {
  planned = length-phrases_for g c.language r.target_count;
  room = λ a. ground arith;
  full = λ e. cc;
  distinct = tt;
}

-- The samples after an attempt are distinct, and at most one more.
samples_after_lem :
    (a : Attempt) (xs ys : List String)
    → IsDistinct xs
    → samples_after a xs ≡ ok ys
    → IsDistinct ys × (length ys ≤ suc (length xs))
samples_after_lem a xs ys d h = ground (
  arith,
  append-IsDistinct xs (text_or_empty a.sample_id) d,
  length-append xs (text_or_empty a.sample_id ∷ []),
)

attempted-IsValid :
    (a : Attempt) (s : EnrollmentSession) (ys : List String)
    → IsValid s
    → is_active s.status ≡ true
    → samples_after a s.accepted_sample_ids ≡ ok ys
    → IsValid (attempted a s ys)
attempted-IsValid a s ys v act h =
    ground (arith, samples_after_lem a s.accepted_sample_ids ys v.distinct h, v.room act)

-- An attempt that is recorded was made on an active session.
pub attempt_update-eq :
    (a : Attempt) (s t : EnrollmentSession)
    → attempt_update a s ≡ ok t
    → (ys : List String) × (is_active s.status ≡ true)
      × (samples_after a s.accepted_sample_ids ≡ ok ys)
      × (t ≡ attempted a s ys)
unfolding attempt_update
attempt_update-eq a s t h = elim (Result-cases (samples_after a s.accepted_sample_ids)) [
  | inl (e, f) ↦ absurd (ground arith)
  | inr (ys, f) ↦ (ys, ground arith, f, ground arith)
]

pub attempt_update-IsValid :
    (a : Attempt) (s t : EnrollmentSession) → IsValid s → attempt_update a s ≡ ok t → IsValid t
attempt_update-IsValid a s t v h =
    let (ys, act, e, same) = attempt_update-eq a s t h in
    subst IsValid (sym same) (attempted-IsValid a s ys v act e)

pub terminate_update-IsValid :
    (reason : String) (s t : EnrollmentSession)
    → IsValid s
    → terminate_update reason s ≡ ok t
    → IsValid t
unfolding terminate_update
terminate_update-IsValid reason s t v h = ground arith
