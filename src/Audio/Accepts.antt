-- ===== src/Audio/Accepts.antt =====
-- What the START parser accepts, and that a finished stream cannot be reopened.
use mathlib.Core.Path.{subst}
use nyra.Base.{
  ℕ, ◌≤◌, ◌<◌, ◌≡◌, refl, ◌⊎◌, inl, inr, String, true, false, not, Option, some, List, [], ◌∷◌,
  ◌++◌, ◌==◌, any, any-append, All, arith, eq_self, ok, raise, >>=-eq-ok, ok-injective, Bool-cases,
  raise_if, ◌>>◌, is_some,
}
use nyra.Json.{Fields}
use nyra.Audio.Metadata.{
  identification, enrollment, wake_word_capture, AudioStreamStart, closed_stream, invalid_start,
  Format, Identity, is_text, is_correlated, format_from, identity_from, optional_text, from_mapping,
}
use nyra.Audio.Registry.{
  ActiveStream, Limits, Registry, stream_id, has_id, find_active, without, evict, finish, start,
  is_active,
}
use nyra.Audio.Bounds.{IsBounded, IsOpen}

-- The shape of the audio that the services can process.
pub record IsSupported (m : AudioStreamStart) : Type 0 where
  pub rate_low : 8000 ≤ m.sample_rate
  pub rate_high : m.sample_rate ≤ 96000
  pub mono_or_stereo : (m.channels ≡ 1) ⊎ (m.channels ≡ 2)
  pub named : is_text m.audio_stream_id ≡ true
  pub correlated : is_correlated m ≡ true
  pub for_identification : m.purpose ≡ identification → is_some m.request_id ≡ true
  pub for_enrollment :
      m.purpose ≡ enrollment → (is_some m.enrollment_session_id ≡ true) × (is_some m.user_id ≡ true)
  pub for_wake_word :
      m.purpose ≡ wake_word_capture
      → (is_some m.wake_word_session_id ≡ true)
        × (is_some m.user_id ≡ true)
        × (is_some m.wake_word_text ≡ true)
        × (is_some m.language ≡ true)

abbrev IsSupportedFormat : Format → Type 0
IsSupportedFormat f =
    (8000 ≤ f.sample_rate) × (f.sample_rate ≤ 96000) × ((f.channels ≡ 1) ⊎ (f.channels ≡ 2))

format_from-IsSupportedFormat :
    (value : Fields) (f : Format) → format_from value ≡ ok f → IsSupportedFormat f
unfolding format_from
format_from-IsSupportedFormat value f h = ground arith

identity_from-is_text :
    (value : Fields) (i : Identity) → identity_from value ≡ ok i → is_text i.audio_stream_id ≡ true
unfolding identity_from
identity_from-is_text value i h = ground arith

-- The last test of the parser.
finish_parse :
    (start m : AudioStreamStart)
    → (raise_if (not (is_correlated start)) invalid_start >> ok start) ≡ ok m
    → is_text start.audio_stream_id ≡ true
    → (8000 ≤ start.sample_rate)
      × (start.sample_rate ≤ 96000)
      × ((start.channels ≡ 1) ⊎ (start.channels ≡ 2))
    → IsSupported m
unfolding is_correlated
finish_parse start m h named format = elim (Bool-cases (is_correlated start)) [
  | inl e ↦
      let same : start ≡ m = ok-injective start m (rw e at h) in
      subst IsSupported same (record {
        rate_low = format.0;
        rate_high = format.1;
        mono_or_stereo = format.2;
        named = named;
        correlated = e;
        for_identification = λ p. ground arith;
        for_enrollment = λ p. ground arith;
        for_wake_word = λ p. ground arith;
      })
  | inr e ↦ absurd (ground arith)
]

-- Every START that is accepted is for audio at 8000 to 96000 Hz with one or two channels, has a stream
-- identifier that is not blank or too long, and carries the identifiers that its purpose needs: a request for an
-- identification, a session and a user for an enrollment, and for the capture of a wake word also its text and language.
pub from_mapping-IsSupported :
    (value : Fields) (m : AudioStreamStart) → from_mapping value ≡ ok m → IsSupported m
unfolding from_mapping
from_mapping-IsSupported value m h =
    let (identity, named, h₀) = >>=-eq-ok (identity_from value) _ h in
    let (_, _, h₁) = >>=-eq-ok (optional_text "session_id" value) _ h₀ in
    let (_, _, h₂) = >>=-eq-ok (optional_text "request_id" value) _ h₁ in
    let (_, _, h₃) = >>=-eq-ok (optional_text "source_id" value) _ h₂ in
    let (_, _, h₄) = >>=-eq-ok (optional_text "parent_span_id" value) _ h₃ in
    let (_, _, h₅) = >>=-eq-ok (optional_text "language" value) _ h₄ in
    let (_, _, h₆) = >>=-eq-ok (optional_text "enrollment_session_id" value) _ h₅ in
    let (_, _, h₇) = >>=-eq-ok (optional_text "wake_word_session_id" value) _ h₆ in
    let (_, _, h₈) = >>=-eq-ok (optional_text "user_id" value) _ h₇ in
    let (_, _, h₉) = >>=-eq-ok (optional_text "wake_word_text" value) _ h₈ in
    let (format, formed, last) = >>=-eq-ok (format_from value) _ h₉ in
    finish_parse _ m last (identity_from-is_text value identity named)
      (format_from-IsSupportedFormat value format formed)

any-evict_last :
    (k : String) (c : ℕ) (ks : List String)
    → 0 < c
    → any (λ x. x == k) (evict c (ks ++ k ∷ [])) ≡ true
any-evict_last k c [] h = ground (arith, eq_self k)
any-evict_last k c (x ∷ ks) h =
    ground (arith, eq_self k, any-append (λ x. x == k) ks (k ∷ []), any-evict_last k c ks h)

any-without_self :
    (k : String) (active : List ActiveStream) → any (has_id k) (without k active) ≡ false
any-without_self k [] = refl
any-without_self k (s ∷ active) = ground (arith, any-without_self k active)

find-IsOpen :
    (k : String) (closed : List String) (active : List ActiveStream) (s : ActiveStream)
    → All (IsOpen closed) active
    → find_active k active ≡ some s
    → any (λ c. c == stream_id s) closed ≡ false
find-IsOpen k closed [] s h e = ground arith
find-IsOpen k closed (x ∷ active) s h e = ground (arith, find-IsOpen k closed active s h.1)

-- In a registry within its limits that remembers at least one closed stream, a stream that is finished while it
-- is open is no longer open, and a START that names it again is refused as closed.
pub finish_refuses :
    (limits : Limits) (s : ActiveStream) (r : Registry) (m : AudioStreamStart) (c : Option String)
    → IsBounded limits r
    → 0 < limits.closed_capacity
    → find_active (stream_id s) r.active ≡ some s
    → m.audio_stream_id ≡ stream_id s
    → (is_active (stream_id s) (finish limits s r) ≡ false)
      × (start limits m c (finish limits s r) ≡ (raise closed_stream, finish limits s r))
unfolding finish start
finish_refuses limits s r m c h room e same = ground (
  arith,
  any-without_self (stream_id s) r.active,
  any-evict_last (stream_id s) limits.closed_capacity r.closed room,
  find-IsOpen (stream_id s) r.closed r.active s h.apart e,
)
