-- ===== src/Audio/Bounds.antt =====
-- What bounds the registry, over any sequence of its steps.
use nyra.Base.{
  ℕ, ◌≤◌, ◌≡◌, refl, inl, inr, String, Bool, false, List, [], ◌∷◌, ◌==◌, any, any-append, length,
  All, arith, eq_iff, Bool-cases,
}
use nyra.Audio.Registry.{
  ActiveStream, Limits, Registry, stream_id, has_id, find_active, without, remember, evict, is_same,
  finish,
}

-- No identifier is open twice.
abbrev pub HasUniqueIds : List ActiveStream → Type 0
HasUniqueIds [] = Unit
HasUniqueIds (s ∷ rest) = (any (has_id (stream_id s)) rest ≡ false) × HasUniqueIds rest

abbrev pub IsSmall : Limits → ActiveStream → Type 0
IsSmall limits s = s.byte_count ≤ limits.max_stream_bytes

abbrev pub IsOpen : List String → ActiveStream → Type 0
IsOpen closed s = any (λ c. c == stream_id s) closed ≡ false

-- Streams, bytes and closed identifiers are within their limits, and no identifier is open twice or both open
-- and closed.
pub record IsBounded (limits : Limits) (r : Registry) : Type 0 where
  pub streams : length r.active ≤ limits.max_active_streams
  pub remembered : length r.closed ≤ limits.closed_capacity
  pub bytes : All (IsSmall limits) r.active
  pub unique : HasUniqueIds r.active
  pub apart : All (IsOpen r.closed) r.active

pub length-evict-le : (c : ℕ) (ks : List String) → length (evict c ks) ≤ c
length-evict-le c [] = omega arith
length-evict-le c (k ∷ ks) = ground (arith, length-evict-le c ks)

any-evict :
    (p : String → Bool) (c : ℕ) (ks : List String) → any p ks ≡ false → any p (evict c ks) ≡ false
any-evict p c [] h = refl
any-evict p c (k ∷ ks) h = ground (arith, any-evict p c ks)

any-remember :
    (k j : String) (closed : List String)
    → (k == j) ≡ false
    → any (λ c. c == j) closed ≡ false
    → any (λ c. c == j) (remember k closed) ≡ false
any-remember k j closed ne h = ground (arith, any-append (λ c. c == j) closed (k ∷ []))

pub length-without-le :
    (k : String) (active : List ActiveStream) → length (without k active) ≤ length active
length-without-le k [] = omega arith
length-without-le k (s ∷ active) = ground (arith, length-without-le k active)

pub any-without :
    (p : ActiveStream → Bool) (k : String) (active : List ActiveStream)
    → any p active ≡ false
    → any p (without k active) ≡ false
any-without p k [] h = refl
any-without p k (s ∷ active) h = ground (arith, any-without p k active)

without-HasUniqueIds :
    (k : String) (active : List ActiveStream)
    → HasUniqueIds active
    → HasUniqueIds (without k active)
without-HasUniqueIds k [] h = tt
without-HasUniqueIds k (s ∷ active) h =
    ground (arith, any-without (has_id (stream_id s)) k active, without-HasUniqueIds k active h.1)

without-All-IsSmall :
    (limits : Limits) (k : String) (active : List ActiveStream)
    → All (IsSmall limits) active
    → All (IsSmall limits) (without k active)
without-All-IsSmall limits k [] h = tt
without-All-IsSmall limits k (s ∷ active) h =
    ground (arith, without-All-IsSmall limits k active h.1)

-- What stays open after an identifier is closed is apart from it.
without-All-IsOpen :
    (c : ℕ) (k : String) (closed : List String) (active : List ActiveStream)
    → All (IsOpen closed) active
    → All (IsOpen (evict c (remember k closed))) (without k active)
without-All-IsOpen c k closed [] h = tt
without-All-IsOpen c k closed (s ∷ active) h = elim (Bool-cases (stream_id s == k)) [
  | inl e ↦ rw e (without-All-IsOpen c k closed active h.1)
  | inr e ↦ rw e (
    any-evict (λ x. x == stream_id s) c (remember k closed)
        (any-remember k (stream_id s) closed
          (ground (arith, eq_iff k (stream_id s), eq_iff (stream_id s) k)) h.0),
    without-All-IsOpen c k closed active h.1,
  )
]

pub finish-IsBounded :
    (limits : Limits) (s : ActiveStream) (r : Registry)
    → IsBounded limits r
    → IsBounded limits (finish limits s r)
unfolding finish
finish-IsBounded limits s r h = elim (Bool-cases (is_same s (find_active (stream_id s) r.active))) [
  | inr e ↦ rw e h
  | inl e ↦ rw e (record {
    streams = omega (arith, length-without-le (stream_id s) r.active, h.streams);
    remembered = length-evict-le limits.closed_capacity (remember (stream_id s) r.closed);
    bytes = without-All-IsSmall limits (stream_id s) r.active h.bytes;
    unique = without-HasUniqueIds (stream_id s) r.active h.unique;
    apart = without-All-IsOpen limits.closed_capacity (stream_id s) r.closed r.active h.apart;
  })
]
