-- ===== src/Audio/Steps.antt =====
-- The steps of the registry, between one `await` and the next, in any order.
use nyra.Base.{
  ℕ, ◌+◌, ◌≤◌, ◌≡◌, refl, inl, inr, String, Bool, false, Option, some, List, [], ◌∷◌, ◌++◌, leb,
  any, any-append, length, length-append, All, arith, eq_iff, ok, Bool-cases, Result-cases,
}
use nyra.Audio.Metadata.{AudioStreamStart}
use nyra.Audio.Registry.{
  ActiveStream, Limits, Registry, stream_id, has_id, is_active, is_closed, find_active, is_same,
  finish, require_active, fresh, start, add_to, is_too_large, chunk, call, abort_all, disconnect,
  close,
}
use nyra.Audio.Bounds.{HasUniqueIds, IsSmall, IsOpen, IsBounded, finish-IsBounded}

append-bytes :
    (limits : Limits) (active : List ActiveStream) (s : ActiveStream)
    → All (IsSmall limits) active
    → IsSmall limits s
    → All (IsSmall limits) (active ++ s ∷ [])
append-bytes limits [] s h v = (v, tt)
append-bytes limits (x ∷ active) s h v = (h.0, append-bytes limits active s h.1 v)

append-apart :
    (closed : List String) (active : List ActiveStream) (s : ActiveStream)
    → All (IsOpen closed) active
    → IsOpen closed s
    → All (IsOpen closed) (active ++ s ∷ [])
append-apart closed [] s h v = (v, tt)
append-apart closed (x ∷ active) s h v = (h.0, append-apart closed active s h.1 v)

append-HasUniqueIds :
    (active : List ActiveStream) (s : ActiveStream)
    → HasUniqueIds active
    → any (has_id (stream_id s)) active ≡ false
    → HasUniqueIds (active ++ s ∷ [])
append-HasUniqueIds [] s h n = (refl, tt)
append-HasUniqueIds (x ∷ active) s h n = ground (
  arith,
  eq_iff (stream_id x) (stream_id s),
  eq_iff (stream_id s) (stream_id x),
  any-append (has_id (stream_id x)) active (s ∷ []),
  append-HasUniqueIds active s h.1,
)

start-IsBounded :
    (limits : Limits) (m : AudioStreamStart) (c : Option String) (r : Registry)
    → IsBounded limits r
    → IsBounded limits (start limits m c r).1
unfolding start
start-IsBounded limits m c r h = elim (Bool-cases (is_active m.audio_stream_id r)) [
  | inl e ↦ rw e h
  | inr e ↦ elim (Bool-cases (is_closed m.audio_stream_id r)) [
    | inl f ↦ rw (e, f) h
    | inr f ↦ elim (Bool-cases (leb limits.max_active_streams (length r.active))) [
      | inl g ↦ rw (e, f, g) h
      | inr g ↦
          rw (e, f, g)
            (record {
              streams = ground (arith, length-append r.active (fresh m c r.next_tag ∷ []));
              remembered = h.remembered;
              bytes = append-bytes limits r.active (fresh m c r.next_tag) h.bytes (omega arith);
              unique = append-HasUniqueIds r.active (fresh m c r.next_tag) h.unique e;
              apart = append-apart r.closed r.active (fresh m c r.next_tag) h.apart f;
            })
    ]
  ]
]

length-add_to :
    (k : String) (n : ℕ) (active : List ActiveStream) → length (add_to k n active) ≡ length active
length-add_to k n [] = refl
length-add_to k n (s ∷ active) = ground (arith, length-add_to k n active)

any-add_to :
    (j k : String) (n : ℕ) (active : List ActiveStream)
    → any (has_id j) (add_to k n active) ≡ any (has_id j) active
any-add_to j k n [] = refl
any-add_to j k n (s ∷ active) = ground (arith, any-add_to j k n active)

add_to-HasUniqueIds :
    (k : String) (n : ℕ) (active : List ActiveStream)
    → HasUniqueIds active
    → HasUniqueIds (add_to k n active)
add_to-HasUniqueIds k n [] h = tt
add_to-HasUniqueIds k n (s ∷ active) h =
    ground (arith, any-add_to (stream_id s) k n active, add_to-HasUniqueIds k n active h.1)

add_to-apart :
    (closed : List String) (k : String) (n : ℕ) (active : List ActiveStream)
    → All (IsOpen closed) active
    → All (IsOpen closed) (add_to k n active)
add_to-apart closed k n [] h = tt
add_to-apart closed k n (s ∷ active) h = ground (arith, add_to-apart closed k n active h.1)

-- Bytes that fit the stream that is found fit the table.
add_to-bytes :
    (limits : Limits) (k : String) (n : ℕ) (active : List ActiveStream) (s : ActiveStream)
    → All (IsSmall limits) active
    → find_active k active ≡ some s
    → s.byte_count + n ≤ limits.max_stream_bytes
    → All (IsSmall limits) (add_to k n active)
add_to-bytes limits k n [] s h e fits = tt
add_to-bytes limits k n (x ∷ active) s h e fits =
    ground (arith, add_to-bytes limits k n active s h.1)

find_of_require :
    (k : String) (r : Registry) (s : ActiveStream)
    → require_active k r ≡ ok s
    → find_active k r.active ≡ some s
unfolding require_active
find_of_require k r s e = ground arith

chunk-IsBounded :
    (limits : Limits) (k : String) (size : ℕ) (r : Registry)
    → IsBounded limits r
    → IsBounded limits (chunk limits k size r).1
unfolding chunk
chunk-IsBounded limits k size r h = elim (Result-cases (require_active k r)) [
  | inl (e, f) ↦ rw (f, chunk) h
  | inr (s, f) ↦ elim (Bool-cases (is_too_large limits size s)) [
    | inl g ↦ rw (f, chunk) (rw g (finish-IsBounded limits s r h))
    | inr g ↦
        rw (f, chunk)
          (rw g (record {
            streams = rw length-add_to h.streams;
            remembered = h.remembered;
            bytes =
                add_to-bytes limits k size r.active s h.bytes (find_of_require k r s f)
                  (ground arith);
            unique = add_to-HasUniqueIds k size r.active h.unique;
            apart = add_to-apart r.closed k size r.active h.apart;
          }))
  ]
]

call-IsBounded :
    (limits : Limits) (s : ActiveStream) (returned : Bool) (r : Registry)
    → IsBounded limits r
    → IsBounded limits (call limits s returned r).1
unfolding call
call-IsBounded limits s returned r h =
    elim (Bool-cases (is_same s (find_active (stream_id s) r.active))) [
      | inl e ↦ elim (Bool-cases returned) [
        | inl f ↦ rw (e, f) h
        | inr f ↦ rw (e, f) (finish-IsBounded limits s r h)
      ]
      | inr e ↦ rw e (finish-IsBounded limits s r h)
    ]

abort_all-IsBounded :
    (limits : Limits) (streams : List ActiveStream) (r : Registry)
    → IsBounded limits r
    → IsBounded limits (abort_all limits streams r)
unfolding abort_all
abort_all-IsBounded limits [] r h = h
abort_all-IsBounded limits (s ∷ rest) r h =
    abort_all-IsBounded limits rest (finish limits s r) (finish-IsBounded limits s r h)

-- One run of the event loop: the first half of an operation, a call of the sink for a stream that was opened
-- at some time, the finishing of such a stream (the end of `end`, an abort, the timer of `_expire`), the loss
-- of a connection, a shutdown. A handle may be stale: the stream may have been closed, or opened anew.
pub data Step (limits : Limits) (r : Registry) : Registry → Type 0 where
  open_stream : (m : AudioStreamStart) (c : Option String) → Step limits r (start limits m c r).1
  append : (k : String) (size : ℕ) → Step limits r (chunk limits k size r).1
  call_sink : (s : ActiveStream) (returned : Bool) → Step limits r (call limits s returned r).1
  finish_stream : (s : ActiveStream) → Step limits r (finish limits s r)
  lose_connection : (c : String) → Step limits r (disconnect limits c r)
  shut_down : Step limits r (close limits r)

pub data Reach (limits : Limits) (r : Registry) : Registry → Type 0 where
  here : Reach limits r r
  next : {t u : Registry} → Reach limits r t → Step limits t u → Reach limits r u

Step-IsBounded :
    (limits : Limits) {r t : Registry} → Step limits r t → IsBounded limits r → IsBounded limits t
unfolding disconnect close
Step-IsBounded limits {r} (open_stream m c) h = start-IsBounded limits m c r h
Step-IsBounded limits {r} (append k size) h = chunk-IsBounded limits k size r h
Step-IsBounded limits {r} (call_sink s returned) h = call-IsBounded limits s returned r h
Step-IsBounded limits {r} (finish_stream s) h = finish-IsBounded limits s r h
Step-IsBounded limits {r} (lose_connection c) h = abort_all-IsBounded limits _ r h
Step-IsBounded limits {r} shut_down h = abort_all-IsBounded limits _ r h

-- From a registry within its limits, any steps in any order lead to one within its limits: open streams, bytes
-- of a stream and remembered identifiers are bounded, no identifier is open twice, none both open and closed.
pub Reach-IsBounded :
    (limits : Limits) (r t : Registry) → IsBounded limits r → Reach limits r t → IsBounded limits t
Reach-IsBounded limits r t h here = h
Reach-IsBounded limits r t h (next {t = u} steps step) =
    Step-IsBounded limits step (Reach-IsBounded limits r u h steps)
