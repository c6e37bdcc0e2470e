-- ===== src/Audio/Registry.antt =====
-- `AudioStreamRegistry`. All access is on one event loop; a call runs from one `await` to the next without
-- interruption. A call of the sink is the second half of `start`, `chunk` or `end`: what it ends with is an
-- argument (`true` where it returned within the deadline), and `_call` runs it only while its stream is still
-- the open one. The sink's own state, the timer tasks and the per-stream lock are asyncio's; `tag` tells one
-- opening of an identifier from a later one, as object identity does.
use nyra.Base.{
  ℕ, suc, ◌+◌, String, Bool, false, ◌||◌, Option, none, some, List, [], ◌∷◌, ◌++◌, ◌==◌, leb, ltb,
  nat_eq, if◌then◌else◌, any, length, filter, Result, ok, raise,
}
use nyra.Audio.Metadata.{
  AudioStreamStart, AudioStreamError, unknown_stream, duplicate_stream, closed_stream,
  capacity_exceeded, stream_too_large, sink_failed,
}

-- `_ActiveStream`
pub record ActiveStream : Type 0 where
  pub metadata : AudioStreamStart
  pub connection_id : Option String
  pub byte_count : ℕ
  pub tag : ℕ

pub record Limits : Type 0 where
  pub max_active_streams : ℕ
  pub max_stream_bytes : ℕ
  pub max_chunk_bytes : ℕ
  pub closed_capacity : ℕ

-- `_active` in any order, `_closed` oldest first.
pub record Registry : Type 0 where
  pub active : List ActiveStream
  pub closed : List String
  pub next_tag : ℕ

abbrev pub stream_id : ActiveStream → String
stream_id s = s.metadata.audio_stream_id

abbrev pub has_id : String → ActiveStream → Bool
has_id k s = stream_id s == k

abbrev pub is_active : String → Registry → Bool
is_active k r = any (has_id k) r.active

abbrev pub is_closed : String → Registry → Bool
is_closed k r = any (λ c. c == k) r.closed

-- `self._active.get(stream_id)`
abbrev pub find_active : String → List ActiveStream → Option ActiveStream
find_active k [] = none
find_active k (s ∷ rest) = let found = find_active k rest in if has_id k s then some s else found

-- `self._active.pop(audio_stream_id)`
abbrev pub without : String → List ActiveStream → List ActiveStream
without k [] = []
without k (s ∷ rest) = let others = without k rest in if has_id k s then others else s ∷ others

-- `OrderedDict`: an identifier that is there keeps its place
abbrev pub remember : String → List String → List String
remember k closed = if any (λ c. c == k) closed then closed else closed ++ k ∷ []

-- `while len(self._closed) > self.closed_capacity: self._closed.popitem(last=False)`
abbrev pub evict : ℕ → List String → List String
evict capacity [] = []
evict capacity (k ∷ rest) =
    let shorter = evict capacity rest in
    if ltb capacity (suc (length rest)) then shorter else k ∷ rest

abbrev pub is_same : ActiveStream → Option ActiveStream → Bool
is_same s none = false
is_same s (some other) = nat_eq s.tag other.tag

-- `_finish`
unfoldable pub finish : Limits → ActiveStream → Registry → Registry
finish limits s r =
    if is_same s (find_active (stream_id s) r.active)
    then record r {
      active = without (stream_id s) r.active;
      closed = evict limits.closed_capacity (remember (stream_id s) r.closed);
    }
    else r

-- `_require_active`
unfoldable pub require_active : String → Registry → Result AudioStreamError ActiveStream
require_active k r = elim (find_active k r.active) [
  | some s ↦ ok s
  | none ↦ if is_closed k r then raise closed_stream else raise unknown_stream
]

abbrev pub fresh : AudioStreamStart → Option String → ℕ → ActiveStream
fresh metadata connection_id tag = record {
  metadata = metadata;
  connection_id = connection_id;
  byte_count = 0;
  tag = tag;
}

-- `start`, up to the call of the sink: the stream is reserved before the first `await`.
unfoldable pub start :
    Limits
    → AudioStreamStart
    → Option String
    → Registry
    → Result AudioStreamError ActiveStream × Registry
start limits metadata connection_id r =
    if is_active metadata.audio_stream_id r
    then (raise duplicate_stream, r)
    else if is_closed metadata.audio_stream_id r
    then (raise closed_stream, r)
    else if leb limits.max_active_streams (length r.active)
    then (raise capacity_exceeded, r)
    else (
      ok (fresh metadata connection_id r.next_tag),
      record r {
        active = r.active ++ fresh metadata connection_id r.next_tag ∷ [];
        next_tag = suc r.next_tag;
      },
    )

-- `active.byte_count += len(payload)`, on the entry of an identifier
abbrev pub add_to : String → ℕ → List ActiveStream → List ActiveStream
add_to k size [] = []
add_to k size (s ∷ rest) =
    let others = add_to k size rest in
    if has_id k s then record s { byte_count = s.byte_count + size } ∷ rest else s ∷ others

abbrev pub is_too_large : Limits → ℕ → ActiveStream → Bool
is_too_large limits size s =
    ltb limits.max_chunk_bytes size || ltb limits.max_stream_bytes (s.byte_count + size)

-- `chunk`, up to the call of the sink, for a payload of `size` bytes.
unfoldable pub chunk :
    Limits → String → ℕ → Registry → Result AudioStreamError ActiveStream × Registry
chunk limits k size r = elim (require_active k r) [
  | raise e ↦ (raise e, r)
  | ok s ↦
      if is_too_large limits size s
      then (raise stream_too_large, finish limits s r)
      else (ok s, record r { active = add_to k size r.active })
]

-- `_call`: the sink is called only while the stream is the open one, and whatever is raised ends it.
unfoldable pub call :
    Limits → ActiveStream → Bool → Registry → Result AudioStreamError (Unit {0}) × Registry
call limits s returned r =
    if is_same s (find_active (stream_id s) r.active)
    then (if returned then (ok tt, r) else (raise sink_failed, finish limits s r))
    else (raise closed_stream, finish limits s r)

-- `end`: the sink's answer, and then the stream is finished.
unfoldable pub end_stream :
    Limits → String → Bool → Registry → Result AudioStreamError (Unit {0}) × Registry
end_stream limits k returned r = elim (require_active k r) [
  | raise e ↦ (raise e, r)
  | ok s ↦
      let (result, after) = call limits s returned r in
      elim result [ raise e ↦ (raise e, after) | ok done ↦ (ok done, finish limits s after) ]
]

abbrev same_connection : String → Option String → Bool
same_connection c none = false
same_connection c (some other) = other == c

-- The `gather` of `disconnect` and `close`: each listed stream is aborted, `_abort` being `_finish` with a
-- notice to the sink.
unfoldable pub abort_all : Limits → List ActiveStream → Registry → Registry
abort_all limits [] r = r
abort_all limits (s ∷ rest) r = abort_all limits rest (finish limits s r)

unfoldable pub disconnect : Limits → String → Registry → Registry
disconnect limits connection_id r =
    abort_all limits (filter (λ s. same_connection connection_id s.connection_id) r.active) r

unfoldable pub close : Limits → Registry → Registry
close limits r = abort_all limits r.active r
