-- ===== src/Audio/Tests.antt =====
-- Runs of the audio stream registry, and the theorems at concrete inputs.
use nyra.Base.{◌≡◌, refl, true, false, none, some, [], ◌∷◌, ok, raise, arith}
use nyra.Json.{text, number, Fields, end, field}
use nyra.Audio.Metadata.{
  AudioStreamStart, identification, closed_stream, stream_too_large, invalid_start, is_text,
  is_correlated, format_from, identity_from, optional_text, from_mapping,
}
use nyra.Audio.Registry.{
  ActiveStream, Limits, Registry, fresh, finish, require_active, start, chunk, call, end_stream,
  abort_all, disconnect, close, is_active,
}
use nyra.Audio.Bounds.{IsBounded}
use nyra.Audio.Steps.{Reach, open_stream, finish_stream, here, next, Reach-IsBounded}
use nyra.Audio.Accepts.{IsSupported, from_mapping-IsSupported, finish_refuses}

abbrev message : Fields
message = field "audio_stream_id" (text "a1") (
    field "purpose" (text "IDENTIFICATION") (
      field "trace_id" (text "t1") (
        field "span_id" (text "s1")
          (field "request_id" (text "r1") (field "sample_rate" (number 48000) end)))))

abbrev metadata : AudioStreamStart
metadata = record {
  audio_stream_id = "a1";
  purpose = identification;
  session_id = none;
  request_id = some "r1";
  source_id = none;
  trace_id = "t1";
  span_id = "s1";
  parent_span_id = none;
  language = none;
  enrollment_session_id = none;
  wake_word_session_id = none;
  user_id = none;
  wake_word_text = none;
  audio_format = "wav";
  sample_rate = 48000;
  channels = 1;
}

message-parsed : from_mapping message ≡ ok metadata
unfolding from_mapping identity_from optional_text format_from is_correlated is_text
message-parsed = refl

no_request :
    from_mapping (
      field "audio_stream_id" (text "a1") (
        field "purpose"
          (text "IDENTIFICATION")
          (field "trace_id" (text "t1") (field "span_id" (text "s1") end))))
    ≡ raise invalid_start
unfolding from_mapping identity_from optional_text format_from is_correlated is_text
no_request = refl

from_mapping-IsSupported_example : IsSupported metadata
from_mapping-IsSupported_example = from_mapping-IsSupported message metadata message-parsed

abbrev limits : Limits
limits = record {
  max_active_streams = 1;
  max_stream_bytes = 10;
  max_chunk_bytes = 8;
  closed_capacity = 2;
}

abbrev empty : Registry
empty = record { active = []; closed = []; next_tag = 0 }

abbrev stream : ActiveStream
stream = fresh metadata (some "c1") 0

abbrev one : Registry
one = record { active = stream ∷ []; closed = []; next_tag = 1 }

start-one : start limits metadata (some "c1") empty ≡ (ok stream, one)
unfolding start
start-one = refl

-- The second chunk passes the limit of the stream, which is closed by it.
two_chunks :
    chunk limits "a1" 6 (chunk limits "a1" 6 one).1
    ≡ (raise stream_too_large, record { active = []; closed = "a1" ∷ []; next_tag = 1 })
unfolding chunk require_active finish
two_chunks = refl

end-one :
    end_stream limits "a1" true one
    ≡ (ok tt, record { active = []; closed = "a1" ∷ []; next_tag = 1 })
unfolding end_stream call require_active finish
end-one = refl

disconnect-one : disconnect limits "c1" one ≡ close limits one
unfolding disconnect close abort_all finish
disconnect-one = refl

empty-IsBounded : IsBounded limits empty
empty-IsBounded = record {
  streams = omega arith;
  remembered = omega arith;
  bytes = tt;
  unique = tt;
  apart = tt;
}

one-IsBounded : IsBounded limits one
one-IsBounded = record {
  streams = omega arith;
  remembered = omega arith;
  bytes = (omega arith, tt);
  unique = (refl, tt);
  apart = (refl, tt);
}

steps : Reach limits empty (finish limits stream (start limits metadata (some "c1") empty).1)
steps = next (next here (open_stream metadata (some "c1"))) (finish_stream stream)

Reach-IsBounded_example :
    IsBounded limits (finish limits stream (start limits metadata (some "c1") empty).1)
Reach-IsBounded_example =
    Reach-IsBounded limits empty (finish limits stream (start limits metadata (some "c1") empty).1)
      empty-IsBounded steps

finish_refuses_example :
    (is_active "a1" (finish limits stream one) ≡ false)
    × (start limits metadata none (finish limits stream one)
        ≡ (raise closed_stream, finish limits stream one))
finish_refuses_example =
    finish_refuses limits stream one metadata none one-IsBounded (omega arith) refl refl
