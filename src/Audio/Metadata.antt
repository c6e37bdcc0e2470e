-- ===== src/Audio/Metadata.antt =====
-- `AudioStreamPurpose`, `AudioStreamStart` and `from_mapping`, over the JSON object of a START message.
use nyra.Base.{
  ℕ, String, Bool, ◌&&◌, ◌||◌, not, Option, none, some, ◌==◌, leb, nat_eq, if◌then◌else◌, is_some,
  is_blank, text_length, Result, ok, raise, ◌>>=◌, ◌>>◌, raise_if,
}
use nyra.Json.{Json, null, text, number, Fields, get_field}

pub data AudioStreamPurpose : Type 0 where
  identification enrollment wake_word_capture : AudioStreamPurpose

pub record AudioStreamStart : Type 0 where
  pub audio_stream_id : String
  pub purpose : AudioStreamPurpose
  pub session_id : Option String
  pub request_id : Option String
  pub source_id : Option String
  pub trace_id : String
  pub span_id : String
  pub parent_span_id : Option String
  pub language : Option String
  pub enrollment_session_id : Option String
  pub wake_word_session_id : Option String
  pub user_id : Option String
  pub wake_word_text : Option String
  pub audio_format : String
  pub sample_rate : ℕ
  pub channels : ℕ

-- The exceptions of the module; `capacity_exceeded` and `stream_too_large` are `AudioStreamError` with
-- those messages, and `sink_failed` is what a call of the sink raised.
pub data AudioStreamError : Type 0 where
  invalid_start unknown_stream duplicate_stream closed_stream capacity_exceeded stream_too_large
        sink_failed :
      AudioStreamError

-- A text that is not blank and not longer than 1024.
unfoldable pub is_text : String → Bool
unfolding is_blank text_length
is_text s = not (is_blank s) && leb (text_length s) 1024

abbrev found : Option Json → Result AudioStreamError Json
found none = raise invalid_start
found (some value) = ok value

abbrev purpose_of : Json → Result AudioStreamError AudioStreamPurpose
purpose_of (text s) =
    if s == "IDENTIFICATION"
    then ok identification
    else if s == "ENROLLMENT"
    then ok enrollment
    else if s == "WAKE_WORD_CAPTURE"
    then ok wake_word_capture
    else raise invalid_start
purpose_of _ = raise invalid_start

-- `isinstance(item, str)` and the rest of the test of a required field
abbrev required_text : Json → Result AudioStreamError String
required_text (text s) = if is_text s then ok s else raise invalid_start
required_text _ = raise invalid_start

abbrev optional_value : Option Json → Result AudioStreamError (Option String)
optional_value none = ok none
optional_value (some null) = ok none
optional_value (some (text s)) = if is_text s then ok (some s) else raise invalid_start
optional_value (some _) = raise invalid_start

-- One round of the loop over the optional names.
unfoldable pub optional_text : String → Fields → Result AudioStreamError (Option String)
optional_text name value = optional_value (get_field name value)

-- The texts that a purpose needs to be correlated.
unfoldable pub is_correlated : AudioStreamStart → Bool
is_correlated m = elim m.purpose [
  | identification ↦ is_some m.request_id
  | enrollment ↦ is_some m.enrollment_session_id && is_some m.user_id
  | wake_word_capture ↦
      is_some m.wake_word_session_id
      && (is_some m.user_id && (is_some m.wake_word_text && is_some m.language))
]

abbrev format_of : Option Json → Result AudioStreamError String
format_of none = ok "wav"
format_of (some (text s)) = if (s == "wav") || (s == "pcm_s16le") then ok s else raise invalid_start
format_of (some _) = raise invalid_start

abbrev rate_of : Option Json → Result AudioStreamError ℕ
rate_of none = ok 16000
rate_of (some (number n)) = if leb 8000 n && leb n 96000 then ok n else raise invalid_start
rate_of (some _) = raise invalid_start

abbrev channels_of : Option Json → Result AudioStreamError ℕ
channels_of none = ok 1
channels_of (some (number n)) = if nat_eq n 1 || nat_eq n 2 then ok n else raise invalid_start
channels_of (some _) = raise invalid_start

-- `audio_format`, `sample_rate` and `channels`
pub record Format : Type 0 where
  pub audio_format : String
  pub sample_rate : ℕ
  pub channels : ℕ

unfoldable pub format_from : Fields → Result AudioStreamError Format
format_from value = do
  audio_format ← format_of (get_field "audio_format" value)
  sample_rate ← rate_of (get_field "sample_rate" value)
  channels ← channels_of (get_field "channels" value)
  ok (record { audio_format = audio_format; sample_rate = sample_rate; channels = channels })

-- `audio_stream_id`, `purpose`, `trace_id` and `span_id`
pub record Identity : Type 0 where
  pub audio_stream_id : String
  pub purpose : AudioStreamPurpose
  pub trace_id : String
  pub span_id : String

unfoldable pub identity_from : Fields → Result AudioStreamError Identity
identity_from value = do
  audio_stream_id ← found (get_field "audio_stream_id" value) >>= required_text
  purpose ← found (get_field "purpose" value) >>= purpose_of
  trace_id ← found (get_field "trace_id" value) >>= required_text
  span_id ← found (get_field "span_id" value) >>= required_text
  ok (record {
    audio_stream_id = audio_stream_id;
    purpose = purpose;
    trace_id = trace_id;
    span_id = span_id;
  })

-- All errors are `InvalidAudioStreamStart`, so the order of the checks does not show.
unfoldable pub from_mapping : Fields → Result AudioStreamError AudioStreamStart
from_mapping value = do
  identity ← identity_from value
  session_id ← optional_text "session_id" value
  request_id ← optional_text "request_id" value
  source_id ← optional_text "source_id" value
  parent_span_id ← optional_text "parent_span_id" value
  language ← optional_text "language" value
  enrollment_session_id ← optional_text "enrollment_session_id" value
  wake_word_session_id ← optional_text "wake_word_session_id" value
  user_id ← optional_text "user_id" value
  wake_word_text ← optional_text "wake_word_text" value
  format ← format_from value
  let start : AudioStreamStart = record {
    audio_stream_id = identity.audio_stream_id;
    purpose = identity.purpose;
    session_id = session_id;
    request_id = request_id;
    source_id = source_id;
    trace_id = identity.trace_id;
    span_id = identity.span_id;
    parent_span_id = parent_span_id;
    language = language;
    enrollment_session_id = enrollment_session_id;
    wake_word_session_id = wake_word_session_id;
    user_id = user_id;
    wake_word_text = wake_word_text;
    audio_format = format.audio_format;
    sample_rate = format.sample_rate;
    channels = format.channels;
  }
  raise_if (not (is_correlated start)) invalid_start
  ok start
