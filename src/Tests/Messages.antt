-- ===== src/Tests/Messages.antt =====
-- The messages of a kernel for one request, and frames, read and written.
use executor_service.Common.{
  ℕ, ◌≡◌, refl, true, false, String, List, [], ◌∷◌, none, some, ◌&&◌, str_eq, arith, map, join,
  ◌++◌,
}
use executor_service.Errors.{infrastructure_error, is_infrastructure}
use executor_service.Action.{ok, raised}
use executor_service.Schemas.Value.{
  str_value, list_value, dict_value, bytes_value, nil, cons, Fields, empty, field, get_value,
  get_or,
}
use executor_service.Schemas.Callback.{text_or}
use executor_service.Runtime.Collector
use executor_service.Runtime.Frames
use executor_service.Runtime.Collector.{
  JupyterMessageCollector, new_collector, collect, collect_all, is_complete, build_result,
  OutputType, is_related_message, dispatch, collect_stream, collect_execute_reply, collect_status,
  add_output, dicts_of, JupyterOutput,
}
use executor_service.Runtime.Collector.Shown.{events, shown, outputs-eq-shown}
use executor_service.Runtime.Collector.Complete.{is_replied, is_idled, is_complete-eq}
use executor_service.Runtime.Collector.Results.{Answers, last_status, build_result-Answers}
use executor_service.Runtime.Frames.{
  Frame, binary, buffers_of, parts_of, frame_of, v1_parts, encode_v1_message, decode_message_frame,
  message_of, offsets_from, pack_q, pack_qs, bytes_of,
}
use executor_service.Runtime.Frames.RoundTrip.{decode-encode_v1}
use executor_service.Runtime.Frames.Table.{v1_parts-frame_of}
use executor_service.Runtime.Frames.Rejects.{decode_message_frame-Only}
use executor_service.Common.Bytes.{le_bytes}
use executor_service.Tests.Codec.{codec, str, encode}

abbrev pub request : String
request = "req-1"

-- A message of a type to a request, with its content.
abbrev pub message : String → String → Fields → Fields
message msg_type parent content =
    field "header" (dict_value (field "msg_type" (str_value msg_type) empty)) (
      field "parent_header" (dict_value (field "msg_id" (str_value parent) empty))
        (field "content" (dict_value content) empty))

abbrev pub printed : String → Fields
printed text = message "stream" request (field "text" (str_value text) empty)

-- The idle status comes before the reply, and a message of another request between.
abbrev pub messages : List Fields
messages =
    printed "a"
    ∷ message "stream" "req-0" (field "text" (str_value "x") empty)
    ∷ printed "b"
    ∷ message "status" request (field "execution_state" (str_value "idle") empty)
    ∷ message "execute_reply" request (field "status" (str_value "ok") empty)
    ∷ []

abbrev pub line : String → JupyterOutput
line text = record {
  output_type = OutputType.stream;
  name = some "stdout";
  text = some text;
  contents = none;
  metadata = empty;
}

abbrev pub gathered : JupyterMessageCollector
gathered = record {
  request_msg_id = request;
  step_id = "step-1";
  outputs = line "a" ∷ line "b" ∷ [];
  execution_count = none;
  payload = [];
  reply_received = true;
  idle_received = true;
  reply_status = some "ok";
  error_type = none;
  error_message = none;
  traceback = [];
  clear_on_next_output = false;
}

pub all_collected : collect_all str messages (new_collector request "step-1") ≡ ok gathered
unfolding collect_all collect new_collector is_related_message dispatch collect_stream
    collect_execute_reply collect_status add_output dicts_of get_value get_or
    Collector.stream_output
all_collected = refl

outputs-eq-shown_example : line "a" ∷ line "b" ∷ [] ≡ shown (events str request messages)
outputs-eq-shown_example = outputs-eq-shown str request "step-1" messages gathered all_collected

is_complete-eq_example :
    is_complete gathered ≡ is_replied request messages && is_idled request messages
is_complete-eq_example = is_complete-eq str request "step-1" messages gathered all_collected

build_result-Answers_example :
    Answers str request "step-1" messages
      (is_replied request messages && is_idled request messages)
      (str_eq (text_or (last_status str request messages) "") "ok")
      (build_result gathered)
build_result-Answers_example =
    build_result-Answers str request "step-1" messages gathered all_collected

-- A message with one buffer; its headers and its content are missing.
abbrev sent : Fields
sent = field "buffers" (list_value (cons (bytes_value (7 ∷ 8 ∷ [])) nil)) empty

abbrev braces : List ℕ
braces = 123 ∷ 125 ∷ []

abbrev sent_parts : List (List ℕ)
sent_parts =
    (115 ∷ 104 ∷ 101 ∷ 108 ∷ 108 ∷ []) ∷ braces ∷ braces ∷ braces ∷ braces ∷ (7 ∷ 8 ∷ []) ∷ []

abbrev eight : ℕ → List ℕ
eight n = n ∷ 0 ∷ 0 ∷ 0 ∷ 0 ∷ 0 ∷ 0 ∷ 0 ∷ []

-- Seven offsets, the parts from byte 64 on.
abbrev sent_frame : List ℕ
sent_frame = join (map eight (7 ∷ 64 ∷ 69 ∷ 71 ∷ 73 ∷ 75 ∷ 77 ∷ 79 ∷ [])) ++ join sent_parts

framed : frame_of sent_parts ≡ ok sent_frame
unfolding frame_of pack_q pack_qs le_bytes offsets_from
framed = refl

encoded : encode_v1_message codec sent ≡ ok sent_frame
unfolding encode_v1_message Frames.as_buffers parts_of frame_of pack_q pack_qs le_bytes offsets_from
    buffers_of bytes_of get_or encode
encoded = refl

v1_parts-frame_of_example : v1_parts sent_frame ≡ ok sent_parts
v1_parts-frame_of_example =
    v1_parts-frame_of sent_parts sent_frame (omega arith) (omega arith) framed

decode-encode_v1_example :
    decode_message_frame codec (binary sent_frame)
    ≡ ok (message_of "shell" empty empty empty empty ((7 ∷ 8 ∷ []) ∷ []))
unfolding get_or buffers_of bytes_of
decode-encode_v1_example =
    decode-encode_v1 codec sent empty empty empty empty (cons (bytes_value (7 ∷ 8 ∷ [])) nil)
      ((7 ∷ 8 ∷ []) ∷ []) sent_frame refl refl refl refl refl refl (omega arith) encoded

refused :
    decode_message_frame codec (binary (1 ∷ 2 ∷ []))
    ≡ raised (infrastructure_error "Jupyter binary frame is too short")
unfolding decode_message_frame Frames.or_legacy Frames.decode_v1_message v1_parts
    Frames.decode_legacy_binary_message Frames.legacy_parts
refused = refl

-- Two bytes, which are neither kind of binary frame.
decode_message_frame-Only_example :
    is_infrastructure (infrastructure_error "Jupyter binary frame is too short") ≡ true
decode_message_frame-Only_example = decode_message_frame-Only codec (binary (1 ∷ 2 ∷ [])) _ refused
