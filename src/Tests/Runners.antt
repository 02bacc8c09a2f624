-- ===== src/Tests/Runners.antt =====
-- A step that is run on a kernel in memory, which sends three frames.
use executor_service.Common.{
  ℕ, ◌≡◌, refl, List, [], ◌∷◌, ◌++◌, ◌⊎◌, Option, none, some, true, false, ◌==◌, if◌then◌else◌,
  arith,
}
use executor_service.Errors.{connection_closed}
use executor_service.Action.{Outcome, ok, raised, Action, pure}
use executor_service.Action.Triple.{Triple, Post, Triple-pure}
use executor_service.Schemas.Value.{
  Value, str_value, dict_value, Fields, empty, field, find, get_value, get_or,
}
use executor_service.Platform.{Keys}
use executor_service.Clients.Jupyter.{item, from_outcome}
use executor_service.Runtime.Frames.{Frame, text, set_value, decode_message_frame, json_object}
use executor_service.Runtime.Collector
use executor_service.Runtime.Collector.{
  JupyterMessageCollector, new_collector, is_complete, build_result, collect, collect_all,
  is_related_message, dispatch, collect_stream, collect_execute_reply, collect_status, add_output,
  dicts_of,
}
use executor_service.Runtime.Runner.{
  Channels, JupyterSession, run, exchange, conclude, send, listen, msg_id_of,
}
use executor_service.Runtime.Runner.Hears.{Gives, Heard, listen-Heard}
use executor_service.Runtime.Runner.Wire.{Wire}
use executor_service.Runtime.Runner.Transmits.{More, run-More}
use executor_service.Runtime.Runner.Answers.{Answered, run-Answered}
use executor_service.Tests.Codec.{codec, loads, loads-dumps, encode, dumps}
use executor_service.Tests.Memory.{Json, Memory, repository, jupyter, kept}
use executor_service.Tests.Messages.{request, message, printed, line}
use executor_service.Tests.Executions.{step, nothing}

abbrev idle : Fields
idle = message "status" request (field "execution_state" (str_value "idle") empty)

abbrev reply : Fields
reply = message "execute_reply" request (field "status" (str_value "ok") empty)

-- The JSON of the three messages is one letter each.
abbrev pub letters : List ℕ → Option Value
letters (n ∷ []) =
    if n == 97
    then some (dict_value (printed "a"))
    else if n == 98
    then some (dict_value idle)
    else if n == 99
    then some (dict_value reply)
    else none
letters bytes = loads bytes

pub letters-dumps :
    (fields : Fields) (bytes : List ℕ)
    → dumps (dict_value fields) ≡ ok bytes
    → letters bytes ≡ some (dict_value fields)
letters-dumps empty [] h = cc
letters-dumps empty (n ∷ []) h = cc
letters-dumps empty (n ∷ k ∷ ns) h = loads-dumps empty (n ∷ k ∷ ns) h
letters-dumps (field k v fields) bytes h = cc

abbrev pub next_frame : List Frame → Outcome Frame
next_frame [] = raised connection_closed
next_frame (f ∷ fs) = ok f

abbrev pub later : List Frame → List Frame
later [] = []
later (f ∷ fs) = fs

abbrev pub receive : Unit {0} → Action Memory Frame
receive _ w = (next_frame w.frames, record w { frames = later w.frames })

pub receive_law :
    (m : Keys Json)
    → Triple (λ (w : Memory). w.keys ≡ m) (receive tt) (λ _ w. w.keys ≡ m) (λ _ w. w.keys ≡ m)
receive_law m =
    kept (λ k. k ≡ m) (λ w. next_frame w.frames) (λ w. record w { frames = later w.frames })
      (λ w. refl)

abbrev pub transmit : Frame → Action Memory (Unit {0})
transmit frame w = (ok tt, record w { transmitted = w.transmitted ++ (frame ∷ []) })

abbrev pub channels : Channels repository
channels = record {
  Connection = Unit {0};
  connect = λ _. pure tt;
  uses_v1 = λ _. false;
  transmit = λ _. transmit;
  recv = receive;
  close = λ _. pure tt;
  frames_in_time = λ _. pure 5;
  msg = λ _ _. pure (field "header" (dict_value (field "msg_id" (str_value request) empty)) empty);
  codec = record codec { loads = letters; loads-dumps = letters-dumps };
  dumps_text = λ _. ok "{}";
  dump_result = λ _. empty;
  decimal = λ _. "30";
  connect_law = λ _ m. Triple-pure tt (λ w e. e);
  transmit_law = λ _ frame m. record { at = λ w e. e };
  recv_law = λ _ m. receive_law m;
  close_law = λ _ m. Triple-pure tt (λ w e. e);
  frames_in_time_law = λ _ m. Triple-pure 5 (λ w e. e);
  msg_law = λ _ _ m. Triple-pure _ (λ w e. e);
}

abbrev session : JupyterSession repository jupyter channels
session = record {
  session_info = record {
    session_id = "session-1";
    kernel_id = "kernel-1";
    target = "http://jupyter";
  };
  websocket = tt;
}

abbrev pub sending : List Frame → Memory
sending frames = record {
  keys = nothing;
  entries = [];
  frames = frames;
  transmitted = [];
  sent = [];
  closed = [];
  slept = 0;
  time = 10;
  runs = [];
  posts = [];
}

abbrev letters_sent : Memory
letters_sent = sending (text "a" ∷ text "b" ∷ text "c" ∷ [])

abbrev pub wire : Wire repository jupyter channels
wire = record {
  transmitted = λ w. w.transmitted;
  transmit_adds = λ _ frame l. record { at = λ w e. rw e };
  recv_aside = λ _ l. record { at = λ w e. read_aside w.frames l w e };
  frames_in_time_aside = λ _ l. Triple-pure 5 (λ w e. e);
  msg_aside = λ _ _ l. Triple-pure _ (λ w e. e);
  interrupt_aside = λ _ l. Triple-pure _ (λ w e. e);
}
  where
    read_aside :
        (frames l : List Frame) (w : Memory)
        → w.transmitted ≡ l
        → Post {A = Frame}
            (λ _ v. v.transmitted ≡ l)
            (λ _ v. v.transmitted ≡ l)
            (next_frame frames, record w { frames = later frames })
    read_aside [] l w e = e
    read_aside (f ∷ fs) l w e = e

run-More_example :
    Triple
      (λ w. w.transmitted ≡ [])
      (run repository jupyter channels (λ _. pure tt) session (step "step-1"))
      (λ _. More repository jupyter channels wire [])
      (λ _ w. (w.transmitted ≡ []) ⊎ More repository jupyter channels wire [] w)
run-More_example =
    run-More repository jupyter channels wire (λ _. pure tt) session (step "step-1") []
      (λ id. Triple-pure tt (λ w e. e))

run-Answered_example :
    Post
      (Answered repository jupyter channels (λ _. pure tt) session (step "step-1") letters_sent)
      (λ _ _. Unit {0})
      (run repository jupyter channels (λ _. pure tt) session (step "step-1") letters_sent)
run-Answered_example =
    run-Answered repository jupyter channels (λ _. pure tt) session (step "step-1") letters_sent

ran :
    ◌≡◌ {A = Outcome Fields × Memory}
      (run repository jupyter channels (λ _. pure tt) session (step "step-1") letters_sent)
      (ok empty, record (sending []) { transmitted = text "{}" ∷ [] })
unfolding run exchange conclude send listen msg_id_of item find from_outcome set_value
    decode_message_frame json_object encode new_collector is_complete build_result collect
    collect_all is_related_message dispatch collect_stream collect_execute_reply collect_status
    add_output dicts_of get_value get_or
ran = refl

abbrev collected : JupyterMessageCollector
collected = record {
  request_msg_id = request;
  step_id = "step-1";
  outputs = line "a" ∷ [];
  execution_count = none;
  payload = [];
  reply_received = true;
  idle_received = true;
  reply_status = some "ok";
  error_type = none;
  error_message = none;
  traceback = [];
  clear_on_next_output = false;
}

abbrev sent : List Fields
sent = printed "a" ∷ idle ∷ reply ∷ []

given : Gives repository jupyter channels tt sent letters_sent
unfolding decode_message_frame json_object encode
given = (
  text "a",
  sending (text "b" ∷ text "c" ∷ []),
  refl,
  refl,
  (text "b", sending (text "c" ∷ []), refl, refl, (text "c", sending [], refl, refl, tt)),
)

all_heard : collect_all channels.codec.str sent (new_collector request "step-1") ≡ ok collected
unfolding new_collector collect collect_all is_related_message dispatch collect_stream
    collect_execute_reply collect_status add_output dicts_of get_value get_or
    Collector.stream_output
all_heard = refl

listen-Heard_example :
    Heard repository jupyter channels tt 5 (new_collector request "step-1") letters_sent
unfolding is_complete
listen-Heard_example =
    listen-Heard repository jupyter channels tt sent 5 (new_collector request "step-1") collected
      letters_sent (omega arith) given all_heard refl
