-- ===== src/Runtime/Runner.antt =====
-- runtime/runner.py, JupyterSessionRunner and JupyterExecutionRunner, with connect_channels of
-- clients/jupyter.py.
pub mod Hears
pub mod Received
pub mod Answers
pub mod Sessions
pub mod Implements
pub mod Wire
pub mod Requests
pub mod Transmits
pub mod Fails
use executor_service.Common.{
  ℕ, zero, suc, ◌≡◌, Bool, true, false, not, ◌||◌, String, List, [], ◌∷◌, Option, none, some,
  if◌then◌else◌, str_eq,
}
use Prim.Native.String.{◌++◌}
use executor_service.Errors.{
  Error, code_execution_error, infrastructure_error, kernel_not_found_error, timeout_error,
  connection_closed, cancelled_error, describe, is_infrastructure, is_exception,
}
use executor_service.Action.{
  Outcome, ok, raised, Action, pure, raise, ◌except◌, attempt, ◌>>=◌, ◌>>◌,
}
use executor_service.Action.Triple.{Triple}
use executor_service.Schemas.Value.{Value, bool_value, str_value, dict_value, Fields, empty, field}
use executor_service.Schemas.Command.{ExecutionStep}
use executor_service.Platform.{Keys}
use executor_service.Clients.Jupyter.{
  JupyterServerClient, JupyterSessionInfo, create_session, interrupt_kernel, delete_session, item,
  from_outcome,
}
use executor_service.Repository.{RedisExecutionRepository}
use executor_service.Runtime.Frames.{
  Codec, Frame, text, binary, set_value, encode_v1_message, decode_message_frame,
}
use executor_service.Runtime.Collector.{
  JupyterExecutionResult, JupyterMessageCollector, is_complete, new_collector, collect,
  build_result,
}

-- An action that leaves the keys of Redis as they are.
abbrev pub Untouched : (r : RedisExecutionRepository) → {A : Type 0} → Action r.World A → Type 0
Untouched r a =
    (m : Keys r.Payload)
    → Triple (λ w. r.stored w ≡ m) a (λ _ w. r.stored w ≡ m) (λ _ w. r.stored w ≡ m)

-- websockets' connections, jupyter_client's messages, and what pydantic and json write. None of
-- them touches Redis. `connect` is given the kernel that `_build_websocket_url` makes the URL of.
-- `frames_in_time` is how many frames arrive before the timeout; the next
-- `recv` is then cut off by a TimeoutError.
pub record Channels (r : RedisExecutionRepository) : Type 1 where
  pub Connection : Type 0
  pub connect : String → Action r.World Connection
  pub uses_v1 : Connection → Bool
  pub transmit : Connection → Frame → Action r.World (Unit {0})
  pub recv : Connection → Action r.World Frame
  pub close : Connection → Action r.World (Unit {0})
  pub frames_in_time : ℕ → Action r.World ℕ
  -- `Session().msg(msg_type, content=content)`
  pub msg : String → Fields → Action r.World Fields
  pub codec : Codec
  -- `json.dumps(message, separators=(",", ":"), default=str)`
  pub dumps_text : Fields → Outcome String
  -- `model_dump(mode="json")`
  pub dump_result : JupyterExecutionResult → Fields
  -- `f"{n}"`
  pub decimal : ℕ → String
  pub connect_law : (kernel_id : String) → Untouched r (connect kernel_id)
  pub transmit_law : (socket : Connection) (frame : Frame) → Untouched r (transmit socket frame)
  pub recv_law : (socket : Connection) → Untouched r (recv socket)
  pub close_law : (socket : Connection) → Untouched r (close socket)
  pub frames_in_time_law : (seconds : ℕ) → Untouched r (frames_in_time seconds)
  pub msg_law : (msg_type : String) (content : Fields) → Untouched r (msg msg_type content)

module _ (r : RedisExecutionRepository) (client : JupyterServerClient r)
    (channels : Channels r) where
  open channels use {Connection, codec, dumps_text}

  -- A JupyterSessionRunner: its session and its connection.
  pub record JupyterSession : Type 0 where
    pub session_info : JupyterSessionInfo
    pub websocket : Connection

  -- `while not collector.is_complete`, with the number of frames that still come in time.
  unfoldable pub listen :
      Connection → ℕ → JupyterMessageCollector → Action r.World JupyterMessageCollector
  listen socket zero c = if is_complete c then pure c else raise timeout_error
  listen socket (suc left) c =
      let next = listen socket left in
      if is_complete c then pure c else (do
        frame ← channels.recv socket
        message ← from_outcome r client (decode_message_frame codec frame)
        c' ← from_outcome r client (collect codec.str message c)
        next c')

  -- `_send`
  unfoldable pub send : Connection → Fields → Action r.World (Unit {0})
  send socket message =
      if channels.uses_v1 socket
      then (do
        frame ← from_outcome r client (encode_v1_message codec message)
        channels.transmit socket (binary frame))
      else (do
        json ← from_outcome r client (dumps_text message)
        channels.transmit socket (text json))

  ignore_infrastructure : Error → Action r.World (Unit {0})
  ignore_infrastructure x = if is_infrastructure x then pure tt else raise x

  -- `_interrupt_best_effort`
  unfoldable pub interrupt_best_effort : String → Action r.World (Unit {0})
  unfolding ignore_infrastructure
  interrupt_best_effort kernel_id = interrupt_kernel r client kernel_id except ignore_infrastructure

  -- The `except` clauses of `run`, and what follows them.
  unfoldable pub conclude :
      JupyterSession → ExecutionStep → Outcome JupyterMessageCollector → Action r.World Fields
  unfolding interrupt_best_effort
  conclude session step (ok c) = do
    result ← from_outcome r client (build_result c)
    pure (channels.dump_result result)
  conclude session step (raised timeout_error) = do
    interrupt_best_effort session.session_info.kernel_id
    raise (
        code_execution_error step.step_id "ExecutionTimeout"
          ("Step exceeded " ++ (channels.decimal step.timeout_seconds ++ " seconds")) none)
  conclude session step (raised connection_closed) = raise (
      infrastructure_error
        "Jupyter WebSocket disconnected while code may still be running; automatic re-execution is disabled")
  conclude session step (raised (code_execution_error a b c d)) =
      raise (code_execution_error a b c d)
  conclude session step (raised (infrastructure_error t)) = raise (infrastructure_error t)
  conclude session step (raised (kernel_not_found_error t)) = raise (kernel_not_found_error t)
  conclude session step (raised cancelled_error) = raise cancelled_error
  conclude session step (raised x) =
      raise (infrastructure_error ("Jupyter protocol failure: " ++ describe x))

  abbrev pub request_content : String → Fields
  request_content code = field "code" (str_value code) (
      field "silent" (bool_value false) (
        field "store_history" (bool_value true) (
          field "user_expressions" (dict_value empty) (
            field "allow_stdin" (bool_value false)
              (field "stop_on_error" (bool_value true) empty)))))

  -- `str(message["header"]["msg_id"])`
  unfoldable pub msg_id_of : Fields → Action r.World String
  msg_id_of message = do
    header ← item r client "header" (dict_value message)
    msg_id ← item r client "msg_id" header
    pure (codec.str msg_id)

  -- The `try` block of `run`.
  unfoldable pub exchange :
      JupyterSession → ExecutionStep → Fields → String → Action r.World JupyterMessageCollector
  unfolding send listen
  exchange session step message request_msg_id = do
    send session.websocket message
    frames ← channels.frames_in_time step.timeout_seconds
    listen session.websocket frames (new_collector request_msg_id step.step_id)

  -- `JupyterSessionRunner.run`
  unfoldable pub run :
      (String → Action r.World (Unit {0})) → JupyterSession → ExecutionStep → Action r.World Fields
  unfolding set_value msg_id_of exchange conclude
  run on_request_started session step = do
    created ← channels.msg "execute_request" (request_content step.code)
    let message = set_value "channel" (str_value "shell") created
    request_msg_id ← msg_id_of message
    on_request_started request_msg_id
    outcome ← attempt (exchange session step message request_msg_id)
    conclude session step outcome

  -- `connect_channels` up to its `yield`.
  connect_failed : String → Error → Action r.World Connection
  connect_failed kernel_id cancelled_error = raise cancelled_error
  connect_failed kernel_id x =
      raise (infrastructure_error ("Jupyter WebSocket connection failed: kernel_id=" ++ kernel_id))

  -- `open` up to its `yield`. A session whose connection fails is kept: what `connect_channels`
  -- raises is an InfrastructureError or a cancellation.
  unfoldable pub open_session : String → String → Action r.World JupyterSession
  unfolding connect_failed
  open_session execution_id kernel_name = do
    info ← create_session r client execution_id kernel_name
    socket ← channels.connect info.kernel_id except connect_failed info.kernel_id
    pure (record { session_info = info; websocket = socket })

  -- `except (InfrastructureError, asyncio.CancelledError)`
  abbrev pub is_preserving : Option Error → Bool
  is_preserving none = false
  is_preserving (some x) = is_infrastructure x || not (is_exception x)

  -- The `finally` of `open`.
  unfoldable pub clean_up : JupyterSession → Option Error → Action r.World (Unit {0})
  unfolding ignore_infrastructure
  clean_up session x =
      if is_preserving x
      then pure tt
      else (delete_session r client session.session_info.session_id except ignore_infrastructure)

  -- The end of the two blocks: an exception of `websocket.close` takes the place of the one in flight.
  unfoldable pub close_with :
      JupyterSession → Option Error → Outcome (Unit {0}) → Action r.World (Unit {0})
  unfolding clean_up
  close_with session x (ok _) = clean_up session x
  close_with session x (raised y) = do clean_up session (some y); raise y

  unfoldable pub close : JupyterSession → Option Error → Action r.World (Unit {0})
  unfolding close_with
  close session x = do
    closed ← attempt (channels.close session.websocket)
    close_with session x closed
