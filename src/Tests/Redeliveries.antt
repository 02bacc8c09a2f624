-- ===== src/Tests/Redeliveries.antt =====
-- A message that is delivered twice: its first processing is cancelled, or loses its kernel, while
-- the second step runs.
use executor_service.Common.{
  ◌≡◌, refl, String, List, [], ◌∷◌, ◌++◌, Option, none, some, Bool, true, false, ◌&&◌, is_some,
  if◌then◌else◌,
}
use executor_service.Errors.{Error, cancelled_error}
use executor_service.Action.{Outcome, ok, raised, pure}
use executor_service.Action.Triple.{Keeps, Post, Triple-pure}
use executor_service.Schemas.Value.{str_value, dict_value, empty, field}
use executor_service.Repository.{
  utc_now, key, get, get_required, save, commit, mark_running, bind_jupyter, set_request_msg_id,
  mark_step_running, mark_step_succeeded, mark_step_failed, mark_succeeded, mark_callback_pending,
  record_callback_attempt, mark_callback_delivered, mark_infrastructure_failed,
}
use executor_service.Clients.Redis
use executor_service.Clients.Agent.{send}
use executor_service.Clients.Jupyter.{get_kernel, JupyterServerClient, Response}
use executor_service.Schemas.Callback.{from_state}
use executor_service.Repository.Transitions.{
  build_initial_state, initial_steps, step_with, update_step,
}
use executor_service.Repository.Aside.{Aside}
use executor_service.Repository.Store.{Holds}
use executor_service.Services.Execution
use executor_service.Services.Execution.Recorder.{InOrder}
use executor_service.Services.Callback.{event_id_of, deliver}
use executor_service.Services.Processor
use executor_service.Services.Processor.{ExecutionProcessor}
use executor_service.Runtime.Frames.{Frame, text}
use executor_service.Runtime.Runner.Requests.{IsRequest}
use executor_service.Workers.Execution.{process_message}
use executor_service.Workers.Execution.Redelivery.{process_all}
use executor_service.Workers.Execution.Requests.{on_jupyter, ProcessorWire, process_all-IsRequest}
use executor_service.Tests.Runners.{channels, wire}
use executor_service.Services.Execution.Progress.{IsSubmitted}
use executor_service.Platform.{put}
use executor_service.Schemas.Value.{find, get_value, get_or}
use executor_service.Clients.Jupyter.{item, from_outcome, create_session, delete_session}
use executor_service.Runtime.Frames.{set_value, decode_message_frame, json_object}
use executor_service.Runtime.Collector.{
  new_collector, is_complete, build_result, collect, collect_all, is_related_message, dispatch,
  collect_stream, collect_execute_reply, collect_status, add_output, dicts_of,
}
use executor_service.Runtime.Runner
use executor_service.Runtime.Runner.{
  run, exchange, conclude, listen, msg_id_of, open_session, close,
}
use executor_service.Runtime.Runner.Implements.{jupyter_runner}
use executor_service.Tests.Codec.{encode}
use executor_service.Tests.Memory.{
  Json, Memory, repository, jupyter, processor, next_post, next_of, rest_of,
}
use executor_service.Tests.Executions.{
  command, nothing, initial, initial-id, initial-IsSubmitted, world, stored-At,
}

-- What says nothing of the rest of the memory.
module _ (l : List Frame) where
  abbrev Same : Memory → Type 0
  Same w = w.transmitted ≡ l

  ended :
      {A : Type 0} (Q : A → Memory → Type 0) (E : Error → Memory → Type 0) (o : Outcome A)
      (w : Memory)
      → ((a : A) → Q a w)
      → ((x : Error) → E x w)
      → Post Q E (o, w)
  ended Q E (ok a) w q e = q a
  ended Q E (raised x) w q e = e x

  stored :
      (b : Bool) (k : String) (v : Json) (w : Memory)
      → Same w
      → Post {W = Memory} {A = Option Bool}
          (λ _. Same)
          (λ _. Same)
          (if b then (ok none, w) else (ok (some true), record w { keys = put k v w.keys }))
  stored true k v w e = e
  stored false k v w e = e

  aside : Aside repository Same
  aside = record {
    get_aside = λ k. record { at = λ w e. e };
    set_aside = λ k v nx. record { at = λ w e. stored (nx && is_some (w.keys k)) k v w e };
    xack_aside = λ s g i. Triple-pure 1 (λ w e. e);
    clock_aside = λ w e. e;
  }

  post_aside : Keeps Same next_post
  post_aside = record {
    at = λ w e.
        ended (λ _. Same) (λ _. Same) (next_of w.posts (ok tt))
          (record w { posts = rest_of w.posts }) (λ _. e) (λ _. e);
  }

-- A kernel server that opens sessions.
abbrev opened : Response
opened = record {
  status_code = 201;
  raise_for_status = ok tt;
  json = ok (
      dict_value (
        field "id" (str_value "session-1")
          (field "kernel" (dict_value (field "id" (str_value "kernel-1") empty)) empty)));
}

abbrev client : JupyterServerClient repository
client = record jupyter {
  http_post_json = λ _ _. pure opened;
  http_post_json_law = λ _ _ m. Triple-pure opened (λ w e. e);
}

abbrev connected : ExecutionProcessor repository
connected = record processor { jupyter_client = client }

abbrev processor_wire : ProcessorWire repository connected channels
processor_wire = record {
  wire = record {
    transmitted = λ w. w.transmitted;
    transmit_adds = wire.transmit_adds;
    recv_aside = wire.recv_aside;
    frames_in_time_aside = wire.frames_in_time_aside;
    msg_aside = wire.msg_aside;
    interrupt_aside = λ _ l. Triple-pure _ (λ w e. e);
  };
  aside = aside;
  calls_aside = λ l. record {
    post_json_keeps = λ _ _. Triple-pure _ (λ w e. e);
    delete_keeps = λ _. Triple-pure _ (λ w e. e);
    connect_keeps = λ _. Triple-pure _ (λ w e. e);
    close_keeps = λ _. Triple-pure _ (λ w e. e);
  };
  get_kernel_aside = λ _ l. Triple-pure _ (λ w e. e);
  post_aside = λ _ _ _ l. post_aside l;
  sleep_aside = λ _ l. record { at = λ w e. e };
}

abbrev cut_off : Memory
cut_off = world initial (ok empty ∷ raised cancelled_error ∷ []) []

cut_off-Holds : Holds repository command.execution_id nothing (IsSubmitted command.steps) cut_off
cut_off-Holds = (
  initial,
  stored-At initial (ok empty ∷ raised cancelled_error ∷ []) [] initial-id initial-IsSubmitted,
)

-- The kernel answers the first step and then hangs up.
abbrev hung_up : Memory
hung_up = record cut_off { frames = text "a" ∷ text "b" ∷ text "c" ∷ [] }

process_all-IsRequest_example :
    (front : List Frame) × ((process_all repository
        (on_jupyter repository connected channels)
        command
        ("1-0" ∷ "1-0" ∷ [])
        hung_up).transmitted
      ≡ [] ++ front)
    × InOrder (IsRequest repository client channels) front command.steps
process_all-IsRequest_example =
    process_all-IsRequest repository connected channels processor_wire command nothing
      ("1-0" ∷ "1-0" ∷ []) hung_up cut_off-Holds

-- The second processing finds the kernel gone, and sends nothing.
sent_twice :
    (process_all repository processor command ("1-0" ∷ "1-0" ∷ []) cut_off).sent
    ≡ "step-1" ∷ "step-2" ∷ []
unfolding process_all process_message Processor.execute Processor.choose Processor.recover_running
    utc_now Redis.get Redis.set Redis.acknowledge key Execution.resolve Execution.execute deliver
    get_required get mark_running bind_jupyter set_request_msg_id mark_step_running
    mark_step_succeeded mark_step_failed mark_succeeded mark_callback_pending
    record_callback_attempt mark_callback_delivered mark_infrastructure_failed commit save
    build_initial_state initial_steps step_with update_step Execution.request_started send
    from_state event_id_of get_kernel
sent_twice = refl

-- The kernel hangs up on the second step; the second processing finds it gone, and sends nothing.
transmitted_twice :
    (process_all repository
      (on_jupyter repository connected channels)
      command
      ("1-0" ∷ "1-0" ∷ [])
      hung_up).transmitted
    ≡ text "{}" ∷ text "{}" ∷ []
unfolding process_all process_message Processor.execute Processor.choose Processor.recover_running
    utc_now Redis.get Redis.set Redis.acknowledge key Execution.resolve Execution.execute deliver
    get_required get mark_running bind_jupyter set_request_msg_id mark_step_running
    mark_step_succeeded mark_step_failed mark_succeeded mark_callback_pending
    record_callback_attempt mark_callback_delivered mark_infrastructure_failed commit save
    build_initial_state initial_steps step_with update_step Execution.request_started send
    from_state event_id_of get_kernel jupyter_runner run open_session close exchange conclude
    Runner.send listen msg_id_of item find from_outcome set_value decode_message_frame json_object
    encode new_collector is_complete build_result collect collect_all is_related_message dispatch
    collect_stream collect_execute_reply collect_status add_output dicts_of get_value get_or
    create_session delete_session
transmitted_twice = refl
