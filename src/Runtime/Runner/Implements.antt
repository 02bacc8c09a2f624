-- ===== src/Runtime/Runner/Implements.antt =====
-- JupyterExecutionRunner as the ExecutionRunner of ExecutionService: the laws of the interface.
use executor_service.Common.{ℕ, zero, suc, ◌≡◌, String}
use executor_service.Errors.{Error, timeout_error, is_infrastructure}
use executor_service.Action.{Outcome, ok, raised, Action}
use executor_service.Action.Triple.{
  Triple, Triple-pure, Triple-raise, Triple-bind, Triple-attempt, Triple-if, Triple-except,
}
use executor_service.Schemas.Value.{str_value, dict_value, Fields}
use executor_service.Schemas.Command.{ExecutionStep}
use executor_service.Platform.{Keys}
use executor_service.Clients.Jupyter.{JupyterServerClient, from_outcome}
use executor_service.Clients.Jupyter.Keeps.{from_outcome-keeps, item-keeps, interrupt_kernel-keeps}
use executor_service.Repository.{RedisExecutionRepository}
use executor_service.Repository.Store.{frame}
use executor_service.Services.Execution.Runner.{ExecutionRunner}
use executor_service.Runtime.Frames.{set_value, encode_v1_message, decode_message_frame}
use executor_service.Runtime.Collector.{
  JupyterMessageCollector, is_complete, new_collector, collect, build_result,
}
use executor_service.Runtime.Runner.Sessions.{Calls, open_session-Keeps, close-Keeps}
use executor_service.Runtime.Runner.{
  Channels, JupyterSession, listen, send, ignore_infrastructure, interrupt_best_effort, conclude,
  msg_id_of, request_content, exchange, run, open_session, close,
}

module _ (r : RedisExecutionRepository) (client : JupyterServerClient r)
    (channels : Channels r) where
  module _ (P : Keys r.Payload → Type 0) where
    abbrev pub Keeps : {A : Type 0} → Action r.World A → Type 0
    Keeps a = Triple (λ w. P (r.stored w)) a (λ _ w. P (r.stored w)) (λ _ w. P (r.stored w))

    read-Keeps : {A : Type 0} (o : Outcome A) → Keeps (from_outcome r client o)
    read-Keeps o = from_outcome-keeps r client (λ w. P (r.stored w)) o

    listen-Keeps :
        (socket : channels.Connection) (left : ℕ) (c : JupyterMessageCollector)
        → Keeps (listen r client channels socket left c)
    unfolding listen
    listen-Keeps socket zero c =
        Triple-if (is_complete c) _ _ (λ _. Triple-pure c (λ w p. p))
          (λ _. Triple-raise timeout_error (λ w p. p))
    listen-Keeps socket (suc left) c =
        Triple-if (is_complete c) _ _ (λ _. Triple-pure c (λ w p. p))
          (λ _. Triple-bind (frame r P (channels.recv_law socket)) (λ given.
            Triple-bind (read-Keeps (decode_message_frame channels.codec given)) (λ message.
              Triple-bind (read-Keeps (collect channels.codec.str message c))
                (λ d. listen-Keeps socket left d))))

    send-Keeps :
        (socket : channels.Connection) (message : Fields)
        → Keeps (send r client channels socket message)
    unfolding send
    send-Keeps socket message =
        Triple-if (channels.uses_v1 socket) _ _
          (λ _.
            Triple-bind (read-Keeps (encode_v1_message channels.codec message))
              (λ given. frame r P (channels.transmit_law socket _)))
          (λ _.
            Triple-bind (read-Keeps (channels.dumps_text message))
              (λ given. frame r P (channels.transmit_law socket _)))

    ignore-Keeps : (x : Error) → Keeps (ignore_infrastructure r client channels x)
    unfolding ignore_infrastructure
    ignore-Keeps x =
        Triple-if (is_infrastructure x) _ _ (λ _. Triple-pure tt (λ w p. p))
          (λ _. Triple-raise x (λ w p. p))

    interrupt-Keeps :
        (kernel_id : String) → Keeps (interrupt_best_effort r client channels kernel_id)
    unfolding interrupt_best_effort
    interrupt-Keeps kernel_id =
        Triple-except (frame r P (interrupt_kernel-keeps r client kernel_id)) ignore-Keeps

    conclude-Keeps :
        (session : JupyterSession r client channels) (step : ExecutionStep)
        (o : Outcome JupyterMessageCollector)
        → Keeps (conclude r client channels session step o)
    unfolding conclude
    conclude-Keeps session step (ok c) =
        Triple-bind (read-Keeps (build_result c)) (λ result. Triple-pure _ (λ w p. p))
    conclude-Keeps session step (raised timeout_error) =
        Triple-bind (interrupt-Keeps session.session_info.kernel_id)
          (λ _. Triple-raise _ (λ w p. p))
    conclude-Keeps session step (raised _) = Triple-raise _ (λ w p. p)

    msg_id_of-Keeps : (message : Fields) → Keeps (msg_id_of r client channels message)
    unfolding msg_id_of
    msg_id_of-Keeps message =
        Triple-bind (item-keeps r client (λ w. P (r.stored w)) "header" (dict_value message))
          (λ header.
            Triple-bind (item-keeps r client (λ w. P (r.stored w)) "msg_id" header)
              (λ id. Triple-pure _ (λ w p. p)))

    exchange-Keeps :
        (session : JupyterSession r client channels) (step : ExecutionStep) (message : Fields)
        (id : String)
        → Keeps (exchange r client channels session step message id)
    unfolding exchange
    exchange-Keeps session step message id =
        Triple-bind (send-Keeps session.websocket message) (λ _.
          Triple-bind (frame r P (channels.frames_in_time_law step.timeout_seconds))
            (λ frames. listen-Keeps session.websocket frames (new_collector id step.step_id)))

    pub run-Keeps :
        (on_request_started : String → Action r.World (Unit {0}))
        (session : JupyterSession r client channels) (step : ExecutionStep)
        → ((id : String) → Keeps (on_request_started id))
        → Keeps (run r client channels on_request_started session step)
    unfolding run
    run-Keeps on_request_started session step h =
        Triple-bind
          (frame r P
            (channels.msg_law "execute_request" (request_content r client channels step.code)))
          (λ created.
            let message = set_value "channel" (str_value "shell") created in
            Triple-bind (msg_id_of-Keeps message) (λ id. Triple-bind (h id) (λ _.
              Triple-attempt (conclude r client channels session step)
                (exchange-Keeps session step message id) (λ c. conclude-Keeps session step (ok c))
                (λ x. conclude-Keeps session step (raised x)))))

    -- The calls do not touch Redis.
    pub calls : Calls r client channels (λ w. P (r.stored w))
    calls = record {
      post_json_keeps = λ path body. frame r P (client.http_post_json_law path body);
      delete_keeps = λ path. frame r P (client.http_delete_law path);
      connect_keeps = λ kernel_id. frame r P (channels.connect_law kernel_id);
      close_keeps = λ socket. frame r P (channels.close_law socket);
    }

  -- `JupyterExecutionRunner`
  unfoldable pub jupyter_runner : ExecutionRunner r
  jupyter_runner = record {
    Session = JupyterSession r client channels;
    session_info = λ s. s.session_info;
    open_session = open_session r client channels;
    run = run r client channels;
    close = close r client channels;
    open_session_law = λ i k m. open_session-Keeps r client channels _ (calls (λ s. s ≡ m)) i k;
    run_law = λ P cb session step h. run-Keeps P cb session step h;
    close_law = λ s x m. close-Keeps r client channels _ (calls (λ k. k ≡ m)) s x;
  }
